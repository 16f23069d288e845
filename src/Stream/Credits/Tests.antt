-- ===== src/Stream/Credits/Tests.antt =====
-- A stream with one window, and the theorems on its credits at it.
use plug_node.Base.{◌+◌, ◌≤◌, ◌<◌, refl, arith}
use plug_node.Stream.Credits.{
  init, set_active_stream_id, record_chunk_received, schedules_pull, should_prefetch,
  should_skip_pull, begin_pull, abort_pull, finish_pull,
}
use plug_node.Stream.Credits.Protocol.{
  Session, opens, receives, begins, finishes, Reach, here, next, start, credits_owed, no_stall,
}

credits_code : Unit {0}
unfolding init set_active_stream_id record_chunk_received schedules_pull should_prefetch
    should_skip_pull begin_pull abort_pull finish_pull
credits_code = tt

abbrev opened : Session
unfolding init set_active_stream_id
opened = record start { state = set_active_stream_id "s" start.state }

abbrev granted : Session
unfolding init set_active_stream_id begin_pull finish_pull
granted = record start { state = (finish_pull (begin_pull opened.state) 256).0; granted = 256 }

abbrev one_chunk : Session
unfolding init set_active_stream_id begin_pull finish_pull record_chunk_received
one_chunk = record granted { state = record_chunk_received granted.state; received = 1 }

abbrev begun : Session
unfolding init set_active_stream_id begin_pull
begun = record opened { state = begin_pull opened.state }

one_chunk_reached : Reach start one_chunk
unfolding credits_code
one_chunk_reached =
    let open_stream : Reach start opened = next {t = start} here (opens "s" refl) in
    let asked : Reach start begun = next {t = opened} open_stream (begins refl refl) in
    let told : Reach start granted =
      next {t = begun} asked (finishes 256 refl (omega arith) refl) in
    next {t = granted} told (receives refl (λ e. omega arith) refl)

credits_owed_example : 255 + 1 ≤ 256
unfolding credits_code
credits_owed_example = credits_owed one_chunk_reached refl

no_stall_example : 1 + 64 < 256
unfolding credits_code
no_stall_example = no_stall one_chunk_reached refl refl refl refl refl
