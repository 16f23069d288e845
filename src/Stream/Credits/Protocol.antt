-- ===== src/Stream/Credits/Protocol.antt =====
-- The credits beside what the hub has granted and sent: a session with a hub that keeps to its
-- windows, as steps.
use Prim.Native.String.{String}
use plug_node.Base.{zero, suc, ◌↔◌, ℕ, ◌+◌, ◌≤◌, ◌<◌, ◌≡◌, true, false, arith}
use plug_node.Stream.Credits.{
  State, init, has_stream, set_active_stream_id, record_chunk_received, schedules_pull,
  should_prefetch, should_skip_pull, begin_pull, abort_pull, finish_pull, prefetch_threshold,
  is_some_id,
}

-- The client's state, with the sum of the windows that it was told of, and the chunks that it has
-- counted.
pub record Session : Type 0 where
  pub state : State
  pub granted : ℕ
  pub received : ℕ

pub data Step (s t : Session) : Type 0 where
  opens : (id : String) → t ≡ record s { state = set_active_stream_id id s.state } → Step s t
  -- Outside a pull the hub sends a chunk only of a window that it has granted.
  receives :
      has_stream s.state.active_stream_id ≡ true
      → (s.state.pull_in_flight ≡ false → s.received < s.granted)
      → t ≡ record s { state = record_chunk_received s.state; received = s.received + 1 }
      → Step s t
  begins : should_skip_pull s.state ≡ false → t ≡ record s { state = begin_pull s.state } → Step s t
  -- What came during the pull belongs to the window that the answer tells of.
  finishes :
      (window : ℕ)
      → s.state.pull_in_flight ≡ true
      → s.received ≤ s.granted + window
      → t ≡ record s { state = (finish_pull s.state window).0; granted = s.granted + window }
      → Step s t
  aborts : t ≡ record s { state = abort_pull s.state } → Step s t
  completes : t ≡ record s { state = record s.state { completed = true } } → Step s t

pub data Reach (s : Session) : Session → Type 0 where
  here : Reach s s
  next : {t u : Session} → Reach s t → Step t u → Reach s u

abbrev pub start : Session
start = record { state = init; granted = 0; received = 0 }

-- The client never expects more than the hub still owes, but for the chunks of an aborted pull.
abbrev pub IsCovered : Session → Type 0
IsCovered s = s.state.credits + s.received ≤ s.granted + s.state.pending_chunks

Step-IsCovered : {s t : Session} → Step s t → IsCovered s → IsCovered t
unfolding set_active_stream_id record_chunk_received begin_pull finish_pull abort_pull
Step-IsCovered (opens id e) h = ground arith
Step-IsCovered (receives open_ fits e) h = ground arith
Step-IsCovered (begins go e) h = ground arith
Step-IsCovered (finishes window flying fits e) h = ground arith
Step-IsCovered (aborts e) h = ground arith
Step-IsCovered (completes e) h = ground arith

Reach-IsCovered : {t : Session} → Reach start t → IsCovered t
unfolding init
Reach-IsCovered here = omega arith
Reach-IsCovered (next r st) = Step-IsCovered st (Reach-IsCovered r)

-- In every reachable session without pending chunks, the credits are at most what the hub still
-- owes: they and the chunks received do not exceed the windows granted.
pub credits_owed :
    {t : Session}
    → Reach start t
    → t.state.pending_chunks ≡ 0
    → t.state.credits + t.received ≤ t.granted
credits_owed r h = omega (arith, Reach-IsCovered r)

-- What may be left of a window when the next one is asked for; nothing before the first window.
abbrev pub margin : ℕ → ℕ
margin zero = 0
margin (suc n) = prefetch_threshold (suc n)

-- No stall: where a reachable session without pending chunks has an open stream that is not
-- completed, and neither pulls nor schedules a pull, the hub still owes it chunks, and more than
-- the threshold for the next window.
pub no_stall :
    {t : Session}
    → Reach start t
    → t.state.pending_chunks ≡ 0
    → has_stream t.state.active_stream_id ≡ true
    → t.state.completed ≡ false
    → t.state.pull_in_flight ≡ false
    → schedules_pull t.state ≡ false
    → t.received + margin t.state.last_granted_window_size < t.granted
unfolding schedules_pull should_prefetch
no_stall r p o c f s = ground (arith, credits_owed r p)

-- After a pull the loop asks again at once exactly when the stream is open, not completed, and the
-- chunks that came during the pull have used up the window.
finish_pull_again :
    (s : State) (window : ℕ)
    → ((finish_pull s window).1 ≡ true) ↔ (
        (window ≤ s.pending_chunks)
        × (is_some_id s.active_stream_id ≡ true)
        × (s.completed ≡ false))
unfolding finish_pull
finish_pull_again s window = ground arith
