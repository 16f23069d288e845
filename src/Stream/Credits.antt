-- ===== src/Stream/Credits.antt =====
-- streamAggregationState.ts and streamPullPrefetch.ts: how many chunks the client still expects of
-- the windows that the hub has granted, and when it asks for the next window.
pub mod Protocol
mod Tests
use Prim.Native.String.{String}
use text.Mathlib.Text.{◌==◌ as str_eq}
use plug_node.Base.{
  ℕ, ◌+◌, ◌-◌, ◌/◌, max, Bool, true, false, not, ◌&&◌, ◌||◌, Option, none, some, ltb, leb, ◌==◌,
  if◌then◌else◌,
}

-- `StreamAggregationState`
pub record State : Type 0 where
  pub active_stream_id : Option String
  pub credits : ℕ
  pub pull_in_flight : Bool
  pub pending_chunks : ℕ
  pub completed : Bool
  pub pull_count : ℕ
  pub last_granted_window_size : ℕ

unfoldable pub init : State
init = record {
  active_stream_id = none;
  credits = 0;
  pull_in_flight = false;
  pending_chunks = 0;
  completed = false;
  pull_count = 0;
  last_granted_window_size = 0;
}

-- `!state.activeStreamId` is false: there is an id, and it is not empty.
abbrev pub has_stream : Option String → Bool
has_stream none = false
has_stream (some id) = not (str_eq id "")

unfoldable pub set_active_stream_id : String → State → State
set_active_stream_id id s = record s { active_stream_id = some id }

unfoldable pub record_chunk_received : State → State
record_chunk_received s =
    if not (has_stream s.active_stream_id)
    then s
    else if s.pull_in_flight
    then record s { pending_chunks = s.pending_chunks + 1 }
    else if ltb 0 s.credits
    then record s { credits = s.credits - 1 }
    else s

-- `Math.max(1, Math.floor(lastGrantedWindowSize * 0.25))`
abbrev pub prefetch_threshold : ℕ → ℕ
prefetch_threshold granted = max 1 (granted / 4)

unfoldable pub should_prefetch : State → ℕ → Bool
should_prefetch s granted =
    if not (has_stream s.active_stream_id) || s.pull_in_flight || s.completed || leb granted 0
    then false
    else leb s.credits (prefetch_threshold granted)

-- Whether `schedulePullIfCreditsExhausted` queues a pull.
unfoldable pub schedules_pull : State → Bool
schedules_pull s =
    if not (has_stream s.active_stream_id) || s.completed || s.pull_in_flight
    then false
    else s.credits == 0 || should_prefetch s s.last_granted_window_size

unfoldable pub should_skip_pull : State → Bool
should_skip_pull s = not (has_stream s.active_stream_id) || s.pull_in_flight || s.completed

unfoldable pub begin_pull : State → State
begin_pull s = record s { pull_in_flight = true; pull_count = s.pull_count + 1 }

unfoldable pub abort_pull : State → State
abort_pull s =
    if not s.pull_in_flight
    then s
    else record s { pull_in_flight = false; pull_count = s.pull_count - 1 }

abbrev pub is_some_id : Option String → Bool
is_some_id none = false
is_some_id (some id) = true

unfoldable pub finish_pull : State → ℕ → State × Bool
finish_pull s window =
    let after = record s {
      last_granted_window_size = window;
      credits = window - s.pending_chunks;
      pending_chunks = 0;
      pull_in_flight = false;
    } in
    (after, is_some_id s.active_stream_id && after.credits == 0 && not s.completed)
