-- ===== src/Trigger/Reconnect.antt =====
-- triggerReconnectManager.ts: the state machine that connects the trigger's session again. A step
-- is what runs between two waits; the promises that it waits for are part of the state.
pub mod Steps
pub mod Invariant
pub mod Delay
pub mod Planned
pub mod Closed
pub mod Stranded
mod Tests
use plug_node.Base.{
  ℕ, ◌+◌, ◌*◌, ◌/◌, ◌^◌, min, max, Bool, true, false, not, ◌&&◌, ◌||◌, Option, none, some, List, [],
  ◌∷◌, ◌++◌, ltb, leb, if◌then◌else◌, length, keep_if,
}

pub record Config : Type 0 where
  pub reconnect_on_disconnect : Bool
  pub max_reconnect_attempts : ℕ
  pub reconnect_initial_delay_ms : ℕ
  pub reconnect_max_delay_ms : ℕ
  pub reconnect_failure_window_ms : ℕ
  pub max_reconnect_failures_in_window : ℕ

-- What the trigger passes to the constructor, and what the constructor makes of it.
pub record Input : Type 0 where
  pub reconnect_on_disconnect : Bool
  pub max_reconnect_attempts : ℕ
  pub reconnect_initial_delay_ms : Option ℕ
  pub reconnect_max_delay_ms : Option ℕ
  pub reconnect_failure_window_ms : Option ℕ
  pub max_reconnect_failures_in_window : ℕ

abbrev value_or : Option ℕ → ℕ → ℕ
value_or none d = d
value_or (some n) d = n

unfoldable pub configure : Input → Config
configure i =
    let initial = value_or i.reconnect_initial_delay_ms 1000 in
    record {
      reconnect_on_disconnect = i.reconnect_on_disconnect;
      max_reconnect_attempts = i.max_reconnect_attempts;
      reconnect_initial_delay_ms = initial;
      reconnect_max_delay_ms = max initial (value_or i.reconnect_max_delay_ms 30000);
      reconnect_failure_window_ms = value_or i.reconnect_failure_window_ms 300000;
      max_reconnect_failures_in_window = i.max_reconnect_failures_in_window;
    }

-- A `PlugError` with what the manager reads of it, or any other value that was thrown.
pub data Failure : Type 0 where
  plug : (retryable circuit_open : Bool) → Failure
  foreign : Failure

-- What `connectWithRetry` waits for: `connect()`, or the delay after a failure.
pub data Waiting : Type 0 where
  nothing connecting : Waiting
  delaying : Failure → Waiting

pub record State : Type 0 where
  pub reconnect_attempts : ℕ
  pub reconnect_failure_times : List ℕ
  pub reconnect_timer : Bool
  pub delay_timer : Bool
  pub reconnecting : Bool
  pub connect_loop_active : Bool
  pub closed : Bool
  -- Where the loop stands, and whether the timer's callback or the trigger itself called it.
  pub waiting : Waiting
  pub from_timer : Bool
  -- The error of a `handleRuntimeError` that waits for `closeSession()`.
  pub closing : Option Failure

pub data Effect : Type 0 where
  connects resolves closes_session exhausted : Effect
  waits : (ms : ℕ) → Effect
  rejects fatal : Failure → Effect

abbrev pub Turn : Type 0
Turn = State × List Effect

-- The trigger has called `connectWithRetry` on a new manager.
unfoldable pub start : State
start = record {
  reconnect_attempts = 0;
  reconnect_failure_times = [];
  reconnect_timer = false;
  delay_timer = false;
  reconnecting = false;
  connect_loop_active = true;
  closed = false;
  waiting = connecting;
  from_timer = false;
  closing = none;
}

abbrev pub is_retryable : Failure → Bool
is_retryable (plug retryable circuit_open) = retryable
is_retryable foreign = false

-- `Math.random()` is a draw out of so many.
abbrev pub draws : ℕ
draws = 2 ^ 53

-- `Math.round(ms * jitter)` with the jitter `0.8 + Math.random() * 0.4`; Math.round takes a half up.
unfoldable pub jittered : (ms draw : ℕ) → ℕ
jittered ms draw = (2 * (ms * (8 * draws + 4 * draw)) + 10 * draws) / (20 * draws)

-- The delay before the jitter.
unfoldable pub exponential_delay : Config → State → ℕ
exponential_delay c s =
    min c.reconnect_max_delay_ms (c.reconnect_initial_delay_ms * 2 ^ min s.reconnect_attempts 8)

-- `getReconnectDelayMs`, with what `Math.random()` draws.
unfoldable pub get_reconnect_delay_ms : Config → (draw : ℕ) → State → ℕ
get_reconnect_delay_ms c draw s = max 100 (jittered (exponential_delay c s) draw)

unfoldable pub reset_attempts : State → State
reset_attempts s = record s { reconnect_attempts = 0; reconnect_failure_times = [] }

unfoldable pub clear_reconnect_timer : State → State
clear_reconnect_timer s = record s { reconnect_timer = false }

unfoldable pub mark_closed : State → State
mark_closed s = record s { closed = true; reconnect_timer = false; delay_timer = false }

-- `recordReconnectFailureAndIsCircuitOpen`
unfoldable pub record_failure : Config → ℕ → State → State × Bool
record_failure c now s =
    let times =
      keep_if (λ t. leb now (t + c.reconnect_failure_window_ms)) s.reconnect_failure_times
      ++ now ∷ [] in
    if leb c.max_reconnect_failures_in_window 0 then (s, false) else (
      record s { reconnect_failure_times = times },
      ltb c.max_reconnect_failures_in_window (length times),
    )

abbrev pub attempts_used : Config → State → Bool
attempts_used c s =
    ltb 0 c.max_reconnect_attempts && leb c.max_reconnect_attempts s.reconnect_attempts

unfoldable pub handle_runtime_error : Failure → State → Turn
handle_runtime_error e s =
    if s.closed || s.reconnecting || s.connect_loop_active
    then (s, [])
    else (record s { reconnecting = true; closing = some e }, closes_session ∷ [])

unfoldable pub schedule_reconnect : Config → ℕ → Failure → State → Turn
schedule_reconnect c ms e s =
    if s.closed || not c.reconnect_on_disconnect || not (is_retryable e)
    then (record s { reconnecting = false }, fatal e ∷ [])
    else if attempts_used c s
    then (record s { reconnecting = false }, exhausted ∷ [])
    else (record s { reconnect_timer = true }, waits ms ∷ [])

-- The `catch` behind the timer's `connectWithRetry`.
unfoldable pub reconnect_failed : Failure → State → Turn
reconnect_failed (plug retryable true) s = (s, fatal (plug retryable true) ∷ [])
reconnect_failed (plug retryable false) s = handle_runtime_error (plug retryable false) s
reconnect_failed foreign s = handle_runtime_error (plug true false) s

-- `connectWithRetry` throws: its `finally`, then its caller.
unfoldable pub loop_throws : Failure → State → Turn
loop_throws e s =
    let ended = record s { connect_loop_active = false; waiting = nothing } in
    if s.from_timer then reconnect_failed e ended else (ended, rejects e ∷ [])

unfoldable pub connect_succeeds : State → Turn
connect_succeeds s =
    (record (reset_attempts s) { connect_loop_active = false; waiting = nothing }, resolves ∷ [])

-- A failure was recorded, and whether the circuit opens.
unfoldable pub after_recording : (circuit_error : Failure) → ℕ → Failure → State × Bool → Turn
after_recording circuit_error ms e (s, opens) = if opens then loop_throws circuit_error s else (
  record s {
    reconnect_attempts = s.reconnect_attempts + 1;
    delay_timer = true;
    waiting = delaying e;
  },
  waits ms ∷ [],
)

-- The `catch` inside the loop.
unfoldable pub connect_fails : Config → (circuit_error : Failure) → ℕ → ℕ → Failure → State → Turn
connect_fails c circuit_error now ms e s =
    if s.closed || not c.reconnect_on_disconnect || not (is_retryable e) || attempts_used c s
    then loop_throws e s
    else after_recording circuit_error ms e (record_failure c now s)

unfoldable pub delay_ends : Failure → State → Turn
delay_ends e s =
    let awake = record s { delay_timer = false } in
    if s.closed then loop_throws e awake else (record awake { waiting = connecting }, connects ∷ [])

unfoldable pub reconnect_timer_fires : State → Turn
reconnect_timer_fires s = (
  record s {
    reconnect_timer = false;
    reconnecting = false;
    connect_loop_active = true;
    waiting = connecting;
    from_timer = true;
  },
  connects ∷ [],
)

-- What happens next; where the manager does not wait for it, it does not happen. The trigger calls
-- `connectWithRetry` itself once, at the start.
pub data Event : Type 0 where
  connected delay_over timer_fired closes session_closed resets clears_timer : Event
  failed : (now : ℕ) → Failure → Event
  errors : Failure → Event

-- `circuit_error` is that of `createReconnectCircuitOpenError`.
abbrev pub circuit_error : Failure
circuit_error = plug true true

unfoldable pub connect_settles : Config → ℕ → Event → Waiting → State → Turn
connect_settles c draw connected connecting s = connect_succeeds s
connect_settles c draw (failed now e) connecting s =
    connect_fails c circuit_error now
      (get_reconnect_delay_ms c draw (record s { reconnect_attempts = s.reconnect_attempts + 1 })) e
      s
connect_settles c draw delay_over (delaying e) s = if s.delay_timer then delay_ends e s else (s, [])
connect_settles c draw event waiting s = (s, [])

unfoldable pub session_settles : Config → ℕ → Option Failure → State → Turn
session_settles c ms none s = (s, [])
session_settles c ms (some e) s = schedule_reconnect c ms e (record s { closing = none })

unfoldable pub step : Config → ℕ × Event → State → Turn
step c (draw, errors e) s = handle_runtime_error e s
step c (draw, closes) s = (mark_closed s, [])
step c (draw, resets) s = (reset_attempts s, [])
step c (draw, clears_timer) s = (clear_reconnect_timer s, [])
step c (draw, timer_fired) s = if s.reconnect_timer then reconnect_timer_fires s else (s, [])
step c (draw, session_closed) s = session_settles c (get_reconnect_delay_ms c draw s) s.closing s
step c (draw, event) s = connect_settles c draw event s.waiting s

unfoldable pub run : Config → List (ℕ × Event) → State → Turn
run c [] s = (s, [])
run c (e ∷ es) s = let now = step c e s in let rest = run c es now.0 in (rest.0, now.1 ++ rest.1)
