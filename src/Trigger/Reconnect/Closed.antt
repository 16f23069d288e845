-- ===== src/Trigger/Reconnect/Closed.antt =====
-- What the manager does after `markClosed`.
use plug_node.Base.{
  ℕ, ◌≡◌, refl, Bool, true, false, not, ◌||◌, Option, none, some, List, [], ◌∷◌, arith,
  if◌then◌else◌, All, All-append,
}
use plug_node.Trigger.Reconnect.{
  Config, Failure, plug, foreign, Waiting, nothing, connecting, delaying, State, Turn, Effect,
  connects, resolves, closes_session, exhausted, waits, rejects, fatal, handle_runtime_error,
  schedule_reconnect, reconnect_failed, loop_throws, connect_succeeds, connect_fails, Event,
  connected, delay_over, timer_fired, closes, session_closed, resets, clears_timer, failed, errors,
  connect_settles, session_settles, step, run, mark_closed, clear_reconnect_timer, reset_attempts,
  attempts_used, is_retryable, circuit_error,
}

-- An effect that opens no connection and plans none.
abbrev pub IsFinal : Effect → Type 0
IsFinal connects = ⊥
IsFinal closes_session = ⊥
IsFinal (waits ms) = ⊥
IsFinal resolves = Unit
IsFinal exhausted = Unit
IsFinal (rejects e) = Unit
IsFinal (fatal e) = Unit

pub record IsShut (s : State) : Type 0 where
  pub closed : s.closed ≡ true
  pub reconnect_timer : s.reconnect_timer ≡ false
  pub delay_timer : s.delay_timer ≡ false

abbrev pub IsQuiet : Turn → Type 0
IsQuiet t = IsShut t.0 × All IsFinal t.1

pub mark_closed-IsShut : (s : State) → IsShut (mark_closed s)
unfolding mark_closed
mark_closed-IsShut s = record { closed = refl; reconnect_timer = refl; delay_timer = refl }

if-IsQuiet :
    (b : Bool) (x y : Turn)
    → (b ≡ true → IsQuiet x)
    → (b ≡ false → IsQuiet y)
    → IsQuiet (if b then x else y)
if-IsQuiet true x y p q = p refl
if-IsQuiet false x y p q = q refl

handle-IsQuiet : (e : Failure) (s : State) → IsShut s → IsQuiet (handle_runtime_error e s)
unfolding handle_runtime_error
handle-IsQuiet e s h =
    if-IsQuiet (s.closed || s.reconnecting || s.connect_loop_active) _ _ (λ t. (h, tt))
      (λ t. absurd (ground (arith, h.closed, t)))

failed-IsQuiet : (e : Failure) (s : State) → IsShut s → IsQuiet (reconnect_failed e s)
unfolding reconnect_failed
failed-IsQuiet (plug r true) s h = (h, (tt, tt))
failed-IsQuiet (plug r false) s h = handle-IsQuiet (plug r false) s h
failed-IsQuiet foreign s h = handle-IsQuiet (plug true false) s h

ended-IsShut :
    (s : State) → IsShut s → IsShut (record s { connect_loop_active = false; waiting = nothing })
ended-IsShut s h = record {
  closed = h.closed;
  reconnect_timer = h.reconnect_timer;
  delay_timer = h.delay_timer;
}

throws-IsQuiet : (e : Failure) (s : State) → IsShut s → IsQuiet (loop_throws e s)
unfolding loop_throws
throws-IsQuiet e s h =
    if-IsQuiet s.from_timer _ _ (λ t. failed-IsQuiet e _ (ended-IsShut s h))
      (λ t. (ended-IsShut s h, (tt, tt)))

fails-IsQuiet :
    (c : Config) (now ms : ℕ) (e : Failure) (s : State)
    → IsShut s
    → IsQuiet (connect_fails c circuit_error now ms e s)
unfolding connect_fails
fails-IsQuiet c now ms e s h =
    if-IsQuiet
      (s.closed || not c.reconnect_on_disconnect || not (is_retryable e) || attempts_used c s) _ _
      (λ t. throws-IsQuiet e s h) (λ t. absurd (ground (arith, h.closed, t)))

schedule-IsQuiet :
    (c : Config) (ms : ℕ) (e : Failure) (s : State)
    → IsShut s
    → IsQuiet (schedule_reconnect c ms e (record s { closing = none }))
unfolding schedule_reconnect
schedule-IsQuiet c ms e s h =
    if-IsQuiet (s.closed || not c.reconnect_on_disconnect || not (is_retryable e)) _ _
      (λ t. (
        record {
          closed = h.closed;
          reconnect_timer = h.reconnect_timer;
          delay_timer = h.delay_timer;
        },
        (tt, tt),
      ))
      (λ t. absurd (ground (arith, h.closed, t)))

settles-IsQuiet :
    (c : Config) (draw : ℕ) (event : Event) (w : Waiting) (s : State)
    → IsShut s
    → IsQuiet (connect_settles c draw event w s)
unfolding connect_settles connect_succeeds reset_attempts
settles-IsQuiet c draw connected nothing s h = (h, tt)
settles-IsQuiet c draw connected connecting s h = (
  record { closed = h.closed; reconnect_timer = h.reconnect_timer; delay_timer = h.delay_timer },
  (tt, tt),
)
settles-IsQuiet c draw connected (delaying e) s h = (h, tt)
settles-IsQuiet c draw delay_over nothing s h = (h, tt)
settles-IsQuiet c draw delay_over connecting s h = (h, tt)
settles-IsQuiet c draw delay_over (delaying e) s h =
    if-IsQuiet s.delay_timer _ _ (λ t. absurd (ground (arith, h.delay_timer, t))) (λ t. (h, tt))
settles-IsQuiet c draw (failed now f) nothing s h = (h, tt)
settles-IsQuiet c draw (failed now f) connecting s h = fails-IsQuiet c now _ f s h
settles-IsQuiet c draw (failed now f) (delaying e) s h = (h, tt)
settles-IsQuiet c draw timer_fired nothing s h = (h, tt)
settles-IsQuiet c draw timer_fired connecting s h = (h, tt)
settles-IsQuiet c draw timer_fired (delaying e) s h = (h, tt)
settles-IsQuiet c draw closes nothing s h = (h, tt)
settles-IsQuiet c draw resets nothing s h = (h, tt)
settles-IsQuiet c draw clears_timer nothing s h = (h, tt)
settles-IsQuiet c draw closes connecting s h = (h, tt)
settles-IsQuiet c draw resets connecting s h = (h, tt)
settles-IsQuiet c draw clears_timer connecting s h = (h, tt)
settles-IsQuiet c draw closes (delaying e) s h = (h, tt)
settles-IsQuiet c draw resets (delaying e) s h = (h, tt)
settles-IsQuiet c draw clears_timer (delaying e) s h = (h, tt)
settles-IsQuiet c draw session_closed nothing s h = (h, tt)
settles-IsQuiet c draw session_closed connecting s h = (h, tt)
settles-IsQuiet c draw session_closed (delaying e) s h = (h, tt)
settles-IsQuiet c draw (errors f) nothing s h = (h, tt)
settles-IsQuiet c draw (errors f) connecting s h = (h, tt)
settles-IsQuiet c draw (errors f) (delaying e) s h = (h, tt)

session-IsQuiet :
    (c : Config) (ms : ℕ) (o : Option Failure) (s : State)
    → IsShut s
    → IsQuiet (session_settles c ms o s)
unfolding session_settles
session-IsQuiet c ms none s h = (h, tt)
session-IsQuiet c ms (some e) s h = schedule-IsQuiet c ms e s h

pub step-IsQuiet : (c : Config) (e : ℕ × Event) (s : State) → IsShut s → IsQuiet (step c e s)
unfolding step reset_attempts clear_reconnect_timer
step-IsQuiet c (draw, errors e) s h = handle-IsQuiet e s h
step-IsQuiet c (draw, closes) s h = (mark_closed-IsShut s, tt)
step-IsQuiet c (draw, resets) s h = (
  record { closed = h.closed; reconnect_timer = h.reconnect_timer; delay_timer = h.delay_timer },
  tt,
)
step-IsQuiet c (draw, clears_timer) s h =
    (record { closed = h.closed; reconnect_timer = refl; delay_timer = h.delay_timer }, tt)
step-IsQuiet c (draw, timer_fired) s h =
    if-IsQuiet s.reconnect_timer _ _ (λ t. absurd (ground (arith, h.reconnect_timer, t)))
      (λ t. (h, tt))
step-IsQuiet c (draw, session_closed) s h = session-IsQuiet c _ s.closing s h
step-IsQuiet c (draw, connected) s h = settles-IsQuiet c draw connected s.waiting s h
step-IsQuiet c (draw, delay_over) s h = settles-IsQuiet c draw delay_over s.waiting s h
step-IsQuiet c (draw, failed now e) s h = settles-IsQuiet c draw (failed now e) s.waiting s h

run-IsFinal :
    (c : Config) (es : List (ℕ × Event)) (s : State) → IsShut s → All IsFinal (run c es s).1
unfolding run
run-IsFinal c [] s h = tt
run-IsFinal c (e ∷ es) s h =
    let (shut, quiet) = step-IsQuiet c e s h in
    All-append IsFinal (step c e s).1 (run c es (step c e s).0).1 quiet
      (run-IsFinal c es (step c e s).0 shut)

-- After `markClosed`, in any state and whatever happens then, the manager calls `connect` no more,
-- closes no session, and plans no further attempt.
pub mark_closed-IsFinal :
    (c : Config) (es : List (ℕ × Event)) (s : State) → All IsFinal (run c es (mark_closed s)).1
mark_closed-IsFinal c es s = run-IsFinal c es (mark_closed s) (mark_closed-IsShut s)
