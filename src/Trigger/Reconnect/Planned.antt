-- ===== src/Trigger/Reconnect/Planned.antt =====
-- A manager that is open has a timer, or a session that closes, for the reconnection that it plans.
use plug_node.Base.{
  ℕ, ◌≡◌, refl, Bool, true, false, not, ◌&&◌, ◌||◌, Option, none, some, List, [], ◌∷◌, arith, every,
  and-true, at_if, leb,
}
use plug_node.Trigger.Reconnect.{
  Config, Failure, plug, foreign, Waiting, nothing, connecting, delaying, State, Turn, start,
  attempts_used, is_retryable, handle_runtime_error, schedule_reconnect, reconnect_failed,
  loop_throws, connect_succeeds, connect_fails, delay_ends, reconnect_timer_fires, session_settles,
  mark_closed, reset_attempts, record_failure, circuit_error, after_recording, Event, connected,
  delay_over, timer_fired, closes, session_closed, resets, clears_timer, failed, errors,
  connect_settles, step, run,
}
use plug_node.Trigger.Reconnect.Steps.{is_closing}
use plug_node.Trigger.Reconnect.Invariant.{run-start-Inv}

-- The trigger calls `clearReconnectTimer` only behind `markClosed`.
abbrev pub keeps_timer : Event → Bool
keeps_timer clears_timer = false
keeps_timer e = true

-- A reconnection that is planned has its timer or its closing session, or the manager is closed.
abbrev Planned : State → Type 0
Planned s =
    (s.reconnecting && not s.closed && not s.reconnect_timer && not (is_closing s.closing)) ≡ false

handle-Planned : (e : Failure) (s : State) → Planned s → Planned (handle_runtime_error e s).0
unfolding handle_runtime_error
handle-Planned e s p = ground (arith, p)

failed-Planned : (e : Failure) (s : State) → Planned s → Planned (reconnect_failed e s).0
unfolding reconnect_failed
failed-Planned (plug r true) s p = p
failed-Planned (plug r false) s p = handle-Planned (plug r false) s p
failed-Planned foreign s p = handle-Planned (plug true false) s p

throws-Planned : (e : Failure) (s : State) → Planned s → Planned (loop_throws e s).0
unfolding loop_throws
throws-Planned e s p =
    let ended : State = record s { connect_loop_active = false; waiting = nothing } in
    at_if (λ (r : Turn). Planned r.0) s.from_timer _ _ (λ t. failed-Planned e ended p) (λ t. p)

record-Planned : (c : Config) (now : ℕ) (s : State) → Planned s → Planned (record_failure c now s).0
unfolding record_failure
record-Planned c now s p =
    at_if (λ (r : State × Bool). Planned r.0) (leb c.max_reconnect_failures_in_window 0) _ _
      (λ t. p) (λ t. p)

after-Planned :
    (ms : ℕ) (e : Failure) (r : State × Bool)
    → Planned r.0
    → Planned (after_recording circuit_error ms e r).0
unfolding after_recording
after-Planned ms e (s, opens) p =
    at_if (λ (r : Turn). Planned r.0) opens _ _ (λ t. throws-Planned circuit_error s p) (λ t. p)

fails-Planned :
    (c : Config) (now ms : ℕ) (e : Failure) (s : State)
    → Planned s
    → Planned (connect_fails c circuit_error now ms e s).0
unfolding connect_fails
fails-Planned c now ms e s p =
    at_if (λ (r : Turn). Planned r.0)
      (s.closed || not c.reconnect_on_disconnect || not (is_retryable e) || attempts_used c s) _ _
      (λ t. throws-Planned e s p)
      (λ t. after-Planned ms e (record_failure c now s) (record-Planned c now s p))

slept-Planned : (e : Failure) (s : State) → Planned s → Planned (delay_ends e s).0
unfolding delay_ends
slept-Planned e s p =
    at_if (λ (r : Turn). Planned r.0) s.closed _ _
      (λ t. throws-Planned e (record s { delay_timer = false }) p) (λ t. p)

session-Planned :
    (c : Config) (ms : ℕ) (o : Option Failure) (s : State)
    → Planned s
    → Planned (session_settles c ms o s).0
unfolding session_settles schedule_reconnect
session-Planned c ms none s p = p
session-Planned c ms (some e) s p = ground (arith, p)

settles-Planned :
    (c : Config) (draw : ℕ) (event : Event) (w : Waiting) (s : State)
    → Planned s
    → Planned (connect_settles c draw event w s).0
unfolding connect_settles connect_succeeds reset_attempts
settles-Planned c draw connected connecting s p = p
settles-Planned c draw (failed now e) connecting s p = fails-Planned c now _ e s p
settles-Planned c draw delay_over (delaying e) s p =
    at_if (λ (r : Turn). Planned r.0) s.delay_timer _ _ (λ t. slept-Planned e s p) (λ t. p)
settles-Planned c draw event w s p = p

step-Planned :
    (c : Config) (e : ℕ × Event) (s : State)
    → keeps_timer e.1 ≡ true
    → Planned s
    → Planned (step c e s).0
unfolding step mark_closed reset_attempts reconnect_timer_fires
step-Planned c (draw, errors e) s k p = handle-Planned e s p
step-Planned c (draw, closes) s k p = ground arith
step-Planned c (draw, resets) s k p = p
step-Planned c (draw, clears_timer) s k p = cc
step-Planned c (draw, timer_fired) s k p = ground (arith, p)
step-Planned c (draw, session_closed) s k p = session-Planned c _ s.closing s p
step-Planned c (draw, connected) s k p = settles-Planned c draw connected s.waiting s p
step-Planned c (draw, delay_over) s k p = settles-Planned c draw delay_over s.waiting s p
step-Planned c (draw, failed now e) s k p = settles-Planned c draw (failed now e) s.waiting s p

run-Planned :
    (c : Config) (es : List (ℕ × Event)) (s : State)
    → every (λ (e : ℕ × Event). keeps_timer e.1) es ≡ true
    → Planned s
    → Planned (run c es s).0
unfolding run
run-Planned c [] s k p = p
run-Planned c (e ∷ es) s k p =
    let (first, rest) = and-true (keeps_timer e.1) _ k in
    run-Planned c es (step c e s).0 rest (step-Planned c e s first p)

start-Planned : Planned start
unfolding start
start-Planned = refl

-- Whatever happens after the trigger has started to connect, as long as the manager is not closed and
-- its timer is not cleared from outside: a reconnection is planned exactly while its timer runs or
-- its session closes, so none is left without an event that goes on with it.
pub run-start-planned :
    (c : Config) (es : List (ℕ × Event))
    → every (λ (e : ℕ × Event). keeps_timer e.1) es ≡ true
    → (run c es start).0.closed ≡ false
    → (run c es start).0.reconnecting
      ≡ ((run c es start).0.reconnect_timer || is_closing (run c es start).0.closing)
run-start-planned c es k live =
    let v = run-start-Inv c es in
    let p = run-Planned c es start k start-Planned in ground (arith, live, p, v.timer, v.session)
