-- ===== src/Trigger/Reconnect/Tests.antt =====
-- Runs of the manager, and the theorems at them.
use plug_node.Base.{
  every, ◌||◌, ℕ, ◌+◌, ◌*◌, ◌/◌, ◌≤◌, ◌≡◌, refl, max, true, false, none, some, List, [], ◌∷◌, All,
  arith,
}
use plug_node.Trigger.Reconnect.{
  configure, Config, Failure, plug, delaying, State, connects, resolves, rejects, waits,
  closes_session, start, get_reconnect_delay_ms, jittered, exponential_delay, draws, reset_attempts,
  mark_closed, record_failure, handle_runtime_error, schedule_reconnect, reconnect_failed,
  loop_throws, connect_succeeds, after_recording, connect_fails, delay_ends, reconnect_timer_fires,
  Event, connected, delay_over, timer_fired, session_closed, failed, errors, connect_settles,
  session_settles, step, run,
}
use plug_node.Trigger.Reconnect.Steps.{Inv, is_closing}
use plug_node.Trigger.Reconnect.Invariant.{run-start-Inv}
use plug_node.Trigger.Reconnect.Delay.{reconnect_delay_bounds}
use plug_node.Trigger.Reconnect.Planned.{keeps_timer, run-start-planned}
use plug_node.Trigger.Reconnect.Closed.{IsFinal, mark_closed-IsFinal}
use plug_node.Trigger.Reconnect.Stranded.{mark_closed-delaying}

abbrev config : Config
config = record {
  reconnect_on_disconnect = true;
  max_reconnect_attempts = 2;
  reconnect_initial_delay_ms = 1000;
  reconnect_max_delay_ms = 3000;
  reconnect_failure_window_ms = 60000;
  max_reconnect_failures_in_window = 5;
}

-- The draw of a half, at which the jitter is 1.
abbrev steady : ℕ
steady = draws / 2

abbrev lost : Failure
lost = plug true false

abbrev defaults : Config
defaults = configure (record {
  reconnect_on_disconnect = true;
  max_reconnect_attempts = 0;
  reconnect_initial_delay_ms = some 40000;
  reconnect_max_delay_ms = none;
  reconnect_failure_window_ms = none;
  max_reconnect_failures_in_window = 5;
})

defaults_max : defaults.reconnect_max_delay_ms ≡ 40000
unfolding configure
defaults_max = refl

manager_code : Unit {0}
unfolding start get_reconnect_delay_ms jittered exponential_delay reset_attempts mark_closed
    record_failure handle_runtime_error schedule_reconnect reconnect_failed loop_throws
    connect_succeeds after_recording connect_fails delay_ends reconnect_timer_fires connect_settles
    session_settles step run
manager_code = tt

-- A first connection, a disconnection, and a second connection by the timer.
abbrev history : List (ℕ × Event)
history =
    (steady, failed 10 lost)
    ∷ (steady, delay_over)
    ∷ (steady, connected)
    ∷ (steady, errors lost)
    ∷ (steady, session_closed)
    ∷ (steady, timer_fired)
    ∷ (steady, connected)
    ∷ []

history_effects :
    (run config history start).1
    ≡ waits 2000 ∷ connects ∷ resolves ∷ closes_session ∷ waits 1000 ∷ connects ∷ resolves ∷ []
unfolding manager_code
history_effects = refl

-- After two retries the third failure is thrown.
used_up :
    (run config
      ((steady, failed 10 lost)
        ∷ (steady, delay_over)
        ∷ (steady, failed 20 lost)
        ∷ (steady, delay_over)
        ∷ (steady, failed 30 lost)
        ∷ [])
      start).1
    ≡ waits 2000 ∷ connects ∷ waits 3000 ∷ connects ∷ rejects lost ∷ []
unfolding manager_code
used_up = refl

run-start-Inv_example : Inv config (run config history start).0
run-start-Inv_example = run-start-Inv config history

mark_closed-IsFinal_example : All IsFinal (run config history (mark_closed start)).1
mark_closed-IsFinal_example = mark_closed-IsFinal config history start

abbrev asleep : State
asleep = record start { waiting = delaying lost; delay_timer = true }

asleep_active : asleep.connect_loop_active ≡ true
unfolding manager_code
asleep_active = refl

mark_closed-delaying_example :
    ((run config history (mark_closed asleep)).0.waiting ≡ delaying lost)
    × ((run config history (mark_closed asleep)).0.connect_loop_active ≡ true)
mark_closed-delaying_example = mark_closed-delaying config history asleep lost refl asleep_active

reconnect_delay_bounds_example :
    (100 ≤ get_reconnect_delay_ms config steady start)
    × ((8 * exponential_delay config start + 5) / 10 ≤ get_reconnect_delay_ms config steady start)
    × (get_reconnect_delay_ms config steady start
        ≤ max 100 ((12 * exponential_delay config start + 5) / 10))
    × (get_reconnect_delay_ms config steady start ≤ max 100 ((12 * 3000 + 5) / 10))
reconnect_delay_bounds_example = reconnect_delay_bounds config steady start (omega arith)

history_keeps : every (λ (e : ℕ × Event). keeps_timer e.1) history ≡ true
history_keeps = refl

history_open : (run config history start).0.closed ≡ false
unfolding manager_code
history_open = refl

run-start-planned_example : (run config history start).0.reconnecting ≡ (
    (run config history start).0.reconnect_timer || is_closing (run config history start).0.closing)
run-start-planned_example = run-start-planned config history history_keeps history_open
