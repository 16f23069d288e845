-- ===== src/Trigger/Reconnect/Invariant.antt =====
-- In every state that the manager reaches, at most one attempt to connect is under way or planned.
use plug_node.Base.{ℕ, ◌≡◌, refl, List, [], ◌∷◌}
use plug_node.Trigger.Reconnect.{
  Config, Waiting, nothing, connecting, delaying, State, start, Event, connected, delay_over,
  timer_fired, closes, session_closed, resets, clears_timer, failed, errors, connect_settles, step,
  run,
}
use plug_node.Trigger.Reconnect.Steps.{
  Inv, if-Inv, start-Inv, handle-Inv, fails-Inv, succeeds-Inv, delay_ends-Inv, fires-Inv,
  closes-Inv, resets-Inv, clears-Inv, session-Inv,
}

settles-Inv :
    (c : Config) (draw : ℕ) (event : Event) (s : State) (w : Waiting)
    → s.waiting ≡ w
    → Inv c s
    → Inv c (connect_settles c draw event w s).0
unfolding connect_settles
settles-Inv c draw connected s nothing k v = v
settles-Inv c draw connected s connecting k v = succeeds-Inv c s k v
settles-Inv c draw connected s (delaying e) k v = v
settles-Inv c draw delay_over s nothing k v = v
settles-Inv c draw delay_over s connecting k v = v
settles-Inv c draw delay_over s (delaying e) k v =
    if-Inv c s.delay_timer _ _ (λ t. delay_ends-Inv c e s k v) (λ t. v)
settles-Inv c draw (failed now f) s nothing k v = v
settles-Inv c draw (failed now f) s connecting k v = fails-Inv c now _ f s k v
settles-Inv c draw (failed now f) s (delaying e) k v = v
settles-Inv c draw timer_fired s nothing k v = v
settles-Inv c draw timer_fired s connecting k v = v
settles-Inv c draw timer_fired s (delaying e) k v = v
settles-Inv c draw closes s nothing k v = v
settles-Inv c draw resets s nothing k v = v
settles-Inv c draw clears_timer s nothing k v = v
settles-Inv c draw closes s connecting k v = v
settles-Inv c draw resets s connecting k v = v
settles-Inv c draw clears_timer s connecting k v = v
settles-Inv c draw closes s (delaying e) k v = v
settles-Inv c draw resets s (delaying e) k v = v
settles-Inv c draw clears_timer s (delaying e) k v = v
settles-Inv c draw session_closed s nothing k v = v
settles-Inv c draw session_closed s connecting k v = v
settles-Inv c draw session_closed s (delaying e) k v = v
settles-Inv c draw (errors f) s nothing k v = v
settles-Inv c draw (errors f) s connecting k v = v
settles-Inv c draw (errors f) s (delaying e) k v = v

step-Inv : (c : Config) (e : ℕ × Event) (s : State) → Inv c s → Inv c (step c e s).0
unfolding step
step-Inv c (draw, errors e) s v = handle-Inv c e s v
step-Inv c (draw, closes) s v = closes-Inv c s v
step-Inv c (draw, resets) s v = resets-Inv c s v
step-Inv c (draw, clears_timer) s v = clears-Inv c s v
step-Inv c (draw, timer_fired) s v =
    if-Inv c s.reconnect_timer _ _ (λ t. fires-Inv c s t v) (λ t. v)
step-Inv c (draw, session_closed) s v = session-Inv c _ s s.closing refl v
step-Inv c (draw, connected) s v = settles-Inv c draw connected s s.waiting refl v
step-Inv c (draw, delay_over) s v = settles-Inv c draw delay_over s s.waiting refl v
step-Inv c (draw, failed now e) s v = settles-Inv c draw (failed now e) s s.waiting refl v

run-Inv : (c : Config) (es : List (ℕ × Event)) (s : State) → Inv c s → Inv c (run c es s).0
unfolding run
run-Inv c [] s v = v
run-Inv c (e ∷ es) s v = run-Inv c es (step c e s).0 (step-Inv c e s v)

-- Whatever happens after the trigger has started to connect: the loop is active exactly while it
-- waits for a connection or a delay; while it is active no reconnection is planned; a reconnection
-- timer or a closing session is there only while a reconnection is planned, and never both are; the
-- timer of a delay runs only while the loop waits for it; and the attempts stay within a maximum that
-- is configured.
pub run-start-Inv : (c : Config) (es : List (ℕ × Event)) → Inv c (run c es start).0
run-start-Inv c es = run-Inv c es start (start-Inv c)
