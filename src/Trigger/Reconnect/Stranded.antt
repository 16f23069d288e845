-- ===== src/Trigger/Reconnect/Stranded.antt =====
-- What becomes of a loop that waits for its delay when the manager is closed.
use plug_node.Base.{
  ℕ, ◌≡◌, refl, sym, subst, Bool, true, false, not, ◌||◌, Option, none, some, List, [], ◌∷◌, arith,
  if◌then◌else◌,
}
use plug_node.Trigger.Reconnect.{
  Config, Failure, delaying, State, Turn, handle_runtime_error, schedule_reconnect, Event,
  connected, delay_over, timer_fired, closes, session_closed, resets, clears_timer, failed, errors,
  connect_settles, session_settles, step, run, mark_closed, reset_attempts, clear_reconnect_timer,
  attempts_used, is_retryable,
}
use plug_node.Trigger.Reconnect.Closed.{IsShut, mark_closed-IsShut, step-IsQuiet}

module _ (e : Failure) where
  abbrev Keeps : State → Type 0
  Keeps s = (s.waiting ≡ delaying e) × (s.connect_loop_active ≡ true)

  if-Keeps :
      (b : Bool) (x y : Turn)
      → (b ≡ true → Keeps x.0)
      → (b ≡ false → Keeps y.0)
      → Keeps (if b then x else y).0
  if-Keeps true x y p q = p refl
  if-Keeps false x y p q = q refl

  settles-Keeps :
      (c : Config) (draw : ℕ) (event : Event) (s : State)
      → s.delay_timer ≡ false
      → Keeps s
      → Keeps (connect_settles c draw event (delaying e) s).0
  unfolding connect_settles
  settles-Keeps c draw connected s d k = k
  settles-Keeps c draw delay_over s d k =
      if-Keeps s.delay_timer _ _ (λ t. absurd (ground (arith, d, t))) (λ t. k)
  settles-Keeps c draw (failed now f) s d k = k
  settles-Keeps c draw timer_fired s d k = k
  settles-Keeps c draw closes s d k = k
  settles-Keeps c draw resets s d k = k
  settles-Keeps c draw clears_timer s d k = k
  settles-Keeps c draw session_closed s d k = k
  settles-Keeps c draw (errors f) s d k = k

  delaying-Keeps :
      (c : Config) (draw : ℕ) (event : Event) (s : State)
      → s.delay_timer ≡ false
      → Keeps s
      → Keeps (connect_settles c draw event s.waiting s).0
  delaying-Keeps c draw event s d k =
      subst (λ w. Keeps (connect_settles c draw event w s).0) (sym k.0)
        (settles-Keeps c draw event s d k)

  session-Keeps :
      (c : Config) (ms : ℕ) (o : Option Failure) (s : State)
      → Keeps s
      → Keeps (session_settles c ms o s).0
  unfolding session_settles schedule_reconnect
  session-Keeps c ms none s k = k
  session-Keeps c ms (some f) s k =
      if-Keeps (s.closed || not c.reconnect_on_disconnect || not (is_retryable f)) _ _ (λ t. k)
        (λ t. if-Keeps (attempts_used c s) _ _ (λ u. k) (λ u. k))

  step-Keeps :
      (c : Config) (event : ℕ × Event) (s : State) → IsShut s → Keeps s → Keeps (step c event s).0
  unfolding step handle_runtime_error mark_closed reset_attempts clear_reconnect_timer
  step-Keeps c (draw, errors f) s h k =
      if-Keeps (s.closed || s.reconnecting || s.connect_loop_active) _ _ (λ t. k) (λ t. k)
  step-Keeps c (draw, closes) s h k = k
  step-Keeps c (draw, resets) s h k = k
  step-Keeps c (draw, clears_timer) s h k = k
  step-Keeps c (draw, timer_fired) s h k =
      if-Keeps s.reconnect_timer _ _ (λ t. absurd (ground (arith, h.reconnect_timer, t))) (λ t. k)
  step-Keeps c (draw, session_closed) s h k = session-Keeps c _ s.closing s k
  step-Keeps c (draw, connected) s h k = delaying-Keeps c draw connected s h.delay_timer k
  step-Keeps c (draw, delay_over) s h k = delaying-Keeps c draw delay_over s h.delay_timer k
  step-Keeps c (draw, failed now f) s h k = delaying-Keeps c draw (failed now f) s h.delay_timer k

  run-Keeps :
      (c : Config) (es : List (ℕ × Event)) (s : State) → IsShut s → Keeps s → Keeps (run c es s).0
  unfolding run
  run-Keeps c [] s h k = k
  run-Keeps c (x ∷ es) s h k =
      run-Keeps c es (step c x s).0 (step-IsQuiet c x s h).0 (step-Keeps c x s h k)

-- A loop that waits for its delay when the manager is closed is never ended: its timer is cleared
-- and nothing settles the delay, so that the promise of `connectWithRetry` stays pending and the
-- loop counts as active.
pub mark_closed-delaying :
    (c : Config) (es : List (ℕ × Event)) (s : State) (e : Failure)
    → s.waiting ≡ delaying e
    → s.connect_loop_active ≡ true
    → ((run c es (mark_closed s)).0.waiting ≡ delaying e)
      × ((run c es (mark_closed s)).0.connect_loop_active ≡ true)
unfolding mark_closed
mark_closed-delaying c es s e w a = run-Keeps e c es (mark_closed s) (mark_closed-IsShut s) (w, a)
