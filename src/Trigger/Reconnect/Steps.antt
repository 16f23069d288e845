-- ===== src/Trigger/Reconnect/Steps.antt =====
-- Each operation of the manager keeps its invariant.
use plug_node.Base.{
  ℕ, ◌+◌, ◌≤◌, ◌≡◌, refl, sym, subst, ◌⊎◌, inl, inr, Bool, true, false, not, ◌&&◌, ◌||◌, Option,
  none, some, List, [], ◌∷◌, arith, Bool-cases, leb, keep_if, ◌++◌, if◌then◌else◌,
}
use plug_node.Trigger.Reconnect.{
  Config, Failure, plug, foreign, Waiting, nothing, connecting, delaying, State, Turn, start,
  attempts_used, is_retryable, handle_runtime_error, schedule_reconnect, reconnect_failed,
  loop_throws, connect_succeeds, connect_fails, delay_ends, reconnect_timer_fires, session_settles,
  mark_closed, clear_reconnect_timer, reset_attempts, record_failure, circuit_error,
  after_recording,
}

abbrev pub is_waiting : Waiting → Bool
is_waiting nothing = false
is_waiting connecting = true
is_waiting (delaying e) = true

abbrev pub is_delaying : Waiting → Bool
is_delaying nothing = false
is_delaying connecting = false
is_delaying (delaying e) = true

abbrev pub is_closing : Option Failure → Bool
is_closing none = false
is_closing (some e) = true

-- The loop is active exactly while it waits; while it is, no reconnection is planned; a timer or a
-- closing session belongs to the one reconnection; and the attempts stay within the maximum.
pub record Inv (c : Config) (s : State) : Type 0 where
  pub loop : s.connect_loop_active ≡ is_waiting s.waiting
  pub alone : (s.reconnecting && s.connect_loop_active) ≡ false
  pub timer : (s.reconnect_timer && not s.reconnecting) ≡ false
  pub session : (is_closing s.closing && not s.reconnecting) ≡ false
  pub one : (s.reconnect_timer && is_closing s.closing) ≡ false
  pub delay : (s.delay_timer && not (is_delaying s.waiting)) ≡ false
  pub attempts : (c.max_reconnect_attempts ≡ 0) ⊎ (s.reconnect_attempts ≤ c.max_reconnect_attempts)

pub start-Inv : (c : Config) → Inv c start
unfolding start
start-Inv c = ground arith

pub handle-Inv :
    (c : Config) (e : Failure) (s : State) → Inv c s → Inv c (handle_runtime_error e s).0
unfolding handle_runtime_error
handle-Inv c e s v = ground (arith, v.loop, v.alone, v.timer, v.session, v.one, v.delay, v.attempts)

pub schedule-Inv :
    (c : Config) (ms : ℕ) (e : Failure) (s : State)
    → s.closing ≡ some e
    → Inv c s
    → Inv c (schedule_reconnect c ms e (record s { closing = none })).0
unfolding schedule_reconnect
schedule-Inv c ms e s k v =
    ground (arith, k, v.loop, v.alone, v.timer, v.session, v.one, v.delay, v.attempts)

failed-Inv : (c : Config) (e : Failure) (s : State) → Inv c s → Inv c (reconnect_failed e s).0
unfolding reconnect_failed
failed-Inv c (plug r true) s v = v
failed-Inv c (plug r false) s v = handle-Inv c (plug r false) s v
failed-Inv c foreign s v = handle-Inv c (plug true false) s v

ended-Inv :
    (c : Config) (s : State)
    → s.connect_loop_active ≡ true
    → s.delay_timer ≡ false
    → Inv c s
    → Inv c (record s { connect_loop_active = false; waiting = nothing })
ended-Inv c s a d v =
    ground (arith, v.loop, v.alone, v.timer, v.session, v.one, v.delay, v.attempts)

pub if-Inv :
    (c : Config) (b : Bool) (x y : Turn)
    → (b ≡ true → Inv c x.0)
    → (b ≡ false → Inv c y.0)
    → Inv c (if b then x else y).0
if-Inv c true x y p q = p refl
if-Inv c false x y p q = q refl

times-Inv :
    (c : Config) (times : List ℕ) (s : State)
    → Inv c s
    → Inv c (record s { reconnect_failure_times = times })
times-Inv c times s v = record {
  loop = v.loop;
  alone = v.alone;
  timer = v.timer;
  session = v.session;
  one = v.one;
  delay = v.delay;
  attempts = v.attempts;
}

throws-Inv :
    (c : Config) (e : Failure) (s : State)
    → s.connect_loop_active ≡ true
    → s.delay_timer ≡ false
    → Inv c s
    → Inv c (loop_throws e s).0
unfolding loop_throws
throws-Inv c e s a d v =
    if-Inv c s.from_timer _ _ (λ t. failed-Inv c e _ (ended-Inv c s a d v))
      (λ t. ended-Inv c s a d v)

pub succeeds-Inv :
    (c : Config) (s : State) → s.waiting ≡ connecting → Inv c s → Inv c (connect_succeeds s).0
unfolding connect_succeeds reset_attempts
succeeds-Inv c s w v =
    ground (arith, w, v.loop, v.alone, v.timer, v.session, v.one, v.delay, v.attempts)

recorded-same :
    (c : Config) (now : ℕ) (s : State)
    → (times : List ℕ) × ((record_failure c now s).0 ≡ record s { reconnect_failure_times = times })
unfolding record_failure
recorded-same c now s = elim (Bool-cases (leb c.max_reconnect_failures_in_window 0)) [
  | inl e ↦ (s.reconnect_failure_times, rw (e, record_failure) refl)
  | inr e ↦ (
    keep_if (λ t. leb now (t + c.reconnect_failure_window_ms)) s.reconnect_failure_times
        ++ now ∷ [],
    rw (e, record_failure) refl,
  )
]

delay-Inv :
    (c : Config) (e : Failure) (s : State)
    → s.waiting ≡ connecting
    → attempts_used c s ≡ false
    → Inv c s
    → Inv c (record s {
      reconnect_attempts = s.reconnect_attempts + 1;
      delay_timer = true;
      waiting = delaying e;
    })
delay-Inv c e s w u v =
    ground (arith, w, u, v.loop, v.alone, v.timer, v.session, v.one, v.delay, v.attempts)

-- The loop waits for `connect()`: it is active, and no delay is planned.
connecting_facts :
    (c : Config) (s : State)
    → s.waiting ≡ connecting
    → Inv c s
    → (s.connect_loop_active ≡ true) × (s.delay_timer ≡ false)
connecting_facts c s w v = ground (arith, w, v.loop, v.delay)

after-Inv :
    (c : Config) (ms : ℕ) (e : Failure) (s : State) (r : State × Bool)
    → r.0 ≡ s
    → s.waiting ≡ connecting
    → attempts_used c s ≡ false
    → Inv c s
    → Inv c (after_recording circuit_error ms e r).0
unfolding after_recording
after-Inv c ms e s (t, opens) same w u v =
    let (a, d) = connecting_facts c s w v in
    if-Inv c opens _ _
      (λ o.
        subst (λ g. Inv c (loop_throws circuit_error g).0) (sym same)
          (throws-Inv c circuit_error s a d v))
      (λ o.
        subst
          (λ (g : State). Inv c (record g {
            reconnect_attempts = g.reconnect_attempts + 1;
            delay_timer = true;
            waiting = delaying e;
          }))
          (sym same) (delay-Inv c e s w u v))

pub fails-Inv :
    (c : Config) (now ms : ℕ) (e : Failure) (s : State)
    → s.waiting ≡ connecting
    → Inv c s
    → Inv c (connect_fails c circuit_error now ms e s).0
unfolding connect_fails
fails-Inv c now ms e s w v =
    let (a, d) = connecting_facts c s w v in
    let (times, same) = recorded-same c now s in
    if-Inv c
      (s.closed || not c.reconnect_on_disconnect || not (is_retryable e) || attempts_used c s) _ _
      (λ o. throws-Inv c e s a d v)
      (λ o.
        after-Inv c ms e (record s { reconnect_failure_times = times }) (record_failure c now s)
          same w (ground arith) (times-Inv c times s v))

slept-Inv :
    (c : Config) (e : Failure) (s : State)
    → s.waiting ≡ delaying e
    → Inv c s
    → (s.connect_loop_active ≡ true) × Inv c (record s { delay_timer = false })
slept-Inv c e s w v = (
  ground (arith, w, v.loop),
  ground (arith, w, v.loop, v.alone, v.timer, v.session, v.one, v.delay, v.attempts),
)

pub delay_ends-Inv :
    (c : Config) (e : Failure) (s : State)
    → s.waiting ≡ delaying e
    → Inv c s
    → Inv c (delay_ends e s).0
unfolding delay_ends
delay_ends-Inv c e s w v =
    let (a, slept) = slept-Inv c e s w v in
    if-Inv c s.closed _ _ (λ o. throws-Inv c e (record s { delay_timer = false }) a refl slept)
      (λ o. ground (arith, w, v.loop, v.alone, v.timer, v.session, v.one, v.delay, v.attempts))

pub fires-Inv :
    (c : Config) (s : State)
    → s.reconnect_timer ≡ true
    → Inv c s
    → Inv c (reconnect_timer_fires s).0
unfolding reconnect_timer_fires
fires-Inv c s t v =
    ground (arith, t, v.loop, v.alone, v.timer, v.session, v.one, v.delay, v.attempts)

pub closes-Inv : (c : Config) (s : State) → Inv c s → Inv c (mark_closed s)
unfolding mark_closed
closes-Inv c s v = ground (arith, v.loop, v.alone, v.timer, v.session, v.one, v.delay, v.attempts)

pub resets-Inv : (c : Config) (s : State) → Inv c s → Inv c (reset_attempts s)
unfolding reset_attempts
resets-Inv c s v = ground (arith, v.loop, v.alone, v.timer, v.session, v.one, v.delay, v.attempts)

pub clears-Inv : (c : Config) (s : State) → Inv c s → Inv c (clear_reconnect_timer s)
unfolding clear_reconnect_timer
clears-Inv c s v = ground (arith, v.loop, v.alone, v.timer, v.session, v.one, v.delay, v.attempts)

pub session-Inv :
    (c : Config) (ms : ℕ) (s : State) (o : Option Failure)
    → s.closing ≡ o
    → Inv c s
    → Inv c (session_settles c ms o s).0
unfolding session_settles
session-Inv c ms s none k v = v
session-Inv c ms s (some e) k v = schedule-Inv c ms e s k v
