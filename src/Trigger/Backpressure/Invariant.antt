-- ===== src/Trigger/Backpressure/Invariant.antt =====
-- The well-formedness of the backpressure queue, kept by every step.
use plug_node.Base.{
  length-erase_idx, ℕ, zero, suc, ◌+◌, ◌-◌, ◌≤◌, ◌<◌, ◌≡◌, refl, ◌⊎◌, inl, inr, true, false, List,
  [], ◌∷◌, arith, Bool-cases, some, length, length-append, get_elem?, set, erase_idx, count_if, ap,
}
use plug_node.Trigger.Backpressure.Types.{Config, Task, Run, State, Clock, on_drain, Turn, init}
use plug_node.Trigger.Backpressure.{
  drain, admit, enqueue, fulfil, fulfil_run, reject, reject_run, finish, finish_run, close, Event,
  enqueues, fulfils, rejects, finishes, closes, step, run, count_oldest, at_run_cases, at_run_cases,
}
use plug_node.Trigger.Backpressure.Started.{drain-Drained, is_open_run, open_runs}
use plug_node.Trigger.Backpressure.Offers.{
  ignored, admitted, refused, newest_dropped, oldest_dropped, oldest_replaced, enqueue-Offer,
  incoming, Quiet, dropped-Quiet, maybe_log_stats-Quiet,
}

pub record Inv (c : Config) (s : State) : Type 0 where
  -- `inflight` counts the promises whose `finally` has not run.
  pub held : s.inflight ≡ length s.runs
  pub within : s.inflight ≤ c.max_inflight_events
  pub bounded : length s.queue ≤ c.max_queue_size
  -- No task waits while there is room for it.
  pub busy : (s.queue ≡ []) ⊎ (c.max_inflight_events ≤ s.inflight)
  pub emptied : s.closed ≡ true → s.queue ≡ []
  -- While the queue is open every started task is processed, failed, or still to be counted.
  pub counted :
      s.closed ≡ false → s.started_count ≡ s.processed_count + s.failed_count + open_runs s

init-Inv : (c : Config) → Inv c init
unfolding init
init-Inv c = ground arith

-- What `drain` asks of an open state.
record Pre (c : Config) (s : State) : Type 0 where
  held : s.inflight ≡ length s.runs
  within : s.inflight ≤ c.max_inflight_events
  counted : s.started_count ≡ s.processed_count + s.failed_count + open_runs s

drain-Inv :
    (c : Config) (clock : Clock) (s : State)
    → s.closed ≡ false
    → Pre c s
    → ((s.inflight < c.max_inflight_events) × (length s.queue ≤ 1))
      ⊎ (length s.queue ≤ c.max_queue_size)
    → Inv c (drain c clock s).0
drain-Inv c clock s live p room =
    let d = drain-Drained c clock s live in
    record {
      held = d.held p.held;
      within = d.within p.within;
      bounded = grind (arith, d.shorter, d.roomy);
      busy = d.busy;
      emptied = λ shut. ground (arith, d.closed);
      counted = λ _. omega (arith, d.counted, d.processed, d.failed, p.counted);
    }

module _ (c : Config) (clock : Clock) where
  admit-Inv :
      (t : Task) (s : State)
      → s.closed ≡ false
      → Pre c s
      → ((s.inflight < c.max_inflight_events) × (s.queue ≡ []))
        ⊎ (length s.queue < c.max_queue_size)
      → Inv c (admit c clock t s).0
  unfolding admit
  admit-Inv t s live p (inl (room, none)) =
      drain-Inv c clock _ live (ground (arith, p)) (inl (room, rw none (omega arith)))
  admit-Inv t s live p (inr spare) =
      drain-Inv c clock _ live (ground (arith, p))
        (inr (omega (arith, length-append s.queue (t ∷ []))))

  Inv-Pre : (s : State) → s.closed ≡ false → Inv c s → Pre c s
  Inv-Pre s live v = record { held = v.held; within = v.within; counted = v.counted live }

  Quiet-Inv : (s : State) (r : Turn) → Quiet s r → Inv c s → Inv c r.0
  Quiet-Inv s r q v = rw q.same (ground (arith, v))

  -- The state between the two halves of a replacement has room for one task.
  replaced-Inv :
      (t old : Task) (queue : List Task) (s : State) (r : Turn)
      → s.closed ≡ false
      → s.queue ≡ old ∷ queue
      → Quiet (count_oldest (record s { queue = queue })) r
      → Inv c s
      → Inv c (admit c clock t r.0).0
  replaced-Inv t old queue s r live e q v =
      rw q.same
        (admit-Inv t _ live (ground (arith, Inv-Pre s live v)) (inr (omega (arith, ap length e))))

  enqueue-Inv : (id : ℕ) (s : State) → Inv c s → Inv c (enqueue c clock id s).0
  enqueue-Inv id s v = elim (enqueue-Offer c clock id s) [
    | ignored shut e ↦ rw e v
    | admitted live room e ↦ rw e (admit-Inv (incoming clock id) s live (Inv-Pre s live v) room)
    | refused live busy full p e ↦ rw e v
    | newest_dropped live busy full p e ↦
        rw e (Quiet-Inv _ _ (dropped-Quiet c clock _ _) (ground (arith, v)))
    | oldest_dropped live busy none p e ↦
        rw e (Quiet-Inv _ _ (dropped-Quiet c clock _ _) (ground (arith, v)))
    | oldest_replaced old queue live busy q full p e ↦
        rw e (replaced-Inv (incoming clock id) old queue s _ live q (dropped-Quiet c clock _ _) v)
  ]

open-erase_idx :
    (rs : List Run) (i : ℕ) (r : Run)
    → get_elem? rs i ≡ some r
    → r.counted ≡ true
    → count_if is_open_run (erase_idx rs i) ≡ count_if is_open_run rs
open-erase_idx [] i r e h = cc
open-erase_idx (x ∷ rs) zero r e h = ground arith
open-erase_idx (x ∷ rs) (suc i) r e h = omega (arith, open-erase_idx rs i r e h)

length-set : (rs : List Run) (i : ℕ) (r : Run) → length (set rs i r) ≡ length rs
length-set [] i r = refl
length-set (x ∷ rs) zero r = refl
length-set (x ∷ rs) (suc i) r = ap suc (length-set rs i r)

open-set :
    (rs : List Run) (i : ℕ) (r : Run)
    → get_elem? rs i ≡ some r
    → r.counted ≡ false
    → count_if is_open_run rs ≡ suc (count_if is_open_run (set rs i (record r { counted = true })))
open-set [] i r e h = cc
open-set (x ∷ rs) zero r e h = ground arith
open-set (x ∷ rs) (suc i) r e h = omega (arith, open-set rs i r e h)

module _ (c : Config) (s : State) (i : ℕ) (r : Run) (at : get_elem? s.runs i ≡ some r) where
  fulfil_run-Inv : Inv c s → Inv c (fulfil_run i r s).0
  unfolding fulfil_run
  fulfil_run-Inv v =
      ground (arith, v, length-set s.runs i (record r { counted = true }), open-set s.runs i r at)

  reject_run-Inv : Inv c s → Inv c (reject_run i r s).0
  unfolding reject_run
  reject_run-Inv v =
      ground (arith, v, length-set s.runs i (record r { counted = true }), open-set s.runs i r at)

-- A valid state but for tasks that may wait although there is room.
record Settled (c : Config) (s : State) : Type 0 where
  held : s.inflight ≡ length s.runs
  within : s.inflight ≤ c.max_inflight_events
  bounded : length s.queue ≤ c.max_queue_size
  emptied : s.closed ≡ true → s.queue ≡ []
  counted : s.closed ≡ false → s.started_count ≡ s.processed_count + s.failed_count + open_runs s

pub drain_closed :
    (c : Config) (clock : Clock) (s : State) → s.closed ≡ true → drain c clock s ≡ (s, [])
unfolding drain
drain_closed c clock s h = simp h

module _ (c : Config) (clock : Clock) where
  Settled-Inv : (s : State) → Settled c s → Inv c (drain c clock s).0
  Settled-Inv s v = elim (Bool-cases s.closed) [
    | inl shut ↦ rw (drain_closed c clock s shut) (ground (arith, v, v.emptied shut))
    | inr live ↦ drain-Inv c clock s live (ground (arith, v, v.counted live)) (inr v.bounded)
  ]

  finished-Settled :
      (s ended : State) (r : Turn) (i : ℕ) (x : Run)
      → get_elem? s.runs i ≡ some x
      → x.counted ≡ true
      → Inv c s
      → Quiet ended r
      → ended ≡ record s {
        runs = erase_idx s.runs i;
        inflight = s.inflight - 1;
        total_processing_ms = ended.total_processing_ms;
      }
      → Settled c r.0
  finished-Settled s ended r i x at done v q e =
      rw (q.same, e)
        (ground (arith, v, length-erase_idx s.runs i at, open-erase_idx s.runs i x at done))

  finish_run-Inv :
      (s : State) (i : ℕ) (x : Run)
      → get_elem? s.runs i ≡ some x
      → Inv c s
      → Inv c (finish_run c clock i x s).0
  unfolding finish_run
  finish_run-Inv s i x at v = elim (Bool-cases x.counted) [
    | inr early ↦ rw (early, finish_run) v
    | inl done ↦
        rw (done, finish_run)
          (Settled-Inv _
            (finished-Settled s _ _ i x at done v (maybe_log_stats-Quiet c clock on_drain _) refl))
  ]

  fulfil-Inv : (i : ℕ) (s : State) → Inv c s → Inv c (fulfil i s).0
  unfolding fulfil
  fulfil-Inv i s v = at_run_cases (λ r. Inv c r.0) s i _ v λ r e. fulfil_run-Inv c s i r e v

  reject-Inv : (i : ℕ) (s : State) → Inv c s → Inv c (reject i s).0
  unfolding reject
  reject-Inv i s v = at_run_cases (λ r. Inv c r.0) s i _ v λ r e. reject_run-Inv c s i r e v

  finish-Inv : (i : ℕ) (s : State) → Inv c s → Inv c (finish c clock i s).0
  unfolding finish
  finish-Inv i s v = at_run_cases (λ r. Inv c r.0) s i _ v λ r e. finish_run-Inv s i r e v

close-Inv : (c : Config) (s : State) → Inv c s → Inv c (close s)
unfolding close
close-Inv c s v = ground (arith, v)

-- Every step keeps a valid state valid: the bounds, the count of promises under way, no idle slot
-- beside a waiting task, and the tally of the started tasks.
pub step-Inv : (c : Config) (e : Clock × Event) (s : State) → Inv c s → Inv c (step c e s).0
unfolding step
step-Inv c (clock, enqueues id) s v = enqueue-Inv c clock id s v
step-Inv c (clock, fulfils i) s v = fulfil-Inv c clock i s v
step-Inv c (clock, rejects i) s v = reject-Inv c clock i s v
step-Inv c (clock, finishes i) s v = finish-Inv c clock i s v
step-Inv c (clock, closes) s v = close-Inv c s v

run-Inv : (c : Config) (es : List (Clock × Event)) (s : State) → Inv c s → Inv c (run c es s).0
unfolding run
run-Inv c [] s v = v
run-Inv c (e ∷ es) s v = run-Inv c es (step c e s).0 (step-Inv c e s v)

-- What the invariant says of an open and of a closed queue.
pub record IsValid (c : Config) (s : State) : Type 0 where
  pub held : s.inflight ≡ length s.runs
  pub within : s.inflight ≤ c.max_inflight_events
  pub bounded : length s.queue ≤ c.max_queue_size
  pub busy : (s.queue ≡ []) ⊎ (c.max_inflight_events ≤ s.inflight)
  pub emptied : (s.closed ≡ false) ⊎ (s.queue ≡ [])
  pub counted :
      (s.closed ≡ true) ⊎ (s.started_count ≡ s.processed_count + s.failed_count + open_runs s)

Inv-IsValid : (c : Config) (s : State) → Inv c s → IsValid c s
Inv-IsValid c s v = record {
  held = v.held;
  within = v.within;
  bounded = v.bounded;
  busy = v.busy;
  emptied = elim (Bool-cases s.closed) [ inl e ↦ inr (v.emptied e) | inr e ↦ inl e ];
  counted = elim (Bool-cases s.closed) [ inl e ↦ inl e | inr e ↦ inr (v.counted e) ];
}

-- After any sequence of events on a new queue: as many tasks are in flight as promises are under
-- way, and no more than allowed; no more tasks wait than the queue may hold, and none while there
-- is room in flight; a closed queue is empty; and in an open one every started task is processed,
-- failed, or still to be counted.
pub run-init-IsValid : (c : Config) (es : List (Clock × Event)) → IsValid c (run c es init).0
run-init-IsValid c es = Inv-IsValid c (run c es init).0 (run-Inv c es init (init-Inv c))
