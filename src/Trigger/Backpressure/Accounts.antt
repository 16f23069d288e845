-- ===== src/Trigger/Backpressure/Accounts.antt =====
-- Where every offered task ends, and what the queue still does after `close`.
use plug_node.Base.{
  erase_idx, ◌-◌, sym, ℕ, ◌+◌, ◌≡◌, ◌∙◌, inl, inr, refl, ap, true, false, List, [], ◌∷◌, ◌++◌,
  arith, Bool-cases, length, length-append, length-map,
}
use plug_node.Trigger.Backpressure.Types.{
  Effect, Policy, settling, Config, Task, State, Clock, on_drain, drop_newest, drop_oldest, Turn,
  init,
}
use mathlib.Core.List.{Sublist}
use plug_node.Trigger.Backpressure.{
  maybe_log_stats, dropped, ◌>>=◌, drain, admit, enqueue, fulfil, fulfil_run, reject, reject_run,
  finish, finish_run, close, Event, enqueues, fulfils, rejects, finishes, closes, step, run,
  count_oldest, count_newest, at_run_cases,
}
use plug_node.Trigger.Backpressure.Started.{
  drain-Drained, started, refusals, ids, drops_of, drops_of-append,
}
use plug_node.Trigger.Backpressure.Offers.{
  ignored, admitted, refused, newest_dropped, oldest_dropped, oldest_replaced, enqueue-Offer,
  incoming, Quiet, dropped-Quiet, maybe_log_stats-Quiet, dropped-drops, maybe_log_stats-drops,
}
use plug_node.Trigger.Backpressure.Invariant.{drain_closed}
use plug_node.Trigger.Backpressure.Order.{offered, refusals-append, started-append, run-sublist}

-- The tasks that a state counts as dropped.
abbrev losses : State → ℕ
losses s = s.dropped_newest_count + s.dropped_oldest_count

-- The tasks that effects start, drop or refuse.
abbrev ends : List Effect → ℕ
ends es = length (started es) + length (drops_of es) + refusals es

-- A turn that takes in `n` more tasks: each waits, is started, is dropped or is refused; the counters
-- tell how many, and an open queue stays open.
record Takes (n : ℕ) (s : State) (r : Turn) : Type 0 where
  total : length r.0.queue + ends r.1 ≡ length s.queue + n
  begun : r.0.started_count ≡ s.started_count + length (started r.1)
  lost : losses r.0 ≡ losses s + length (drops_of r.1)
  closed : r.0.closed ≡ s.closed

-- A turn without effects that keeps what is counted.
still-Takes : (s : State) → Takes 0 s (s, [])
still-Takes s = record {
  total = omega arith;
  begun = omega arith;
  lost = omega arith;
  closed = refl;
}

drain-Takes : (c : Config) (clock : Clock) (s : State) → Takes 0 s (drain c clock s)
drain-Takes c clock s = elim (Bool-cases s.closed) [
  | inl shut ↦ rw (drain_closed c clock s shut) (still-Takes s)
  | inr live ↦
      let d = drain-Drained c clock s live in
      let r = drain c clock s in
      record {
        total = omega (
          arith,
          ap length d.order,
          length-append (started r.1) (ids r.0.queue),
          length-map r.0.queue (λ t. t.id),
          length-map s.queue (λ t. t.id),
          d.granted,
          ap length d.kept,
        );
        begun = d.begun;
        lost = omega (arith, d.newest, d.oldest, ap length d.kept);
        closed = d.closed;
      }
]

Quiet-Takes : (s : State) (r : Turn) → drops_of r.1 ≡ [] → Quiet s r → Takes 0 s r
Quiet-Takes s r none_dropped q =
    let e = ap length none_dropped in
    record {
      total =
          omega
            (arith, e, q.refused, ap length q.nothing, ap (λ (t : State). length t.queue) q.same);
      begun = omega (arith, ap length q.nothing, ap (λ (t : State). t.started_count) q.same);
      lost = omega (arith, e, ap losses q.same);
      closed = ap (λ (t : State). t.closed) q.same;
    }

>>=-Takes :
    (n k : ℕ) (s : State) (m : Turn) (f : State → Turn)
    → Takes n s m
    → Takes k m.0 (f m.0)
    → Takes (n + k) s (m >>= f)
>>=-Takes n k s m f p q =
    let starts_both =
      ap length (started-append m.1 (f m.0).1) ∙ length-append (started m.1) (started (f m.0).1) in
    let drops_both =
      ap length (drops_of-append m.1 (f m.0).1)
      ∙ length-append (drops_of m.1) (drops_of (f m.0).1) in
    record {
      total =
          omega (arith, p.total, q.total, refusals-append m.1 (f m.0).1, starts_both, drops_both);
      begun = omega (arith, p.begun, q.begun, starts_both);
      lost = omega (arith, p.lost, q.lost, drops_both);
      closed = q.closed ∙ p.closed;
    }

admit-Takes : (c : Config) (clock : Clock) (t : Task) (s : State) → Takes 1 s (admit c clock t s)
unfolding admit
admit-Takes c clock t s =
    let d = drain-Takes c clock (record s { queue = s.queue ++ t ∷ [] }) in
    record {
      total = omega (arith, d.total, length-append s.queue (t ∷ []));
      begun = d.begun;
      lost = d.lost;
      closed = d.closed;
    }

-- A task that the policy drops: the state that reports it is `k` tasks shorter, and counts it.
dropped-Takes :
    (c : Config) (clock : Clock) (policy : Policy) (n : ℕ) (s t : State)
    → length t.queue + 1 ≡ length s.queue + n
    → t.started_count ≡ s.started_count
    → losses t ≡ losses s + 1
    → t.closed ≡ s.closed
    → Takes n s (dropped c clock policy t)
dropped-Takes c clock policy n s t fewer same counted shut =
    let q = dropped-Quiet c clock policy t in
    let r = dropped c clock policy t in
    let one = ap length (dropped-drops c clock policy t) in
    record {
      total = omega (
        arith,
        one,
        fewer,
        q.refused,
        ap length q.nothing,
        ap (λ (t : State). length t.queue) q.same,
      );
      begun = omega (arith, same, ap length q.nothing, ap (λ (t : State). t.started_count) q.same);
      lost = omega (arith, one, counted, ap losses q.same);
      closed = ap (λ (t : State). t.closed) q.same ∙ shut;
    }

enqueue-Takes :
    (c : Config) (clock : Clock) (id : ℕ) (s : State)
    → s.closed ≡ false
    → Takes 1 s (enqueue c clock id s)
enqueue-Takes c clock id s live = elim (enqueue-Offer c clock id s) [
  | ignored shut e ↦ absurd (ground arith)
  | admitted _ room e ↦ rw e (admit-Takes c clock (incoming clock id) s)
  | refused _ busy full p e ↦
      rw e (record { total = omega arith; begun = omega arith; lost = omega arith; closed = refl })
  | newest_dropped _ busy full p e ↦
      rw e (
        dropped-Takes c clock drop_newest 1 s (count_newest s) (omega arith) refl (omega arith)
          refl)
  | oldest_dropped _ busy none p e ↦
      rw e (
        dropped-Takes c clock drop_oldest 1 s (count_oldest s) (omega arith) refl (omega arith)
          refl)
  | oldest_replaced old queue _ busy q full p e ↦
      let t = count_oldest (record s { queue = queue }) in
      rw e (
        >>=-Takes 0 1 s (dropped c clock drop_oldest t) (admit c clock (incoming clock id))
          (dropped-Takes c clock drop_oldest 0 s t (omega (arith, ap length q)) refl (omega arith)
            refl)
          (admit-Takes c clock (incoming clock id) _))
]

-- A state that takes as many tasks, has its statistics logged, and drains.
ended-Takes :
    (c : Config) (clock : Clock) (s t : State)
    → t.queue ≡ s.queue
    → t.started_count ≡ s.started_count
    → losses t ≡ losses s
    → t.closed ≡ s.closed
    → Takes 0 s (maybe_log_stats c clock on_drain t >>= drain c clock)
ended-Takes c clock s t same begun lost shut =
    let p =
      >>=-Takes 0 0 t (maybe_log_stats c clock on_drain t) (drain c clock)
        (Quiet-Takes t _ (maybe_log_stats-drops c clock on_drain t)
          (maybe_log_stats-Quiet c clock on_drain t))
        (drain-Takes c clock _) in
    record {
      total = omega (arith, p.total, ap length same);
      begun = omega (arith, p.begun, begun);
      lost = omega (arith, p.lost, lost);
      closed = p.closed ∙ shut;
    }

finish-Takes : (c : Config) (clock : Clock) (i : ℕ) (s : State) → Takes 0 s (finish c clock i s)
unfolding finish finish_run
finish-Takes c clock i s = at_run_cases (Takes 0 s) s i _ (still-Takes s) λ x e.
    elim (Bool-cases x.counted) [
      | inr early ↦ rw (early, finish_run) (still-Takes s)
      | inl done ↦
          rw (done, finish_run)
            (ended-Takes c clock s
              (record s {
                runs = erase_idx s.runs i;
                inflight = s.inflight - 1;
                total_processing_ms = s.total_processing_ms + (clock settling - x.started_at_ms);
              })
              refl refl refl refl)
    ]

fulfil-Takes : (i : ℕ) (s : State) → Takes 0 s (fulfil i s)
unfolding fulfil fulfil_run
fulfil-Takes i s = at_run_cases (Takes 0 s) s i _ (still-Takes s) λ x e. ground arith

reject-Takes : (i : ℕ) (s : State) → Takes 0 s (reject i s)
unfolding reject reject_run
reject-Takes i s = at_run_cases (Takes 0 s) s i _ (still-Takes s) λ x e. ground arith

-- The number of offers in one event.
abbrev offers : Clock × Event → ℕ
offers e = length (offered (e ∷ []))

enqueue_open :
    (c : Config) (clock : Clock) (id : ℕ) (s : State)
    → (enqueue c clock id s).0.closed ≡ false
    → s.closed ≡ false
enqueue_open c clock id s h = elim (enqueue-Offer c clock id s) [
  | ignored shut e ↦ ap (λ (r : Turn). r.0.closed) (sym e) ∙ h
  | admitted live room e ↦ live
  | refused live busy full p e ↦ live
  | newest_dropped live busy full p e ↦ live
  | oldest_dropped live busy none p e ↦ live
  | oldest_replaced old queue live busy q full p e ↦ live
]

step-Takes :
    (c : Config) (e : Clock × Event) (s : State)
    → (step c e s).0.closed ≡ false
    → Takes (offers e) s (step c e s)
unfolding step close
step-Takes c (clock, enqueues id) s h = enqueue-Takes c clock id s (enqueue_open c clock id s h)
step-Takes c (clock, fulfils i) s h = fulfil-Takes i s
step-Takes c (clock, rejects i) s h = reject-Takes i s
step-Takes c (clock, finishes i) s h = finish-Takes c clock i s
step-Takes c (clock, closes) s h = absurd (ground arith)

-- `close` is for ever.
pub step_closed :
    (c : Config) (e : Clock × Event) (s : State) → s.closed ≡ true → (step c e s).0.closed ≡ true
unfolding step close
step_closed c (clock, enqueues id) s h = elim (Bool-cases (enqueue c clock id s).0.closed) [
  | inl shut ↦ shut
  | inr live ↦ absurd (ground (arith, enqueue_open c clock id s live))
]
step_closed c (clock, fulfils i) s h = (fulfil-Takes i s).closed ∙ h
step_closed c (clock, rejects i) s h = (reject-Takes i s).closed ∙ h
step_closed c (clock, finishes i) s h = (finish-Takes c clock i s).closed ∙ h
step_closed c (clock, closes) s h = refl

run_closed :
    (c : Config) (es : List (Clock × Event)) (s : State)
    → s.closed ≡ true
    → (run c es s).0.closed ≡ true
unfolding run
run_closed c [] s h = h
run_closed c (e ∷ es) s h = run_closed c es (step c e s).0 (step_closed c e s h)

length-offered :
    (e : Clock × Event) (es : List (Clock × Event))
    → length (offered (e ∷ es)) ≡ offers e + length (offered es)
length-offered (clock, enqueues id) es = omega arith
length-offered (clock, fulfils i) es = omega arith
length-offered (clock, rejects i) es = omega arith
length-offered (clock, finishes i) es = omega arith
length-offered (clock, closes) es = omega arith

run-Takes :
    (c : Config) (es : List (Clock × Event)) (s : State)
    → (run c es s).0.closed ≡ false
    → Takes (length (offered es)) s (run c es s)
unfolding run
run-Takes c [] s h = still-Takes s
run-Takes c (e ∷ es) s h = elim (Bool-cases (step c e s).0.closed) [
  | inl shut ↦ absurd (ground (arith, run_closed c es (step c e s).0 shut))
  | inr live ↦
      let m = step c e s in
      let p =
        >>=-Takes (offers e) (length (offered es)) s m (run c es) (step-Takes c e s live)
          (run-Takes c es m.0 h) in
      record {
        total = omega (arith, p.total, length-offered e es);
        begun = p.begun;
        lost = p.lost;
        closed = p.closed;
      }
]

-- As long as the queue is open, those of the offered tasks that were started and, behind them, those
-- that wait stand in the order of the offers, each offer at most once; with the calls of `onDrop` and
-- the refusals with the limit error, they are as many as the offers; and the counters of the started
-- and of the dropped tasks count what was started and dropped.
pub run_accounts :
    (c : Config) (es : List (Clock × Event))
    → (run c es init).0.closed ≡ false
    → Sublist (started (run c es init).1 ++ ids (run c es init).0.queue) (offered es)
      × (length (run c es init).0.queue
            + (length (started (run c es init).1)
                + length (drops_of (run c es init).1)
                + refusals (run c es init).1)
          ≡ length (offered es))
      × ((run c es init).0.started_count ≡ length (started (run c es init).1))
      × ((run c es init).0.dropped_newest_count + (run c es init).0.dropped_oldest_count
          ≡ length (drops_of (run c es init).1))
unfolding init
run_accounts c es h =
    let p = run-Takes c es init h in
    (run-sublist c es, omega (arith, p.total), omega (arith, p.begun), omega (arith, p.lost))
