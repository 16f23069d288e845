-- ===== src/Trigger/Backpressure/Order.antt =====
-- Which tasks the queue starts, in which order, and what becomes of every task that is offered.
use mathlib.Core.List.{Sublist, sublist-append_left, sublist-append_right}
use mathlib.Core.List.Sublist
use plug_node.Base.{
  ℕ, ◌+◌, ◌≡◌, refl, ap, subst, inl, inr, List, [], ◌∷◌, ◌++◌, arith, Bool-cases, append_assoc,
  append-nil, map-append, ◌∙◌,
}
use plug_node.Trigger.Backpressure.Types.{
  Config, Task, State, Clock, on_drain, Effect, starts, reports_limit, Turn, init, drop_newest,
  drop_oldest,
}
use plug_node.Trigger.Backpressure.{
  ◌>>=◌, drain, admit, enqueue, fulfil, fulfil_run, reject, reject_run, finish, finish_run, close,
  Event, enqueues, fulfils, rejects, finishes, closes, step, run, count_oldest, count_newest,
  at_run_cases,
}
use plug_node.Trigger.Backpressure.Started.{drain-Drained, started, refusals, ids}
use plug_node.Trigger.Backpressure.Offers.{
  ignored, admitted, refused, newest_dropped, oldest_dropped, oldest_replaced, enqueue-Offer,
  incoming, Quiet, dropped-Quiet, maybe_log_stats-Quiet,
}
use plug_node.Trigger.Backpressure.Invariant.{drain_closed}

-- The tasks that a turn has started, and behind them those that wait.
abbrev pub line : Turn → List ℕ
line r = started r.1 ++ ids r.0.queue

-- The tasks that events offer, in order.
abbrev pub offered : List (Clock × Event) → List ℕ
offered [] = []
offered ((_, enqueues id) ∷ es) = id ∷ offered es
offered (_ ∷ es) = offered es

pub started-append : (es fs : List Effect) → started (es ++ fs) ≡ started es ++ started fs
started-append [] fs = refl
started-append (starts id ∷ es) fs = ap (◌∷◌ id) (started-append es fs)
started-append (_ ∷ es) fs = started-append es fs

pub refusals-append : (es fs : List Effect) → refusals (es ++ fs) ≡ refusals es + refusals fs
refusals-append [] fs = omega arith
refusals-append (reports_limit ∷ es) fs = omega (arith, refusals-append es fs)
refusals-append (_ ∷ es) fs = refusals-append es fs

drain-line : (c : Config) (clock : Clock) (s : State) → line (drain c clock s) ≡ ids s.queue
drain-line c clock s = elim (Bool-cases s.closed) [
  | inl shut ↦ rw (drain_closed c clock s shut) refl
  | inr live ↦ (drain-Drained c clock s live).order
]

pub admit-line :
    (c : Config) (clock : Clock) (t : Task) (s : State)
    → line (admit c clock t s) ≡ ids s.queue ++ t.id ∷ []
unfolding admit
admit-line c clock t s = drain-line c clock _ ∙ map-append _ s.queue (t ∷ [])

-- A quiet turn before another adds nothing to the line.
pub Quiet-line :
    (s : State) (m : Turn) (f : State → Turn) → Quiet s m → line (m >>= f) ≡ line (f m.0)
Quiet-line s m f q =
    ap (λ es. es ++ ids (f m.0).0.queue)
      (started-append m.1 (f m.0).1 ∙ ap (λ es. es ++ started (f m.0).1) q.nothing)

Quiet-queue : (s : State) (r : Turn) → Quiet s r → line r ≡ ids s.queue
Quiet-queue s r q = rw q.nothing (ap (λ (t : State). ids t.queue) q.same)

enqueue-line :
    (c : Config) (clock : Clock) (id : ℕ) (s : State)
    → Sublist (line (enqueue c clock id s)) (ids s.queue ++ id ∷ [])
enqueue-line c clock id s = elim (enqueue-Offer c clock id s) [
  | ignored shut e ↦ rw e (sublist-append_left _ _)
  | admitted live room e ↦ rw (e, admit-line c clock (incoming clock id) s) (Sublist.refl _)
  | refused live busy full p e ↦ rw e (sublist-append_left _ _)
  | newest_dropped live busy full p e ↦
      rw (e, Quiet-queue _ _ (dropped-Quiet c clock drop_newest (count_newest s)))
        (sublist-append_left _ _)
  | oldest_dropped live busy none p e ↦
      rw (e, Quiet-queue _ _ (dropped-Quiet c clock drop_oldest (count_oldest s)))
        (sublist-append_left _ _)
  | oldest_replaced old queue live busy q full p e ↦
      let d = dropped-Quiet c clock drop_oldest (count_oldest (record s { queue = queue })) in
      rw e (
        rw (Quiet-line _ _ _ d, admit-line c clock (incoming clock id) _)
          (rw (ap (λ (t : State). ids t.queue) d.same)
            (rw q (Sublist.cons old.id (Sublist.refl _)))))
]

Quiet-drain-line :
    (c : Config) (clock : Clock) (s : State) (m : Turn)
    → Quiet s m
    → line (m >>= drain c clock) ≡ ids s.queue
Quiet-drain-line c clock s m q =
    Quiet-line s m (drain c clock) q
    ∙ drain-line c clock m.0
    ∙ ap (λ (t : State). ids t.queue) q.same

finish-line :
    (c : Config) (clock : Clock) (i : ℕ) (s : State) → line (finish c clock i s) ≡ ids s.queue
unfolding finish finish_run
finish-line c clock i s =
    at_run_cases (λ r. line r ≡ ids s.queue) s i _ refl
      λ x e. elim (Bool-cases x.counted) [
        | inr early ↦ rw (early, finish_run) refl
        | inl done ↦
            rw (done, finish_run)
              (Quiet-drain-line c clock _ _ (maybe_log_stats-Quiet c clock on_drain _))
      ]

fulfil-line : (i : ℕ) (s : State) → line (fulfil i s) ≡ ids s.queue
unfolding fulfil fulfil_run
fulfil-line i s = at_run_cases (λ r. line r ≡ ids s.queue) s i _ refl λ x e. ground arith

reject-line : (i : ℕ) (s : State) → line (reject i s) ≡ ids s.queue
unfolding reject reject_run
reject-line i s = at_run_cases (λ r. line r ≡ ids s.queue) s i _ refl λ x e. ground arith

step-line :
    (c : Config) (e : Clock × Event) (es : List (Clock × Event)) (s : State)
    → Sublist (line (step c e s) ++ offered es) (ids s.queue ++ offered (e ∷ es))
unfolding step close
step-line c (clock, enqueues id) es s =
    subst (Sublist _) (append_assoc (ids s.queue) (id ∷ []) (offered es))
      (Sublist.append (enqueue-line c clock id s) (Sublist.refl (offered es)))
step-line c (clock, fulfils i) es s = rw (fulfil-line i s) (Sublist.refl _)
step-line c (clock, rejects i) es s = rw (reject-line i s) (Sublist.refl _)
step-line c (clock, finishes i) es s = rw (finish-line c clock i s) (Sublist.refl _)
step-line c (clock, closes) es s = sublist-append_right _ _

run-line :
    (c : Config) (es : List (Clock × Event)) (s : State)
    → Sublist (line (run c es s)) (ids s.queue ++ offered es)
unfolding run
run-line c [] s = rw append-nil (Sublist.refl _)
run-line c (e ∷ es) s =
    let m = step c e s in
    let r = run c es m.0 in
    rw (started-append m.1 r.1, append_assoc (started m.1) (started r.1) (ids r.0.queue))
      (Sublist.trans (Sublist.append (Sublist.refl (started m.1)) (run-line c es m.0))
        (rw (← append_assoc (started m.1) (ids m.0.queue) (offered es)) (step-line c e es s)))

-- From a new queue, the tasks started and, behind them, the tasks that wait are a sublist of the
-- offered tasks: they start in the order in which they were offered, each offer at most once.
pub run-sublist :
    (c : Config) (es : List (Clock × Event))
    → Sublist (started (run c es init).1 ++ ids (run c es init).0.queue) (offered es)
unfolding init
run-sublist c es = run-line c es init
