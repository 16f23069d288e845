-- ===== src/Trigger/Backpressure/Closed.antt =====
-- What the backpressure queue still does after `close`.
use plug_node.Base.{
  ◌≡◌, ◌∙◌, inl, inr, refl, ap, true, List, [], ◌∷◌, All, All-append, arith, Bool-cases,
}
use plug_node.Trigger.Backpressure.Types.{Config, State, Clock, Reason, on_drain, Effect, logs}
use plug_node.Trigger.Backpressure.{
  ◌>>=◌, drain, enqueue, fulfil, fulfil_run, reject, reject_run, finish, finish_run, close, Event,
  enqueues, fulfils, rejects, finishes, closes, step, run, maybe_log_stats, at_run_cases,
}
use plug_node.Trigger.Backpressure.Offers.{maybe_log_stats-Quiet}
use plug_node.Trigger.Backpressure.Invariant.{drain_closed}
use plug_node.Trigger.Backpressure.Accounts.{step_closed}

abbrev pub IsLog : Effect → Type 0
IsLog (logs _ _) = Unit
IsLog _ = ⊥

maybe_log_stats-IsLog :
    (c : Config) (clock : Clock) (reason : Reason) (s : State)
    → All IsLog (maybe_log_stats c clock reason s).1
unfolding maybe_log_stats
maybe_log_stats-IsLog c clock reason s = ground arith

-- Logging from a closed state and draining after it adds at most the log.
closed_drain-IsLog :
    (c : Config) (clock : Clock) (s : State)
    → s.closed ≡ true
    → All IsLog (maybe_log_stats c clock on_drain s >>= drain c clock).1
closed_drain-IsLog c clock s h =
    let q = maybe_log_stats-Quiet c clock on_drain s in
    let m = maybe_log_stats c clock on_drain s in
    All-append IsLog m.1 (drain c clock m.0).1 (maybe_log_stats-IsLog c clock on_drain s)
      (rw (drain_closed c clock m.0 (ap (λ (t : State). t.closed) q.same ∙ h)) tt)

closed_step-IsLog :
    (c : Config) (e : Clock × Event) (s : State) → s.closed ≡ true → All IsLog (step c e s).1
unfolding step enqueue fulfil fulfil_run reject reject_run finish finish_run close
closed_step-IsLog c (clock, enqueues id) s h = simp h tt
closed_step-IsLog c (clock, fulfils i) s h =
    at_run_cases (λ r. All IsLog r.1) s i _ tt λ x e. ground arith
closed_step-IsLog c (clock, rejects i) s h =
    at_run_cases (λ r. All IsLog r.1) s i _ tt λ x e. ground arith
closed_step-IsLog c (clock, finishes i) s h =
    at_run_cases (λ r. All IsLog r.1) s i _ tt
      λ x e. elim (Bool-cases x.counted) [
        | inr early ↦ rw (early, finish_run) tt
        | inl done ↦ rw (done, finish_run) (closed_drain-IsLog c clock _ h)
      ]
closed_step-IsLog c (clock, closes) s h = tt

closed_run-IsLog :
    (c : Config) (es : List (Clock × Event)) (s : State)
    → s.closed ≡ true
    → All IsLog (run c es s).1
unfolding run
closed_run-IsLog c [] s h = tt
closed_run-IsLog c (e ∷ es) s h =
    All-append IsLog (step c e s).1 (run c es (step c e s).0).1 (closed_step-IsLog c e s h)
      (closed_run-IsLog c es (step c e s).0 (step_closed c e s h))

-- After `close` nothing is started, dropped or reported any more, whatever the promises under way
-- and the socket do: the queue at most logs its statistics.
pub close-IsLog :
    (c : Config) (es : List (Clock × Event)) (s : State) → All IsLog (run c es (close s)).1
unfolding close
close-IsLog c es s = closed_run-IsLog c es (close s) refl
