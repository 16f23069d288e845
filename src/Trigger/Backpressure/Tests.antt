-- ===== src/Trigger/Backpressure/Tests.antt =====
-- Runs of the backpressure queue, and the theorems at one of them.
use plug_node.Base.{ℕ, ◌≡◌, refl, false, none, List, [], ◌∷◌, ◌+◌, All}
use plug_node.Trigger.Backpressure.Types.{
  Policy, fail, drop_newest, drop_oldest, Config, Clock, init, starts, drops, reports_limit,
}
use mathlib.Core.List.{Sublist}
use plug_node.Trigger.Backpressure.Invariant.{IsValid, run-init-IsValid}
use plug_node.Trigger.Backpressure.Order.{run-sublist}
use plug_node.Trigger.Backpressure.Outcome.{Outcome, enqueue-Outcome}
use plug_node.Trigger.Backpressure.Accounts.{run_accounts}
use plug_node.Trigger.Backpressure.Closed.{IsLog, close-IsLog}
use plug_node.Trigger.Backpressure.{
  Event, enqueues, fulfils, finishes, step, run, enqueue, fulfil, reject, finish, close, fulfil_run,
  reject_run, finish_run, overflow, overflow_none, replace_oldest, dropped, admit, drain,
  drain_loop, start, maybe_log_stats, get_stats, average,
}

queue_code : Unit {0}
unfolding init step run enqueue fulfil reject finish close fulfil_run reject_run finish_run overflow
    overflow_none replace_oldest dropped admit drain drain_loop start maybe_log_stats get_stats
    average
queue_code = tt

abbrev config : Policy → Config
config p = record {
  max_inflight_events = 1;
  max_queue_size = 1;
  overflow_policy = p;
  report_drop_as_error = false;
  has_on_stats = false;
  stats_log_interval_ms = none;
}

abbrev at : ℕ → Clock
at now _ = now

-- Three tasks, of which the first ends; then the queue is closed.
abbrev history : List (Clock × Event)
history =
    (at 10, enqueues 1)
    ∷ (at 11, enqueues 2)
    ∷ (at 12, enqueues 3)
    ∷ (at 20, fulfils 0)
    ∷ (at 21, finishes 0)
    ∷ []

oldest_runs :
    (run (config drop_oldest) history init).1 ≡ starts 1 ∷ drops drop_oldest 0 ∷ starts 3 ∷ []
unfolding queue_code
oldest_runs = refl

newest_runs :
    (run (config drop_newest) history init).1 ≡ starts 1 ∷ drops drop_newest 1 ∷ starts 2 ∷ []
unfolding queue_code
newest_runs = refl

fail_runs : (run (config fail) history init).1 ≡ starts 1 ∷ reports_limit ∷ starts 2 ∷ []
unfolding queue_code
fail_runs = refl

run-init-IsValid_example : IsValid (config drop_oldest) (run (config drop_oldest) history init).0
run-init-IsValid_example = run-init-IsValid (config drop_oldest) history

run-sublist_example : Sublist {A = ℕ} (1 ∷ 3 ∷ []) (1 ∷ 2 ∷ 3 ∷ [])
unfolding queue_code
run-sublist_example = run-sublist (config drop_oldest) history

run_accounts_example :
    Sublist {A = ℕ} (1 ∷ 3 ∷ []) (1 ∷ 2 ∷ 3 ∷ [])
    × (◌≡◌ {A = ℕ} (0 + (2 + 1 + 0)) 3)
    × (◌≡◌ {A = ℕ} 2 2)
    × (◌≡◌ {A = ℕ} (0 + 1) 1)
unfolding queue_code
run_accounts_example = run_accounts (config drop_oldest) history refl

close-IsLog_example : All IsLog (run (config fail) history (close init)).1
close-IsLog_example = close-IsLog (config fail) history init

enqueue-Outcome_example : Outcome (config fail) 7 init (enqueue (config fail) (at 5) 7 init)
enqueue-Outcome_example = enqueue-Outcome (config fail) (at 5) 7 init
