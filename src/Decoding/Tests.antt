-- ===== src/Decoding/Tests.antt =====
-- Runs of the decode queue, and the theorems at one of them.
use plug_node.Base.{arith, ◌≡◌, refl, true, false, List, [], ◌∷◌, ◌++◌}
use mathlib.Core.List.{Sublist}
use plug_node.Decoding.Types.{
  Limits, apply_returns, apply_promises, apply_throws, starts, applies, resolves, drained, init,
  reports_failure, reports_limit,
}
use plug_node.Decoding.{
  check_limits, release, drained_effects, finish_drains, release_all, clear_pending_decodes, fail,
  apply_loop, apply_ready, take_task, begin_decode, pump_loop, pump, new_task, enqueue,
  enqueue_ordered_work, Accumulated, reserve, enqueue_decode_then_ordered, drain_ordered_work,
  complete, release_where, cancel, drop_head, applied, Event, enqueues_work, enqueues_chunk,
  decoded, apply_settles, aborts, drains, step, run,
}
use plug_node.Decoding.Line.{applied_ids, waiting, numbers}
use plug_node.Decoding.Order.{run-ordered}
use plug_node.Decoding.Idle.{run_idle}
use plug_node.Decoding.Lossless.{enqueued, run-exact, run-refines}
use plug_node.Decoding.Bounds.{IsValid, run-IsValid-init}
use plug_node.Decoding.Lazy.{lazy_init, get_queue, lazy_step, lazy_run, lazy_run-run}

queue_code : Unit {0}
unfolding check_limits init release drained_effects finish_drains release_all clear_pending_decodes
    fail apply_loop apply_ready take_task begin_decode pump_loop pump new_task enqueue
    enqueue_ordered_work reserve enqueue_decode_then_ordered drain_ordered_work complete
    release_where cancel drop_head applied step run lazy_init get_queue lazy_step lazy_run
queue_code = tt

abbrev limits : Limits
limits = record { max_parallel = 2; max_frames = 3; max_bytes = 100 }

abbrev nothing : Accumulated
nothing = record { frames = 0; bytes = 0 }

-- Three chunks, of which two decode at once; the second is decoded first.
abbrev history : List Event
history =
    enqueues_chunk nothing false apply_returns 10
    ∷ enqueues_chunk nothing false apply_promises 10
    ∷ enqueues_chunk nothing false apply_returns 10
    ∷ drains
    ∷ decoded 1 false
    ∷ decoded 0 false
    ∷ decoded 0 false
    ∷ apply_settles false
    ∷ []

limits_checked : check_limits limits ≡ true
unfolding queue_code
limits_checked = refl

history_runs :
    (run limits history init).1
    ≡ starts 0
      ∷ starts 1
      ∷ starts 2
      ∷ applies 0
      ∷ resolves 0
      ∷ applies 1
      ∷ resolves 1
      ∷ applies 2
      ∷ resolves 2
      ∷ drained
      ∷ []
unfolding queue_code
history_runs = refl

over_limit_runs :
    (run limits (enqueues_chunk nothing false apply_returns 101 ∷ drains ∷ []) init).1
    ≡ reports_limit ∷ drained ∷ []
unfolding queue_code
over_limit_runs = refl

-- An aborted chunk is passed over, and the first failure ends the queue.
abbrev failures : List Event
failures =
    enqueues_chunk nothing false apply_returns 10
    ∷ enqueues_chunk nothing false apply_throws 10
    ∷ enqueues_work apply_returns
    ∷ decoded 1 false
    ∷ aborts 0
    ∷ []

failing_runs :
    (run limits failures init).1
    ≡ starts 0 ∷ starts 1 ∷ resolves 0 ∷ applies 1 ∷ resolves 1 ∷ resolves 2 ∷ reports_failure ∷ []
unfolding queue_code
failing_runs = refl

run-ordered_example :
    Sublist
      (applied_ids (run limits history init).1 ++ waiting (run limits history init).0)
      (numbers 0 (run limits history init).0.next_id)
run-ordered_example = run-ordered limits history

run-IsValid-init_example : IsValid limits (run limits history init).0
run-IsValid-init_example = run-IsValid-init limits history

lazy_run-run_example :
    (lazy_run limits (drains ∷ history) lazy_init).1 ≡ (run limits (drains ∷ history) init).1
lazy_run-run_example = lazy_run-run limits (drains ∷ history)

history_open : (run limits history init).0.closed ≡ false
unfolding queue_code
history_open = refl

history_decoded : (run limits history init).0.decoding ≡ []
unfolding queue_code
history_decoded = refl

history_applied : (run limits history init).0.applying ≡ false
unfolding queue_code
history_applied = refl

run_idle_example : (run limits history init).0.tasks ≡ []
run_idle_example =
    run_idle limits history (omega arith) history_open history_decoded history_applied

run-exact_example :
    applied_ids (run limits history init).1 ++ waiting (run limits history init).0
    ≡ numbers 0 (enqueued history)
run-exact_example = run-exact limits history refl history_open

run-refines_example : applied_ids (run limits history init).1 ≡ numbers 0 (enqueued history)
run-refines_example =
    run-refines limits history (omega arith) refl history_open history_decoded history_applied
