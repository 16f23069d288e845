-- ===== src/Trigger/Backpressure/Types.antt =====
-- triggerBackpressureQueue.ts: the state of the queue. A task is known by a number; what the queue
-- does to the outside is a list of effects. The promise that a task returned is a `Run` until its
-- `finally` has run, so that the parts of several promise chains can interleave.
use plug_node.Base.{ℕ, Bool, false, Option, List, []}

pub data Policy : Type 0 where
  fail drop_newest drop_oldest : Policy

pub record Config : Type 0 where
  pub max_inflight_events : ℕ
  pub max_queue_size : ℕ
  pub overflow_policy : Policy
  pub report_drop_as_error : Bool
  pub has_on_stats : Bool
  pub stats_log_interval_ms : Option ℕ

pub record Task : Type 0 where
  pub id : ℕ
  pub enqueued_at_ms : ℕ

-- A promise on its way: `counted` once its `then` or `catch` has run and only `finally` is left.
pub record Run : Type 0 where
  pub id : ℕ
  pub started_at_ms : ℕ
  pub counted : Bool

pub record State : Type 0 where
  pub queue : List Task
  pub runs : List Run
  pub inflight : ℕ
  pub closed : Bool
  pub started_count : ℕ
  pub processed_count : ℕ
  pub failed_count : ℕ
  pub dropped_newest_count : ℕ
  pub dropped_oldest_count : ℕ
  pub total_queue_latency_ms : ℕ
  pub total_processing_ms : ℕ
  pub last_stats_logged_at_ms : ℕ

-- The places where `Date.now()` is read; a clock gives the value that is read there.
pub data Reading : Type 0 where
  enqueuing settling logging : Reading
  starting : ℕ → Reading

abbrev pub Clock : Type 0
Clock = Reading → ℕ

pub data Reason : Type 0 where
  on_drop on_drain : Reason

pub record Snapshot : Type 0 where
  pub queued_count : ℕ
  pub inflight_count : ℕ
  pub started_count : ℕ
  pub processed_count : ℕ
  pub failed_count : ℕ
  pub dropped_newest_count : ℕ
  pub dropped_oldest_count : ℕ
  pub average_queue_latency_ms : ℕ
  pub average_processing_ms : ℕ

pub data Effect : Type 0 where
  starts : (id : ℕ) → Effect
  drops : Policy → (queue_size : ℕ) → Effect
  reports_drop : Policy → (queue_size : ℕ) → Effect
  reports_limit : Effect
  reports_failure : (id : ℕ) → Effect
  logs : Snapshot → Reason → Effect

abbrev pub Turn : Type 0
Turn = State × List Effect

unfoldable pub init : State
init = record {
  queue = [];
  runs = [];
  inflight = 0;
  closed = false;
  started_count = 0;
  processed_count = 0;
  failed_count = 0;
  dropped_newest_count = 0;
  dropped_oldest_count = 0;
  total_queue_latency_ms = 0;
  total_processing_ms = 0;
  last_stats_logged_at_ms = 0;
}
