-- ===== src/Decoding/Types.antt =====
-- parallelChunkDecode.ts: the state of the queue that decodes chunks in parallel and applies them in
-- the order in which they came. A task is known by a number. `nextDecode` is the first task that is
-- not taken.
use plug_node.Base.{ℕ, Bool, false, List, []}

pub record Limits : Type 0 where
  pub max_parallel : ℕ
  pub max_frames : ℕ
  pub max_bytes : ℕ

-- What `decode` does when it is called: it is undefined for ordered work, it throws, or it returns
-- a promise.
pub data Decode : Type 0 where
  no_decode decode_throws decode_promises : Decode

-- What `apply` does when it is called.
pub data Apply : Type 0 where
  apply_returns apply_throws apply_promises : Apply

pub record Task : Type 0 where
  pub id : ℕ
  pub decode : Decode
  pub apply : Apply
  pub bytes : ℕ
  pub taken : Bool
  pub ready : Bool
  pub cancelled : Bool
  pub released : Bool
  pub failed : Bool

-- `decoding` holds the tasks whose `decode` promise is pending, and `waiting_drains` counts the
-- promises of `drainOrderedWork` that are.
pub record State : Type 0 where
  pub tasks : List Task
  pub active : ℕ
  pub closed : Bool
  pub applying : Bool
  pub decoding : List ℕ
  pub waiting_drains : ℕ
  pub next_id : ℕ
  pub pending_frames : ℕ
  pub pending_bytes : ℕ
  pub peak_pending_frames : ℕ
  pub peak_pending_bytes : ℕ
  pub decodes : ℕ

pub data Effect : Type 0 where
  starts applies resolves : (id : ℕ) → Effect
  reports_failure reports_limit drained : Effect

abbrev pub Turn : Type 0
Turn = State × List Effect

unfoldable pub init : State
init = record {
  tasks = [];
  active = 0;
  closed = false;
  applying = false;
  decoding = [];
  waiting_drains = 0;
  next_id = 0;
  pending_frames = 0;
  pending_bytes = 0;
  peak_pending_frames = 0;
  peak_pending_bytes = 0;
  decodes = 0;
}
