-- ===== src/Retry/Policy.antt =====
-- plugTransientRetry.ts: the decision to try again, and the delay before the next attempt.
pub mod Laws
use Prim.Native.String.{String}
use text.Mathlib.Text.{◌==◌ as str_eq}
use plug_node.Base.{
  ℕ, suc, ◌+◌, ◌*◌, ◌^◌, min, Bool, true, false, not, ◌&&◌, ◌||◌, Option, none, some, List, [], ◌∷◌,
  ltb, leb, if◌then◌else◌,
}
use plug_node.Values.Number.{
  Number, nan, infinity, neg_infinity, fraction, negative, ceil, is_minus,
}
use plug_node.Values.Json.{Json, str, num, bool, obj, Fields, get}

-- `PlugOperation`
pub data Operation : Type 0 where
  validate_context execute_sql execute_batch bulk_insert_sql cancel_sql discover_rpc : Operation
  get_agent_profile get_client_token_policy : Operation

pub data RetryKind : Type 0 where
  sql metadata : RetryKind

pub data Channel : Type 0 where
  rest socket : Channel

-- Which of the classes of contracts/errors.ts an error is made by.
pub data ErrorClass : Type 0 where
  plain validation timeout : ErrorClass

pub record PlugError : Type 0 where
  pub class : ErrorClass
  pub code : String
  pub status_code : Option ℕ
  pub retryable : Bool
  pub retry_after_seconds : Option Number
  pub auth_related : Bool
  pub details : Option Fields

-- What a `catch` receives: a `PlugError`, or anything else.
pub data Thrown : Type 0 where
  plug : PlugError → Thrown
  foreign : Thrown

abbrev pub max_transient_retries : ℕ
max_transient_retries = 2

abbrev pub max_retry_delay_ms : ℕ
max_retry_delay_ms = 60000

unfoldable pub retry_kind : Operation → Option RetryKind
retry_kind execute_sql = some sql
retry_kind execute_batch = some sql
retry_kind bulk_insert_sql = some sql
retry_kind cancel_sql = some sql
retry_kind validate_context = some metadata
retry_kind discover_rpc = some metadata
retry_kind get_agent_profile = some metadata
retry_kind get_client_token_policy = some metadata

abbrev pub is_str : String → Option Json → Bool
is_str s (some (str t)) = str_eq t s
is_str s _ = false

abbrev pub is_true : Option Json → Bool
is_true (some (bool b)) = b
is_true _ = false

abbrev pub is_minus_number : ℕ → Option Json → Bool
is_minus_number k (some (num x)) = is_minus k x
is_minus_number k _ = false

-- `details.<key>`, where there are details.
abbrev pub detail : String → Option Fields → Option Json
detail k none = none
detail k (some fs) = get k fs

-- `isRecord(rpcError) && rpcError.code === -32014`
abbrev pub is_replay_code : Option Json → Bool
is_replay_code (some (obj fs)) = is_minus_number 32014 (get "code" fs)
is_replay_code _ = false

unfoldable pub is_replay_detected : PlugError → Bool
is_replay_detected e =
    str_eq e.code "RPC_-32014"
    || is_str "replay_detected" (detail "reason" e.details)
    || is_replay_code (detail "rpcError" e.details)

unfoldable pub is_method_not_found : PlugError → Bool
is_method_not_found e =
    str_eq e.code "RPC_-32601" || is_str "method_not_found" (detail "reason" e.details)

unfoldable pub is_ambiguous_code : String → Bool
is_ambiguous_code c =
    str_eq c "HTTP_REQUEST_FAILED"
    || str_eq c "HTTP_RESPONSE_MISSING_STATUS"
    || str_eq c "SOCKET_DISCONNECTED"
    || str_eq c "CONSUMER_IDLE_TIMEOUT"
    || str_eq c "SOCKET_APP_ERROR"

abbrev pub is_socket : Option Channel → Bool
is_socket (some socket) = true
is_socket _ = false

abbrev pub is_server_failure : Option ℕ → Bool
is_server_failure none = false
is_server_failure (some status) = leb 500 status

-- The clause of `shouldRetryPlugOperation` that keeps an SQL command from being sent twice.
unfoldable pub may_have_run : Option Channel → PlugError → Bool
may_have_run channel e =
    is_ambiguous_code e.code
    || is_true (detail "commandDispatched" e.details)
    || (not (is_socket channel) && is_server_failure e.status_code)

abbrev pub is_sql : RetryKind → Bool
is_sql sql = true
is_sql metadata = false

unfoldable pub should_retry_error : RetryKind → Option Channel → PlugError → Bool
should_retry_error kind channel e = elim e.class [
  | validation ↦ false
  | timeout ↦ not (is_sql kind) && not (is_socket channel)
  | plain ↦
      not e.auth_related
      && not (is_sql kind && may_have_run channel e)
      && not (is_replay_detected e || is_method_not_found e)
      && e.retryable
]

unfoldable pub should_retry : Operation → Option Channel → ℕ → Thrown → Bool
should_retry operation channel attempt foreign = false
should_retry operation channel attempt (plug e) =
    if leb max_transient_retries attempt then false else elim (retry_kind operation) [
      | none ↦ false
      | some kind ↦ should_retry_error kind channel e
    ]

-- `applyRetryBackoffJitter`, with `jitter ms` for `Math.round(ms * jitterFactor)`.
unfoldable pub apply_retry_backoff_jitter : (ℕ → ℕ) → ℕ → ℕ
apply_retry_backoff_jitter jitter base = if leb base 0 then 0 else jitter base

-- The delay that the hub asks for, if it is a finite number above 0.
abbrev pub asked_delay_ms : Option Number → Option ℕ
asked_delay_ms none = none
asked_delay_ms (some (fraction n d)) = if ltb 0 n then some (ceil (n * 1000) d) else none
asked_delay_ms (some _) = none

unfoldable pub compute_retry_delay_ms : (ℕ → ℕ) → PlugError → ℕ → ℕ
compute_retry_delay_ms jitter e attempt = elim (asked_delay_ms e.retry_after_seconds) [
  | some ms ↦ min max_retry_delay_ms ms
  | none ↦ min max_retry_delay_ms (apply_retry_backoff_jitter jitter (min 5000 (250 * 2 ^ attempt)))
]

-- The error that stands in for a thrown value that is no `PlugError`.
abbrev pub timeout_error : PlugError
timeout_error = record {
  class = plain;
  code = "PLUG_TIMEOUT";
  status_code = none;
  retryable = true;
  retry_after_seconds = none;
  auth_related = false;
  details = none;
}

unfoldable pub retry_delay_ms : (ℕ → ℕ) → ℕ → Thrown → ℕ
retry_delay_ms jitter attempt (plug e) = compute_retry_delay_ms jitter e attempt
retry_delay_ms jitter attempt foreign = compute_retry_delay_ms jitter timeout_error attempt
