-- ===== src/Retry/Policy/Laws.antt =====
-- What the retry policy lets through.
use plug_node.Base.{ℕ, ◌≤◌, ◌<◌, ◌≡◌, refl, true, false, Option, none, some, ◌⊎◌, arith}
use plug_node.Retry.Policy.{
  Operation, sql, Channel, rest, PlugError, timeout, Thrown, plug, foreign, retry_kind,
  is_ambiguous_code, is_true, detail, should_retry, should_retry_error, may_have_run,
  retry_delay_ms, compute_retry_delay_ms, max_transient_retries, max_retry_delay_ms,
}

-- A failure after which the hub or the agent may have run the command all the same.
pub data Ambiguous (channel : Option Channel) : Thrown → Type 0 where
  timed_out : {e : PlugError} → e.class ≡ timeout → Ambiguous channel (plug e)
  lost : {e : PlugError} → is_ambiguous_code e.code ≡ true → Ambiguous channel (plug e)
  dispatched :
      {e : PlugError}
      → is_true (detail "commandDispatched" e.details) ≡ true
      → Ambiguous channel (plug e)
  server_failed :
      {e : PlugError} {status : ℕ}
      → (channel ≡ some rest) ⊎ (channel ≡ none)
      → e.status_code ≡ some status
      → 500 ≤ status
      → Ambiguous channel (plug e)
  unknown : Ambiguous channel foreign

-- An SQL command is not sent again after an ambiguous failure.
pub should_retry_sql :
    (operation : Operation) (channel : Option Channel) (attempt : ℕ) (t : Thrown)
    → retry_kind operation ≡ some sql
    → Ambiguous channel t
    → should_retry operation channel attempt t ≡ false
unfolding should_retry should_retry_error may_have_run
should_retry_sql operation channel attempt (plug e) k (timed_out h) = ground arith
should_retry_sql operation channel attempt (plug e) k (lost h) = ground arith
should_retry_sql operation channel attempt (plug e) k (dispatched h) = ground arith
should_retry_sql operation channel attempt (plug e) k (server_failed c h m) = ground arith
should_retry_sql operation channel attempt foreign k unknown = refl

pub should_retry_bounded :
    (operation : Operation) (channel : Option Channel) (attempt : ℕ) (t : Thrown)
    → should_retry operation channel attempt t ≡ true
    → attempt < max_transient_retries
unfolding should_retry
should_retry_bounded operation channel attempt (plug e) h = ground arith
should_retry_bounded operation channel attempt foreign h = ground arith

pub retry_delay-le :
    (jitter : ℕ → ℕ) (attempt : ℕ) (t : Thrown)
    → retry_delay_ms jitter attempt t ≤ max_retry_delay_ms
unfolding retry_delay_ms compute_retry_delay_ms
retry_delay-le jitter attempt (plug e) = ground arith
retry_delay-le jitter attempt foreign = ground arith
