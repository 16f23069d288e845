-- ===== src/Retry/Executor/Tests.antt =====
-- Runs of the retry loop, and its theorems at one of them.
use plug_node.Base.{
  ℕ, zero, suc, ◌+◌, ◌≤◌, ◌<◌, ◌≡◌, ◌≢◌, refl, true, false, none, some, [], ◌∷◌, All, arith, length,
}
use plug_node.Values.Number.{whole, fraction}
use plug_node.Values.Json.{num, str, null, get}
use plug_node.Retry.Policy.{
  execute_sql, discover_rpc, rest, plain, PlugError, plug, retry_kind, should_retry,
  should_retry_error, may_have_run, is_ambiguous_code, is_replay_detected, is_method_not_found,
  retry_delay_ms, compute_retry_delay_ms, apply_retry_backoff_jitter,
}
use plug_node.Retry.Policy.Laws.{Ambiguous}
use plug_node.Retry.Executor.{
  single, Request, Outcome, ok, throws, done, rotate_for_retry, rotate_command, rotate_from,
  attempt_loop, tries_again, execute_built_command_with_retry, Uuids,
}
use plug_node.Retry.Executor.Attempts.{
  sum, attempts_bounded, ending_of_last, sql_not_repeated, report,
}
use plug_node.Retry.Executor.Ids.{ids, Apart, rotate-Apart}

retry_code : Unit {0}
unfolding should_retry should_retry_error may_have_run is_ambiguous_code is_replay_detected
    is_method_not_found retry_delay_ms compute_retry_delay_ms apply_retry_backoff_jitter
    rotate_for_retry rotate_command rotate_from attempt_loop tries_again
    execute_built_command_with_retry retry_kind get
retry_code = tt

abbrev rate_limited : PlugError
rate_limited = record {
  class = plain;
  code = "RATE_LIMITED";
  status_code = some 429;
  retryable = true;
  retry_after_seconds = some (whole 90);
  auth_related = false;
  details = none;
}

abbrev gateway_failure : PlugError
gateway_failure = record rate_limited { code = "BAD_GATEWAY"; status_code = some 502 }

abbrev query : Request
query = record {
  operation = execute_sql;
  channel = rest;
  command = single (record { id = some (str "q1"); body = null });
}

abbrev uuid : Uuids
uuid n i = num (fraction n i)

abbrev half_delay : ℕ → ℕ → ℕ
half_delay n ms = ms

-- The first attempt is refused with a rate limit, the second gets through.
abbrev limited_once : Request → ℕ → Outcome ℕ
limited_once r zero = throws (plug rate_limited)
limited_once r (suc n) = ok 7

limited_once_runs : (report half_delay uuid limited_once query).ending ≡ done 7 2 (some 60000)
unfolding retry_code
limited_once_runs = refl

-- A gateway failure of an SQL command over REST ends at once; that of a discovery is tried again.
always_failing : Request → ℕ → Outcome ℕ
always_failing r n = throws (plug gateway_failure)

failing_sql_runs : (report half_delay uuid always_failing query).attempts ≡ 0 ∷ []
unfolding retry_code always_failing
failing_sql_runs = refl

failing_discovery_runs :
    (report half_delay uuid always_failing (record query { operation = discover_rpc })).attempts
    ≡ 0 ∷ 1 ∷ 2 ∷ []
unfolding retry_code always_failing
failing_discovery_runs = refl

attempts_bounded_example :
    (0 < length (report half_delay uuid limited_once query).attempts)
    × (length (report half_delay uuid limited_once query).attempts ≤ 3)
    × (length (report half_delay uuid limited_once query).delays + 1
        ≡ length (report half_delay uuid limited_once query).attempts)
    × (sum (report half_delay uuid limited_once query).delays ≤ 120000)
attempts_bounded_example = attempts_bounded half_delay uuid limited_once query

ending_of_last_example : (limited_once query 1 ≡ ok 7) × (2 ≡ 1 + 1 + 0)
unfolding retry_code
ending_of_last_example = ending_of_last half_delay uuid limited_once query

sql_not_repeated_example : All (λ t. ¬ Ambiguous (some rest) t) (plug rate_limited ∷ [])
unfolding retry_code
sql_not_repeated_example = sql_not_repeated half_delay uuid limited_once query refl

uuid_differs : (j k i l : ℕ) → j ≢ k → uuid j i ≢ uuid k l
uuid_differs j k i l h e = h (cc)

rotate-Apart_example :
    Apart
      (ids (rotate_for_retry uuid query 1).command)
      (ids (rotate_for_retry uuid query 2).command)
rotate-Apart_example = rotate-Apart uuid query 1 2 uuid_differs ((λ k i e. cc), tt) (omega arith)
