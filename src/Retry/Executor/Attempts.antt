-- ===== src/Retry/Executor/Attempts.antt =====
-- How often a command is sent, after which failures it is sent again, and how the loop ends.
use plug_node.Base.{
  ℕ, zero, suc, ◌+◌, ◌-◌, ◌*◌, ◌≤◌, ◌<◌, ◌≡◌, ◌⊎◌, refl, Bool, true, Option, none, some, List, [],
  ◌∷◌, All, arith, length, Bool-cases, inl, inr,
}
use plug_node.Retry.Policy.{
  sql, Thrown, retry_kind, should_retry, max_transient_retries, max_retry_delay_ms,
}
use plug_node.Retry.Policy.Laws.{Ambiguous, should_retry_sql, should_retry_bounded, retry_delay-le}
use plug_node.Retry.Executor.{
  Request, Uuids, rotate_for_retry, Outcome, ok, throws, Ending, done, failed, exhausted, Report,
  attempt_loop, ended, after_retry, tries_again, execute_built_command_with_retry,
}

abbrev pub sum : List ℕ → ℕ
sum [] = 0
sum (n ∷ ns) = n + sum ns

-- How an ending agrees with what the attempt `n` did.
abbrev pub Agrees : {V : Type 0} → (ℕ → Outcome V) → ℕ → ℕ → Ending V → Type 0
Agrees send offset n (done v count last) = (send n ≡ ok v) × (count ≡ n + 1 + offset)
Agrees send offset n (failed t) = send n ≡ throws t
Agrees send offset n exhausted = ⊥

outcome_cases :
    {V : Type 0} (o : Outcome V) → ((v : V) × (o ≡ ok v)) ⊎ ((t : Thrown) × (o ≡ throws t))
outcome_cases (ok v) = inl (v, refl)
outcome_cases (throws t) = inr (t, refl)

-- A report of the attempts from `n` to at most `stop`, with delays of at most `cap` and a reason
-- for each attempt that was not the last.
record Good {V : Type 0} (send : ℕ → Outcome V) (offset stop cap : ℕ) (P : Thrown → Type 0) (n : ℕ)
    (r : Report V) : Type 0 where
  few : length r.attempts + n ≤ suc stop
  waits : length r.delays + 1 ≡ length r.attempts
  short : sum r.delays ≤ length r.delays * cap
  why : All P r.retried
  ends : Agrees send offset (length r.delays + n) r.ending

module _ {V : Type 0} (send : ℕ → Outcome V) (again : ℕ → Thrown → Bool) (delay : ℕ → Thrown → ℕ)
    (offset stop cap : ℕ) (P : Thrown → Type 0) (capped : (n : ℕ) (t : Thrown) → delay n t ≤ cap)
    (stops : (n : ℕ) (t : Thrown) → again n t ≡ true → n < stop)
    (reason : (n : ℕ) (t : Thrown) → again n t ≡ true → P t) where
  after_retry-Good :
      (n : ℕ) (t : Thrown) (r : Report V)
      → again n t ≡ true
      → Good send offset stop cap P (n + 1) r
      → Good send offset stop cap P n (after_retry send again delay offset n t (delay n t) r)
  after_retry-Good n t r h g = record {
    few = omega (arith, g.few);
    waits = omega (arith, g.waits);
    short = omega (arith, g.short, capped n t);
    why = (reason n t h, g.why);
    ends =
        let e : length r.delays + (n + 1) ≡ suc (length r.delays) + n = omega arith in
        rw e at g.ends;
  }

  ended-Good :
      (n : ℕ) (e : Ending V)
      → n ≤ stop
      → Agrees send offset n e
      → Good send offset stop cap P n (ended send again delay offset n e)
  ended-Good n e h a = record {
    few = omega arith;
    waits = omega arith;
    short = omega arith;
    why = tt;
    ends = let z : 0 + n ≡ n = omega arith in rw z a;
  }

  loop-Good :
      (rounds n : ℕ) (last : Option ℕ)
      → rounds + n ≡ suc stop
      → 0 < rounds
      → Good send offset stop cap P n (attempt_loop send again delay offset rounds n last)
  unfolding attempt_loop
  loop-Good zero n last e h = absurd (omega arith)
  loop-Good (suc rounds) n last e h = elim (outcome_cases (send n)) [
    | inl (v, o) ↦ rw (o, attempt_loop) (ended-Good n _ (omega arith) (o, refl))
    | inr (t, o) ↦ elim (Bool-cases (again n t)) [
      | inl more ↦
          rw (o, attempt_loop)
            (rw more (
              after_retry-Good n t _ more (
                loop-Good rounds (n + 1) (some (delay n t)) (omega arith)
                  (omega (arith, stops n t more)))))
      | inr over ↦ rw (o, attempt_loop) (rw over (ended-Good n _ (omega arith) o))
    ]
  ]

tries_again-should :
    (r : Request) (n : ℕ) (t : Thrown)
    → tries_again r n t ≡ true
    → should_retry r.operation (some r.channel) n t ≡ true
unfolding tries_again
tries_again-should r n t h = ground arith

module _ {V : Type 0} (jitter : ℕ → ℕ → ℕ) (uuid : Uuids) (execute : Request → ℕ → Outcome V)
    (r : Request) where
  abbrev pub report : Report V
  report = execute_built_command_with_retry jitter uuid execute r

  stops_at : (n : ℕ) (t : Thrown) → tries_again r n t ≡ true → n < max_transient_retries
  stops_at n t h = should_retry_bounded r.operation _ n t (tries_again-should r n t h)

  executor-Good :
      (P : Thrown → Type 0)
      → ((n : ℕ) (t : Thrown) → tries_again r n t ≡ true → P t)
      → Good
          (λ n. execute (rotate_for_retry uuid r n) n)
          0
          max_transient_retries
          max_retry_delay_ms
          P
          0
          report
  unfolding execute_built_command_with_retry
  executor-Good P reason =
      loop-Good _ (tries_again r) _ 0 _ _ P (λ n t. retry_delay-le (jitter n) n t) stops_at reason
        (suc max_transient_retries) 0 none (omega arith) (omega arith)

  -- A command is sent once at least and three times at most, with one wait between two attempts,
  -- and it waits for two minutes at most in all.
  pub attempts_bounded :
      (0 < length report.attempts)
      × (length report.attempts ≤ 3)
      × (length report.delays + 1 ≡ length report.attempts)
      × (sum report.delays ≤ 120000)
  attempts_bounded =
      let g = executor-Good (λ _. Unit) (λ n t h. tt) in omega (arith, g.few, g.waits, g.short)

  -- The result is that of the last attempt: its value with the number of attempts, or the error that
  -- it threw. The error behind the loop is never thrown.
  pub ending_of_last :
      Agrees
        (λ n. execute (rotate_for_retry uuid r n) n)
        0
        (length report.attempts - 1)
        report.ending
  ending_of_last =
      let g = executor-Good (λ _. Unit) (λ n t h. tt) in
      let e : length report.attempts - 1 ≡ length report.delays + 0 = omega (arith, g.waits) in
      rw e g.ends

  -- An SQL command is never sent again after an ambiguous failure: a timeout, a lost transport, a
  -- dispatched command, or over REST a server failure.
  pub sql_not_repeated :
      retry_kind r.operation ≡ some sql → All (λ t. ¬ Ambiguous (some r.channel) t) report.retried
  sql_not_repeated k =
      (executor-Good _ λ n t h a. ground (
        arith,
        tries_again-should r n t h,
        should_retry_sql r.operation (some r.channel) n t k a,
      )).why
