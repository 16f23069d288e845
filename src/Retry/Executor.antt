-- ===== src/Retry/Executor.antt =====
-- plugTransportExecutor.ts, plugCommandIdRotation.ts and `executeWithPlugTransientRetry`: the loop
-- over the attempts. What an attempt does outside, transport and output, is the argument `execute`.
pub mod Attempts
pub mod Ids
mod Tests
use plug_node.Base.{
  false, ℕ, zero, suc, ◌+◌, Bool, Option, none, some, List, [], ◌∷◌, if◌then◌else◌, ◌==◌,
}
use plug_node.Values.Json.{Json}
use plug_node.Retry.Policy.{
  Operation, validate_context, Channel, Thrown, plug, foreign, retry_kind, should_retry,
  retry_delay_ms, max_transient_retries, is_replay_detected,
}

-- A command with its JSON-RPC id; `none` is an id left out. The rest of it is of no concern here.
pub record Command : Type 0 where
  pub id : Option Json
  pub body : Json

-- `BridgeCommand`
pub data Bridge : Type 0 where
  single : Command → Bridge
  batch : List Command → Bridge

-- The fields of `BuiltCommandRequest` that the loop reads.
pub record Request : Type 0 where
  pub operation : Operation
  pub channel : Channel
  pub command : Bridge

-- The attempt's random ids: `uuid n i` for the command at position i of attempt n.
abbrev pub Uuids : Type 0
Uuids = ℕ → ℕ → Json

abbrev pub rotate_single_command_id : Json → Command → Command
rotate_single_command_id id c = record c { id = some id }

unfoldable pub rotate_from : (ℕ → Json) → ℕ → List Command → List Command
rotate_from uuid i [] = []
rotate_from uuid i (c ∷ cs) = rotate_single_command_id (uuid i) c ∷ rotate_from uuid (i + 1) cs

unfoldable pub rotate_command : (ℕ → Json) → Bridge → Bridge
rotate_command uuid (single c) = single (rotate_single_command_id (uuid 0) c)
rotate_command uuid (batch cs) = batch (rotate_from uuid 0 cs)

unfoldable pub rotate_for_retry : Uuids → Request → ℕ → Request
rotate_for_retry uuid r attempt = if attempt == 0 then r else elim (retry_kind r.operation) [
  | none ↦ r
  | some _ ↦ record r { command = rotate_command (uuid attempt) r.command }
]

pub data Outcome {ℓ} (V : Type ℓ) : Type ℓ where
  ok : V → Outcome V
  throws : Thrown → Outcome V

-- How the loop ends. `exhausted` is the error behind the loop.
pub data Ending {ℓ} (V : Type ℓ) : Type ℓ where
  done : V → (attempt_count : ℕ) → (last_retry_delay_ms : Option ℕ) → Ending V
  failed : Thrown → Ending V
  exhausted : Ending V

-- An ending with what was done before it: the numbers of the attempts, the errors after which it
-- was tried again, and the delays between.
pub record Report {ℓ} (V : Type ℓ) : Type ℓ where
  pub attempts : List ℕ
  pub retried : List Thrown
  pub delays : List ℕ
  pub ending : Ending V

module _ {ℓ} {V : Type ℓ} (send : ℕ → Outcome V) (again : ℕ → Thrown → Bool)
    (delay : ℕ → Thrown → ℕ) (offset : ℕ) where
  abbrev pub ended : ℕ → Ending V → Report V
  ended attempt e = record { attempts = attempt ∷ []; retried = []; delays = []; ending = e }

  abbrev pub after_retry : ℕ → Thrown → ℕ → Report V → Report V
  after_retry attempt t ms r = record {
    attempts = attempt ∷ r.attempts;
    retried = t ∷ r.retried;
    delays = ms ∷ r.delays;
    ending = r.ending;
  }

  -- The `for` loop over `attemptNumber`, with the number of rounds that it has left.
  pub attempt_loop : (rounds attempt : ℕ) → Option ℕ → Report V
  attempt_loop zero attempt last = record {
    attempts = [];
    retried = [];
    delays = [];
    ending = exhausted;
  }
  attempt_loop (suc rounds) attempt last = elim (send attempt) [
    | ok v ↦ ended attempt (done v (attempt + 1 + offset) last)
    | throws t ↦
        let ms = delay attempt t in
        let rest = attempt_loop rounds (attempt + 1) (some ms) in
        if again attempt t then after_retry attempt t ms rest else ended attempt (failed t)
  ]

-- `isReplayDetectedPlugError`
abbrev pub is_replay_thrown : Thrown → Bool
is_replay_thrown (plug e) = is_replay_detected e
is_replay_thrown foreign = false

-- The test of the `catch` of `executeBuiltCommandWithRetry`.
unfoldable pub tries_again : Request → ℕ → Thrown → Bool
tries_again r attempt t =
    if is_replay_thrown t then false else should_retry r.operation (some r.channel) attempt t

module _ {ℓ} {V : Type ℓ} (jitter : ℕ → ℕ → ℕ) where
  unfoldable pub execute_built_command_with_retry :
      Uuids → (Request → ℕ → Outcome V) → Request → Report V
  execute_built_command_with_retry uuid execute r =
      attempt_loop (λ n. execute (rotate_for_retry uuid r n) n) (tries_again r)
        (λ n t. retry_delay_ms (jitter n) n t) 0 (suc max_transient_retries) 0 none

  unfoldable pub execute_with_transient_retry : (ℕ → Outcome V) → ℕ → Report V
  execute_with_transient_retry execute offset =
      attempt_loop execute (should_retry validate_context none)
        (λ n t. retry_delay_ms (jitter n) n t) offset (suc max_transient_retries) 0 none
