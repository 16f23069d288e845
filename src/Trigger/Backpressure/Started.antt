-- ===== src/Trigger/Backpressure/Started.antt =====
-- What the `drain` loop of the queue starts, and what it leaves.
use plug_node.Base.{
  refl, ℕ, suc, ◌+◌, ◌-◌, ◌≤◌, ◌<◌, ◌≡◌, ap, ◌⊎◌, inl, inr, Bool, false, not, List, [], ◌∷◌, ◌++◌,
  map, arith, length, length-append, count_if, ltb, ltb→lt, Bool-cases,
}
use plug_node.Trigger.Backpressure.Types.{
  Config, Task, Run, State, Clock, starting, Effect, starts, reports_limit, Turn, Policy, drops,
  reports_drop, reports_failure, logs,
}
use plug_node.Trigger.Backpressure.{drain_loop, start, drain}

-- The tasks that a list of effects starts, in order.
abbrev pub started : List Effect → List ℕ
started [] = []
started (starts id ∷ es) = id ∷ started es
started (_ ∷ es) = started es

-- How often a list of effects refuses a task for lack of room.
abbrev pub refusals : List Effect → ℕ
refusals [] = 0
refusals (reports_limit ∷ es) = suc (refusals es)
refusals (_ ∷ es) = refusals es

-- The policies by which a list of effects drops a task, one for each call of `onDrop`.
abbrev pub drops_of : List Effect → List Policy
drops_of [] = []
drops_of (drops p size ∷ es) = p ∷ drops_of es
drops_of (_ ∷ es) = drops_of es

pub drops_of-append : (es fs : List Effect) → drops_of (es ++ fs) ≡ drops_of es ++ drops_of fs
drops_of-append [] fs = refl
drops_of-append (drops p size ∷ es) fs = ap (◌∷◌ p) (drops_of-append es fs)
drops_of-append (starts id ∷ es) fs = drops_of-append es fs
drops_of-append (reports_drop p size ∷ es) fs = drops_of-append es fs
drops_of-append (reports_limit ∷ es) fs = drops_of-append es fs
drops_of-append (reports_failure id ∷ es) fs = drops_of-append es fs
drops_of-append (logs snapshot reason ∷ es) fs = drops_of-append es fs

abbrev pub ids : List Task → List ℕ
ids = map λ t. t.id

abbrev pub is_open_run : Run → Bool
is_open_run r = not r.counted

abbrev pub open_runs : State → ℕ
open_runs s = count_if is_open_run s.runs

pub count_if-append {ℓ} :
    {A : Type ℓ} (test : A → Bool) (xs ys : List A)
    → count_if test (xs ++ ys) ≡ count_if test xs + count_if test ys
count_if-append test [] ys = omega arith
count_if-append test (x ∷ xs) ys = omega (arith, count_if-append test xs ys)

-- The loop on a queue and a state, against its result.
pub record Drained (c : Config) (queue : List Task) (s : State) (r : Turn) : Type 0 where
  pub order : started r.1 ++ ids r.0.queue ≡ ids queue
  pub shorter : length r.0.queue ≤ length queue
  pub busy : (r.0.queue ≡ []) ⊎ (c.max_inflight_events ≤ r.0.inflight)
  pub roomy : s.inflight < c.max_inflight_events → length r.0.queue ≤ length queue - 1
  pub within : s.inflight ≤ c.max_inflight_events → r.0.inflight ≤ c.max_inflight_events
  pub grown : s.inflight ≤ r.0.inflight
  pub held : s.inflight ≡ length s.runs → r.0.inflight ≡ length r.0.runs
  pub counted : r.0.started_count + open_runs s ≡ s.started_count + open_runs r.0
  pub begun : r.0.started_count ≡ s.started_count + length (started r.1)
  pub granted : refusals r.1 ≡ 0
  pub kept : drops_of r.1 ≡ []
  pub processed : r.0.processed_count ≡ s.processed_count
  pub failed : r.0.failed_count ≡ s.failed_count
  pub newest : r.0.dropped_newest_count ≡ s.dropped_newest_count
  pub oldest : r.0.dropped_oldest_count ≡ s.dropped_oldest_count
  pub closed : r.0.closed ≡ s.closed

start-Drained :
    (c : Config) (clock : Clock) (t : Task) (queue : List Task) (s : State) (r : Turn)
    → s.inflight < c.max_inflight_events
    → Drained c queue (start clock t s) r
    → Drained c (t ∷ queue) s (r.0, starts t.id ∷ r.1)
unfolding start
start-Drained c clock t queue s r room d = record {
  order = ap (◌∷◌ t.id) d.order;
  shorter = omega (arith, d.shorter);
  busy = d.busy;
  roomy = λ h. omega (arith, d.shorter);
  within = λ h. d.within (omega arith);
  grown = omega (arith, d.grown);
  held = λ h. d.held (omega (arith, length-append s.runs (opened ∷ [])));
  counted = omega (arith, d.counted, count_if-append is_open_run s.runs (opened ∷ []));
  begun = omega (arith, d.begun);
  granted = d.granted;
  kept = d.kept;
  processed = d.processed;
  failed = d.failed;
  newest = d.newest;
  oldest = d.oldest;
  closed = d.closed;
}
  where
    opened : Run
    opened = record { id = t.id; started_at_ms = clock (starting t.id); counted = false }

drain_loop-Drained :
    (c : Config) (clock : Clock) (queue : List Task) (s : State)
    → Drained c queue s (drain_loop c clock queue s)
unfolding drain_loop
drain_loop-Drained c clock [] s = ground arith
drain_loop-Drained c clock (t ∷ queue) s =
    elim (Bool-cases (ltb s.inflight c.max_inflight_events)) [
      | inl room ↦
          rw (room, drain_loop)
            (start-Drained c clock t queue s _ (ltb→lt _ _ room)
              (drain_loop-Drained c clock queue (start clock t s)))
      | inr busy ↦ rw (busy, drain_loop) (ground arith)
    ]

-- An open queue drains: what it starts is a prefix of the queue, and it stops for lack of room only.
pub drain-Drained :
    (c : Config) (clock : Clock) (s : State)
    → s.closed ≡ false
    → Drained c s.queue s (drain c clock s)
unfolding drain
drain-Drained c clock s h = simp (h, drain) (drain_loop-Drained c clock s.queue s)
