-- ===== src/Trigger/Backpressure/Offers.antt =====
-- What `enqueue` does with an offered task, in the four ways that its branches end.
use plug_node.Base.{
  ℕ, ◌≤◌, ◌<◌, ◌≡◌, refl, ◌⊎◌, inl, inr, true, false, List, [], ◌∷◌, arith, length, ltb, leb,
  leb→le, Bool-cases, ap, is_empty, ◌&&◌,
}
use plug_node.Trigger.Backpressure.Types.{
  Policy, fail, drop_newest, drop_oldest, Config, Task, State, Clock, enqueuing, Reason,
  reports_limit, Turn,
}
use plug_node.Trigger.Backpressure.{
  ◌>>=◌, maybe_log_stats, dropped, count_newest, count_oldest, admit, replace_oldest, overflow,
  overflow_none, enqueue,
}
use plug_node.Trigger.Backpressure.Started.{started, refusals, drops_of}

-- The turn `r` leaves the state `s` but for the time of the last statistics, and starts nothing.
pub record Quiet (s : State) (r : Turn) : Type 0 where
  pub same : r.0 ≡ record s { last_stats_logged_at_ms = r.0.last_stats_logged_at_ms }
  pub nothing : started r.1 ≡ []
  pub refused : refusals r.1 ≡ 0

pub maybe_log_stats-Quiet :
    (c : Config) (clock : Clock) (reason : Reason) (s : State)
    → Quiet s (maybe_log_stats c clock reason s)
unfolding maybe_log_stats
maybe_log_stats-Quiet c clock reason s = ground arith

pub dropped-Quiet :
    (c : Config) (clock : Clock) (policy : Policy) (s : State) → Quiet s (dropped c clock policy s)
unfolding dropped maybe_log_stats
dropped-Quiet c clock policy s = ground arith

pub maybe_log_stats-drops :
    (c : Config) (clock : Clock) (reason : Reason) (s : State)
    → drops_of (maybe_log_stats c clock reason s).1 ≡ []
unfolding maybe_log_stats
maybe_log_stats-drops c clock reason s = ground arith

pub dropped-drops :
    (c : Config) (clock : Clock) (policy : Policy) (s : State)
    → drops_of (dropped c clock policy s).1 ≡ policy ∷ []
unfolding dropped maybe_log_stats
dropped-drops c clock policy s = ground arith

-- An offered task cannot start at once: the events in flight are at their maximum, or others wait.
abbrev pub NoRoom : Config → State → Type 0
NoRoom c s = (c.max_inflight_events ≤ s.inflight) ⊎ (0 < length s.queue)

abbrev pub incoming : Clock → ℕ → Task
incoming clock id = record { id = id; enqueued_at_ms = clock enqueuing }

-- The ends of an `enqueue`, each with the conditions under which the queue takes it.
pub data Offer (c : Config) (clock : Clock) (id : ℕ) (s : State) (r : Turn) : Type 0 where
  ignored : s.closed ≡ true → r ≡ (s, []) → Offer c clock id s r
  admitted :
      s.closed ≡ false
      → ((s.inflight < c.max_inflight_events) × (s.queue ≡ []))
        ⊎ (length s.queue < c.max_queue_size)
      → r ≡ admit c clock (incoming clock id) s
      → Offer c clock id s r
  refused :
      s.closed ≡ false
      → NoRoom c s
      → c.max_queue_size ≤ length s.queue
      → c.overflow_policy ≡ fail
      → r ≡ (s, reports_limit ∷ [])
      → Offer c clock id s r
  newest_dropped :
      s.closed ≡ false
      → NoRoom c s
      → c.max_queue_size ≤ length s.queue
      → c.overflow_policy ≡ drop_newest
      → r ≡ dropped c clock drop_newest (count_newest s)
      → Offer c clock id s r
  oldest_dropped :
      s.closed ≡ false
      → NoRoom c s
      → c.max_queue_size ≡ 0
      → c.overflow_policy ≡ drop_oldest
      → r ≡ dropped c clock drop_oldest (count_oldest s)
      → Offer c clock id s r
  oldest_replaced :
      (old : Task) (queue : List Task)
      → s.closed ≡ false
      → NoRoom c s
      → s.queue ≡ old ∷ queue
      → c.max_queue_size ≤ length s.queue
      → c.overflow_policy ≡ drop_oldest
      → r ≡ (
          dropped c clock drop_oldest (count_oldest (record s { queue = queue }))
          >>= admit c clock (incoming clock id))
      → Offer c clock id s r

module _ (c : Config) (clock : Clock) (id : ℕ) (s : State) (live : s.closed ≡ false)
    (busy : NoRoom c s) (full : c.max_queue_size ≤ length s.queue) where
  overflow_none-Offer :
      (p : Policy)
      → c.overflow_policy ≡ p
      → c.max_queue_size ≡ 0
      → Offer c clock id s (overflow_none c clock p s)
  unfolding overflow_none
  overflow_none-Offer fail e zero = refused live busy full e refl
  overflow_none-Offer drop_newest e zero = newest_dropped live busy full e refl
  overflow_none-Offer drop_oldest e zero = oldest_dropped live busy zero e refl

  replace_oldest-Offer :
      (queue : List Task)
      → s.queue ≡ queue
      → c.overflow_policy ≡ drop_oldest
      → Offer c clock id s (replace_oldest c clock (incoming clock id) queue s)
  unfolding replace_oldest
  replace_oldest-Offer [] q e = oldest_dropped live busy (omega (arith, ap length q)) e refl
  replace_oldest-Offer (old ∷ queue) q e = oldest_replaced old queue live busy q full e refl

  overflow-Offer :
      (p : Policy)
      → c.overflow_policy ≡ p
      → Offer c clock id s (overflow c clock (incoming clock id) p s)
  unfolding overflow
  overflow-Offer fail e = refused live busy full e refl
  overflow-Offer drop_newest e = newest_dropped live busy full e refl
  overflow-Offer drop_oldest e = replace_oldest-Offer s.queue refl e

no_room :
    (c : Config) (s : State)
    → (ltb s.inflight c.max_inflight_events && is_empty s.queue) ≡ false
    → NoRoom c s
no_room c s h = elim (Bool-cases (ltb s.inflight c.max_inflight_events)) [
  | inl free ↦ inr (some_queued s.queue (ground (arith, h, free)))
  | inr full ↦ inl (ground (arith, full))
]
  where
    some_queued : (xs : List Task) → is_empty xs ≡ false → 0 < length xs
    some_queued [] h = cc
    some_queued (x ∷ xs) h = omega arith

is_empty→eq : (xs : List Task) → is_empty xs ≡ true → xs ≡ []
is_empty→eq [] h = refl
is_empty→eq (x ∷ xs) h = cc

-- Whatever the state, an offered task is ignored by a closed queue, admitted where there is room,
-- and else refused, dropped, or admitted in the place of the oldest one that waits, as the policy
-- says.
pub enqueue-Offer :
    (c : Config) (clock : Clock) (id : ℕ) (s : State) → Offer c clock id s (enqueue c clock id s)
unfolding enqueue
enqueue-Offer c clock id s = elim (Bool-cases s.closed) [
  | inl shut ↦ ignored shut (simp shut)
  | inr live ↦ elim (Bool-cases (ltb s.inflight c.max_inflight_events && is_empty s.queue)) [
    | inl idle ↦
        simp (live, idle, enqueue)
          (admitted live (inl (ground arith, is_empty→eq s.queue (ground arith))) refl)
    | inr busy ↦ elim (Bool-cases (leb c.max_queue_size (length s.queue))) [
      | inl full ↦ elim (Bool-cases (leb c.max_queue_size 0)) [
        | inl none ↦
            simp (live, busy, full, none, enqueue)
              (overflow_none-Offer c clock id s live (no_room c s busy) (leb→le _ _ full)
                c.overflow_policy refl (ground arith))
        | inr some ↦
            simp (live, busy, full, some, enqueue)
              (overflow-Offer c clock id s live (no_room c s busy) (leb→le _ _ full)
                c.overflow_policy refl)
      ]
      | inr spare ↦ simp (live, busy, spare, enqueue) (admitted live (inr (ground arith)) refl)
    ]
  ]
]
