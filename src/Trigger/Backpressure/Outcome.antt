-- ===== src/Trigger/Backpressure/Outcome.antt =====
-- What can be seen of an `enqueue` in each of its ends, without the helpers that it calls.
use plug_node.Base.{
  ℕ, ◌+◌, ◌≤◌, ◌<◌, ◌≡◌, ◌∙◌, refl, ap, ◌⊎◌, false, true, List, [], ◌∷◌, ◌++◌, length, arith,
}
use plug_node.Trigger.Backpressure.Types.{
  Policy, fail, drop_newest, drop_oldest, Config, Task, State, Clock, reports_limit, Turn,
}
use plug_node.Trigger.Backpressure.{◌>>=◌, dropped, count_newest, count_oldest, admit, enqueue}
use plug_node.Trigger.Backpressure.Started.{
  started, refusals, ids, drops_of, drops_of-append, drain-Drained,
}
use plug_node.Trigger.Backpressure.Offers.{
  ignored, admitted, refused, newest_dropped, oldest_dropped, oldest_replaced, enqueue-Offer,
  incoming, dropped-Quiet, dropped-drops, NoRoom,
}
use plug_node.Trigger.Backpressure.Order.{line, admit-line, Quiet-line, refusals-append}

-- The queue at its capacity, with no room in flight either, under a policy.
pub record Overfull (c : Config) (p : Policy) (s : State) : Type 0 where
  pub live : s.closed ≡ false
  pub no_room : NoRoom c s
  pub full : c.max_queue_size ≤ length s.queue
  pub policy : c.overflow_policy ≡ p

-- A turn that starts nothing and leaves the queue as it was, dropping the offered task.
pub record DropsOffered (p : Policy) (s : State) (r : Turn) : Type 0 where
  pub queue : r.0.queue ≡ s.queue
  pub nothing : started r.1 ≡ []
  pub refused : refusals r.1 ≡ 0
  pub reported : drops_of r.1 ≡ p ∷ []

-- A turn that takes the offered task in behind a queue, dropping as the policies say.
pub record TakesIn (id : ℕ) (queue : List Task) (ps : List Policy) (r : Turn) : Type 0 where
  pub order : line r ≡ ids queue ++ id ∷ []
  pub refused : refusals r.1 ≡ 0
  pub reported : drops_of r.1 ≡ ps

pub data Outcome (c : Config) (id : ℕ) (s : State) (r : Turn) : Type 0 where
  ignores : s.closed ≡ true → r ≡ (s, []) → Outcome c id s r
  takes_in :
      s.closed ≡ false
      → ((s.inflight < c.max_inflight_events) × (s.queue ≡ []))
        ⊎ (length s.queue < c.max_queue_size)
      → TakesIn id s.queue [] r
      → Outcome c id s r
  refuses : Overfull c fail s → r ≡ (s, reports_limit ∷ []) → Outcome c id s r
  drops_the_newest :
      Overfull c drop_newest s
      → DropsOffered drop_newest s r
      → r.0.dropped_newest_count ≡ s.dropped_newest_count + 1
      → Outcome c id s r
  drops_without_capacity :
      Overfull c drop_oldest s
      → c.max_queue_size ≡ 0
      → DropsOffered drop_oldest s r
      → r.0.dropped_oldest_count ≡ s.dropped_oldest_count + 1
      → Outcome c id s r
  replaces_the_oldest :
      (old : Task) (queue : List Task)
      → Overfull c drop_oldest s
      → s.queue ≡ old ∷ queue
      → TakesIn id queue (drop_oldest ∷ []) r
      → r.0.dropped_oldest_count ≡ s.dropped_oldest_count + 1
      → Outcome c id s r

-- A task that is taken in by an open queue.
record Admits (id : ℕ) (s : State) (r : Turn) : Type 0 where
  taken : TakesIn id s.queue [] r
  oldest : r.0.dropped_oldest_count ≡ s.dropped_oldest_count

admit-Admits :
    (c : Config) (clock : Clock) (id : ℕ) (s : State)
    → s.closed ≡ false
    → Admits id s (admit c clock (incoming clock id) s)
unfolding admit
admit-Admits c clock id s live =
    let d = drain-Drained c clock (record s { queue = s.queue ++ incoming clock id ∷ [] }) live in
    record {
      taken = record {
        order = admit-line c clock (incoming clock id) s;
        refused = d.granted;
        reported = d.kept;
      };
      oldest = d.oldest;
    }

dropped-DropsOffered :
    (c : Config) (clock : Clock) (p : Policy) (s t : State)
    → t.queue ≡ s.queue
    → DropsOffered p s (dropped c clock p t)
dropped-DropsOffered c clock p s t same =
    let q = dropped-Quiet c clock p t in
    record {
      queue = ap (λ (t : State). t.queue) q.same ∙ same;
      nothing = q.nothing;
      refused = q.refused;
      reported = dropped-drops c clock p t;
    }

-- The oldest task is dropped, and the offered one is taken in.
replaced-Admits :
    (c : Config) (clock : Clock) (id : ℕ) (t : State)
    → t.closed ≡ false
    → let r = dropped c clock drop_oldest t >>= admit c clock (incoming clock id) in
      TakesIn id t.queue (drop_oldest ∷ []) r × (r.0.dropped_oldest_count ≡ t.dropped_oldest_count)
replaced-Admits c clock id t live =
    let m = dropped c clock drop_oldest t in
    let q = dropped-Quiet c clock drop_oldest t in
    let a = admit-Admits c clock id m.0 (ap (λ (t : State). t.closed) q.same ∙ live) in
    let f = admit c clock (incoming clock id) in
    (
      record {
        order =
            Quiet-line t m f q ∙ a.taken.order ∙ ap (λ (t : State). ids t.queue ++ id ∷ []) q.same;
        refused = omega (arith, refusals-append m.1 (f m.0).1, q.refused, a.taken.refused);
        reported =
            drops_of-append m.1 (f m.0).1
            ∙ rw (dropped-drops c clock drop_oldest t, a.taken.reported) refl;
      },
      a.oldest ∙ ap (λ (t : State). t.dropped_oldest_count) q.same,
    )

-- Whatever the state, an offered task ends in one of six ways: a closed queue ignores it; where there
-- is room in flight with nobody waiting, or room in the queue, it is taken in behind those that wait;
-- and else, as the policy says, it is refused with the limit error and nothing changes, it is dropped
-- and counted with the queue kept, or the oldest that waits is dropped and counted and the offered
-- one is taken in at the end. Taken in, it waits or is started behind all those before it.
pub enqueue-Outcome :
    (c : Config) (clock : Clock) (id : ℕ) (s : State) → Outcome c id s (enqueue c clock id s)
enqueue-Outcome c clock id s = elim (enqueue-Offer c clock id s) [
  | ignored shut e ↦ ignores shut e
  | admitted live room e ↦ takes_in live room (rw e (admit-Admits c clock id s live).taken)
  | refused live busy full p e ↦
      refuses (record { live = live; no_room = busy; full = full; policy = p }) e
  | newest_dropped live busy full p e ↦
      let q = dropped-Quiet c clock drop_newest (count_newest s) in
      drops_the_newest (record { live = live; no_room = busy; full = full; policy = p })
        (rw e (dropped-DropsOffered c clock drop_newest s (count_newest s) refl))
        (rw e (ap (λ (t : State). t.dropped_newest_count) q.same))
  | oldest_dropped live busy none p e ↦
      let q = dropped-Quiet c clock drop_oldest (count_oldest s) in
      drops_without_capacity
        (record { live = live; no_room = busy; full = omega (arith, none); policy = p }) none
        (rw e (dropped-DropsOffered c clock drop_oldest s (count_oldest s) refl))
        (rw e (ap (λ (t : State). t.dropped_oldest_count) q.same))
  | oldest_replaced old queue live busy q full p e ↦
      let a = replaced-Admits c clock id (count_oldest (record s { queue = queue })) live in
      replaces_the_oldest old queue
        (record { live = live; no_room = busy; full = full; policy = p }) q (rw e a.0) (rw e a.1)
]
