-- ===== src/Decoding/Order.antt =====
-- parallelChunkDecode.ts: the order in which the queue applies what it decodes.
use mathlib.Core.List.{Sublist, sublist-append_left}
use mathlib.Core.List.Sublist
use plug_node.Base.{
  at_if, get_elem?, is_empty, ◌&&◌, erase_idx, sym, ◌||◌, ℕ, ◌+◌, ◌-◌, ◌≡◌, refl, ap, subst, inl,
  inr, Bool, true, false, List, [], ◌∷◌, ◌++◌, map, arith, Bool-cases, append_assoc, append-nil,
  map-append, ◌∙◌, ltb, if◌then◌else◌, Option, none, some, not,
}
use plug_node.Decoding.Types.{
  Limits, Decode, no_decode, decode_throws, decode_promises, Apply, Task, State, reports_failure,
  reports_limit, Turn, init,
}
use plug_node.Decoding.{
  ◌>>=◌, release, finish_drains, fail, new_task, apply_ready, pump, enqueue, enqueue_ordered_work,
  Accumulated, reserve, enqueue_decode_then_ordered, drain_ordered_work, settle_task, complete,
  release_where, cancel_where, cancel, drop_head, head_cancelled, applied, Event, enqueues_work,
  enqueues_chunk, decoded, apply_settles, aborts, drains, clears, step, run,
}
use plug_node.Decoding.Line.{
  applied_ids, ids, waiting_of, waiting, line, numbers, numbers-append, applied_ids-append, Follows,
  Follows->>=, same-Follows, Silent, Silent-Follows, release-Silent, finish_drains-Silent,
  Empties-line, clear-Follows, fail-Empties, fail-Follows, fail-closed,
}
use plug_node.Decoding.Turns.{apply_ready-Follows, pump-Follows}

-- A turn that takes in `new` tasks at the end.
record Admits (s : State) (r : Turn) : Type 0 where
  new : ℕ
  next : r.0.next_id ≡ s.next_id + new
  within : Sublist (line r) (waiting s ++ numbers s.next_id new)

Follows-Admits : (s : State) (r : Turn) → Follows s r → Admits s r
Follows-Admits s r q = record {
  new = 0;
  next = omega (arith, q.kept);
  within = rw append-nil q.within;
}

>>=-Admits :
    (s : State) (m : Turn) (f : State → Turn) → Admits s m → Admits m.0 (f m.0) → Admits s (m >>= f)
>>=-Admits s m f a b = record {
  new = a.new + b.new;
  next = omega (arith, a.next, b.next);
  within =
      rw
        (
          applied_ids-append m.1 (f m.0).1,
          append_assoc (applied_ids m.1) (applied_ids (f m.0).1) (waiting (f m.0).0),
          numbers-append s.next_id a.new b.new,
          ← append_assoc (waiting s) (numbers s.next_id a.new) (numbers (s.next_id + a.new) b.new),
        )
        (Sublist.trans (Sublist.append (Sublist.refl (applied_ids m.1)) b.within) (
          rw (← append_assoc (applied_ids m.1) (waiting m.0) (numbers m.0.next_id b.new), a.next)
            (Sublist.append a.within (Sublist.refl _))));
}

waiting_of-append :
    (closed applying : Bool) (l : List ℕ) (id : ℕ)
    → Sublist (waiting_of closed applying (l ++ id ∷ [])) (waiting_of closed applying l ++ id ∷ [])
waiting_of-append true applying l id = sublist-append_left [] _
waiting_of-append false false l id = Sublist.refl _
waiting_of-append false true [] id = sublist-append_left [] _
waiting_of-append false true (i ∷ l) id = Sublist.refl _

enqueue-Admits :
    (l : Limits) (d : Decode) (a : Apply) (bytes : ℕ) (s : State) → Admits s (enqueue l d a bytes s)
unfolding enqueue new_task
enqueue-Admits l d a bytes s =
    at_if (Admits s) s.closed _ _ (λ _. Follows-Admits s _ (same-Follows s))
      λ _.
        let task : Task = new_task s.next_id d a bytes in
        let begun : State = record s { next_id = s.next_id + 1; tasks = s.tasks ++ task ∷ [] } in
        let q =
          Follows->>= begun (pump l begun) apply_ready (pump-Follows l begun)
            (apply_ready-Follows (pump l begun).0) in
        record {
          new = 1;
          next = q.kept;
          within = Sublist.trans q.within (
              rw (map-append (λ (t : Task). t.id) s.tasks (task ∷ []))
                (waiting_of-append s.closed s.applying (ids s.tasks) s.next_id));
        }

enqueue_decode_then_ordered-Admits :
    (l : Limits) (acc : Accumulated) (throws : Bool) (a : Apply) (bytes : ℕ) (s : State)
    → Admits s (enqueue_decode_then_ordered l acc throws a bytes s)
unfolding enqueue_decode_then_ordered reserve
enqueue_decode_then_ordered-Admits l acc throws a bytes s =
    at_if (Admits s) s.closed _ _ (λ _. Follows-Admits s _ (same-Follows s))
      λ _.
        at_if (Admits s)
          (ltb l.max_frames (s.pending_frames + acc.frames + 1)
            || ltb l.max_bytes (s.pending_bytes + acc.bytes + bytes))
          (fail reports_limit s)
          (enqueue l (if throws then decode_throws else decode_promises) a bytes (reserve bytes s))
          (λ _. Follows-Admits s _ (fail-Follows reports_limit s refl))
          λ _.
            let q =
              enqueue-Admits l (if throws then decode_throws else decode_promises) a bytes
                (reserve bytes s) in
            record { new = q.new; next = q.next; within = q.within }

-- A turn that goes on from a state with the same ids in its list.
same_ids-Follows :
    (s t : State) (r : Turn)
    → t.next_id ≡ s.next_id
    → waiting t ≡ waiting s
    → Follows t r
    → Follows s r
same_ids-Follows s t r e w q = record {
  kept = q.kept ∙ e;
  within = subst (Sublist (line r)) w q.within;
}

ids-map :
    (f : Task → Task) (ts : List Task) → ((t : Task) → (f t).id ≡ t.id) → ids (map f ts) ≡ ids ts
ids-map f [] same = refl
ids-map f (t ∷ ts) same = rw (same t, ids-map f ts same) refl

complete-Follows :
    (l : Limits) (k : ℕ) (o : Option ℕ) (failed : Bool) (s : State)
    → Follows s (complete l k o failed s)
unfolding complete
complete-Follows l k none failed s = same-Follows s
complete-Follows l k (some id) failed s =
    let t : State = record s {
      active = s.active - 1;
      decoding = erase_idx s.decoding k;
      tasks = map (settle_task id failed) s.tasks;
    } in
    same_ids-Follows s t _ refl
      (ap (waiting_of s.closed s.applying)
        (ids-map (settle_task id failed) s.tasks λ u. ground arith))
      (Follows->>= t (pump l t) apply_ready (pump-Follows l t) (apply_ready-Follows (pump l t).0))

release_where-Silent : (id : ℕ) (ts : List Task) (s : State) → Silent s (release_where id ts s)
unfolding release_where
release_where-Silent id [] s = record {
  nothing = refl;
  tasks = refl;
  applying = refl;
  closed = refl;
  next = refl;
}
release_where-Silent id (t ∷ ts) s =
    let a = release-Silent t s in
    let b = release_where-Silent id ts (release t s).0 in
    let c = release_where-Silent id ts s in
    let e = applied_ids-append (release t s).1 (release_where id ts (release t s).0).1 in
    ground (arith, a, b, c, e)

cancel-Follows : (id : ℕ) (s : State) → Follows s (cancel id s)
unfolding cancel
cancel-Follows id s =
    let r = release_where id s.tasks s in
    let q = release_where-Silent id s.tasks s in
    let t : State = record r.0 { tasks = map (cancel_where id) s.tasks } in
    let e : ids t.tasks ≡ ids s.tasks = ids-map (cancel_where id) s.tasks (λ u. ground arith) in
    Follows->>= s (t, r.1) apply_ready
      (record { kept = q.next; within = rw (q.nothing, e, q.applying, q.closed) (Sublist.refl _) })
      (apply_ready-Follows t)

-- The queue when the `apply` that ran is over.
still : State → State
still s = record s { applying = false }

drop_head-busy :
    (ts : List Task) (s : State)
    → s.closed ≡ false
    → Follows
        (record s { tasks = ts; applying = true })
        (drop_head (still (record s { tasks = ts })))
unfolding drop_head still
drop_head-busy [] s live = record { kept = refl; within = rw live (Sublist.refl _) }
drop_head-busy (t ∷ ts) s live =
    let a = release-Silent t (still (record s { tasks = ts })) in
    record {
      kept = a.next;
      within = rw (a.nothing, a.tasks, a.applying, a.closed, live) (Sublist.refl _);
    }

drop_head-shut :
    (ts : List Task) (s : State)
    → s.closed ≡ true
    → Follows s (drop_head (still (record s { tasks = ts })))
unfolding drop_head still
drop_head-shut [] s shut = record { kept = refl; within = rw shut (Sublist.refl _) }
drop_head-shut (t ∷ ts) s shut =
    let a = release-Silent t (still (record s { tasks = ts })) in
    record { kept = a.next; within = rw (a.nothing, a.closed, shut) (Sublist.refl _) }

drop_head-Follows : (s : State) → s.applying ≡ true → Follows s (drop_head (still s))
drop_head-Follows s busy = elim (Bool-cases s.closed) [
  | inl shut ↦ drop_head-shut s.tasks s shut
  | inr live ↦
      subst (λ (b : Bool). Follows (record s { applying = b }) (drop_head (still s))) (sym busy)
        (drop_head-busy s.tasks s live)
]

fail-still-Follows : (s : State) → Follows s (fail reports_failure (still s))
unfolding still
fail-still-Follows s = elim (Bool-cases s.closed) [
  | inl shut ↦
      let a = fail-closed reports_failure (still s) shut in
      subst (Follows s) (sym a) (record { kept = refl; within = rw shut (Sublist.refl _) })
  | inr live ↦
      let a = fail-Empties reports_failure (still s) refl live in
      record { kept = a.next; within = rw (Empties-line (still s) _ a) (sublist-append_left [] _) }
]

applied-Follows : (failed : Bool) (s : State) → Follows s (applied failed s)
unfolding applied still
applied-Follows failed s =
    at_if (Follows s) (not s.applying) _ _ (λ _. same-Follows s)
      λ h.
        let busy : s.applying ≡ true = ground arith in
        at_if (Follows s) (failed && not (head_cancelled s.tasks)) _ _ (λ _. fail-still-Follows s)
          λ _.
            let a = drop_head (still s) in
            let b = a >>= apply_ready in
            Follows->>= s b finish_drains
              (Follows->>= s a apply_ready (drop_head-Follows s busy) (apply_ready-Follows a.0))
              (Silent-Follows b.0 _ (finish_drains-Silent b.0))

step-Admits : (l : Limits) (e : Event) (s : State) → Admits s (step l e s)
unfolding step enqueue_ordered_work drain_ordered_work
step-Admits l (enqueues_work a) s = enqueue-Admits l no_decode a 0 s
step-Admits l (enqueues_chunk acc throws a bytes) s =
    enqueue_decode_then_ordered-Admits l acc throws a bytes s
step-Admits l (decoded k failed) s =
    Follows-Admits s _ (complete-Follows l k (get_elem? s.decoding k) failed s)
step-Admits l (apply_settles failed) s = Follows-Admits s _ (applied-Follows failed s)
step-Admits l (aborts id) s = Follows-Admits s _ (cancel-Follows id s)
step-Admits l drains s = Follows-Admits s _ (
    at_if (Follows s) (is_empty s.tasks) _ _ (λ _. record { kept = refl; within = Sublist.refl _ })
      λ _. record { kept = refl; within = Sublist.refl _ })
step-Admits l clears s = Follows-Admits s _ (clear-Follows s)

run-Admits : (l : Limits) (es : List Event) (s : State) → Admits s (run l es s)
unfolding run
run-Admits l [] s = Follows-Admits s _ (same-Follows s)
run-Admits l (e ∷ es) s =
    >>=-Admits s (step l e s) (run l es) (step-Admits l e s) (run-Admits l es (step l e s).0)

-- From a new queue, whatever the events: the tasks applied and, behind them, the tasks that wait are
-- a sublist of the numbers that the accepted tasks were given in turn. So tasks are applied in the
-- order in which they were enqueued, each at most once, in whichever order the decodes settle.
pub run-ordered :
    (l : Limits) (es : List Event)
    → Sublist
        (applied_ids (run l es init).1 ++ waiting (run l es init).0)
        (numbers 0 (run l es init).0.next_id)
unfolding init
run-ordered l es =
    let a = run-Admits l es init in
    let e : (run l es init).0.next_id ≡ a.new = omega (arith, a.next) in
    subst (λ (n : ℕ). Sublist (line (run l es init)) (numbers 0 n)) (sym e) a.within
