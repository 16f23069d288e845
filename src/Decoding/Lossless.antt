-- ===== src/Decoding/Lossless.antt =====
-- parallelChunkDecode.ts: what a queue applies that stays open, and of which no task is aborted.
use plug_node.Base.{
  ℕ, ◌+◌, ◌-◌, ◌≡◌, refl, ap, sym, ◌∙◌, inl, inr, Bool, true, false, not, ◌&&◌, ◌||◌, Option, none,
  some, List, [], ◌∷◌, ◌++◌, map, every, arith, Bool-cases, ltb, if◌then◌else◌, erase_idx,
  append-nil, get_elem?, is_empty, at_if, and-true,
}
use plug_node.Decoding.Types.{
  Limits, no_decode, decode_throws, decode_promises, Apply, Task, State, reports_failure,
  reports_limit, Turn, init,
}
use plug_node.Decoding.{
  ◌>>=◌, finish_drains, fail, apply_ready, enqueue, enqueue_ordered_work, Accumulated, reserve,
  enqueue_decode_then_ordered, drain_ordered_work, settle_task, complete, drop_head, head_cancelled,
  applied, Event, enqueues_work, enqueues_chunk, decoded, apply_settles, aborts, drains, clears,
  step, run,
}
use plug_node.Decoding.Lazy.{clear-closed, step-closed}
use plug_node.Decoding.Line.{
  applied_ids, ids, waiting_of, waiting, numbers, applied_ids-append, release-Silent,
  finish_drains-Silent,
}
use plug_node.Decoding.Alive.{every-map}
use plug_node.Decoding.Exact.{
  is_uncancelled, Plain, absurd_closed, fail-shut, Exactly, OpenExactly, apply_ready-Exactly,
}
use plug_node.Base.{◌<◌}
use plug_node.Decoding.Idle.{run_idle}
use plug_node.Decoding.Line.{waiting_of-nil}
use plug_node.Decoding.Whole.{
  same_ids-empty, >>=-Exactly, pumped-Exactly, OpenExtends, Exactly-Extends, same-Exactly,
  >>=-Extends, enqueue-Extends,
}

enqueue_decode_then_ordered-Extends :
    (l : Limits) (acc : Accumulated) (throws : Bool) (a : Apply) (bytes : ℕ) (s : State)
    → Plain s
    → OpenExtends 1 s (enqueue_decode_then_ordered l acc throws a bytes s)
unfolding enqueue_decode_then_ordered reserve
enqueue_decode_then_ordered-Extends l acc throws a bytes s p =
    at_if (OpenExtends 1 s) s.closed _ _ (λ shut live. absurd_closed shut live)
      λ _.
        at_if (OpenExtends 1 s)
          (ltb l.max_frames (s.pending_frames + acc.frames + 1)
            || ltb l.max_bytes (s.pending_bytes + acc.bytes + bytes))
          (fail reports_limit s)
          (enqueue l (if throws then decode_throws else decode_promises) a bytes (reserve bytes s))
          (λ _ live. absurd_closed (fail-shut reports_limit s) live)
          λ _ live.
            let q =
              enqueue-Extends l (if throws then decode_throws else decode_promises) a bytes
                (reserve bytes s) (record { uncancelled = p.uncancelled; busy = p.busy }) live in
            record { plain = q.plain; next = q.next; exact = q.exact }

settle_task-ids :
    (id : ℕ) (failed : Bool) (ts : List Task) → ids (map (settle_task id failed) ts) ≡ ids ts
settle_task-ids id failed [] = refl
settle_task-ids id failed (t ∷ ts) =
    let same : (settle_task id failed t).id ≡ t.id = ground arith in
    rw (same, settle_task-ids id failed ts) refl

complete-Exactly :
    (l : Limits) (k : ℕ) (o : Option ℕ) (failed : Bool) (s : State)
    → Plain s
    → OpenExactly (waiting s) s.next_id (complete l k o failed s)
unfolding complete
complete-Exactly l k none failed s p live = same-Exactly s p
complete-Exactly l k (some id) failed s p live =
    let t : State = record s {
      active = s.active - 1;
      decoding = erase_idx s.decoding k;
      tasks = map (settle_task id failed) s.tasks;
    } in
    let e = settle_task-ids id failed s.tasks in
    let all : every is_uncancelled t.tasks ≡ true =
      every-map is_uncancelled (settle_task id failed) s.tasks (λ u h. ground (arith, h))
        p.uncancelled in
    let q =
      pumped-Exactly l t
        (record { uncancelled = all; busy = λ h. same_ids-empty t.tasks s.tasks e ∙ p.busy h })
        live in
    record {
      plain = q.plain;
      exact = q.exact ∙ ap (waiting_of s.closed s.applying) e;
      next = q.next;
    }

-- The queue when the `apply` that ran is over.
still : State → State
still s = record s { applying = false }

drop_head-Exactly :
    (ts : List Task) (s : State)
    → s.closed ≡ false
    → is_empty ts ≡ false
    → every is_uncancelled ts ≡ true
    → Exactly
        (waiting_of s.closed true (ids ts))
        s.next_id
        (drop_head (still (record s { tasks = ts })))
unfolding drop_head still
drop_head-Exactly [] s live some_task u = absurd_closed refl some_task
drop_head-Exactly (t ∷ ts) s live some_task u =
    let a = release-Silent t (still (record s { tasks = ts })) in
    let (first, rest) = and-true (is_uncancelled t) (every is_uncancelled ts) u in
    record {
      plain = record { uncancelled = rw a.tasks rest; busy = λ h. absurd_closed h a.applying };
      exact = rw (a.nothing, a.tasks, a.applying, a.closed, live) refl;
      next = a.next;
    }

applied-Exactly :
    (failed : Bool) (s : State)
    → Plain s
    → s.closed ≡ false
    → OpenExactly (waiting s) s.next_id (applied failed s)
unfolding applied still
applied-Exactly failed s p was_open =
    let Goal : Turn → Type 0 = OpenExactly (waiting s) s.next_id in
    at_if Goal (not s.applying) _ _ (λ _ _. same-Exactly s p)
      λ h.
        let busy : s.applying ≡ true = ground arith in
        at_if Goal (failed && not (head_cancelled s.tasks)) _ _
          (λ _ live. absurd_closed (fail-shut reports_failure (still s)) live)
          λ _ live.
            let a = drop_head (still s) in
            let b = a >>= apply_ready in
            let f = finish_drains-Silent b.0 in
            let q = drop_head-Exactly s.tasks s was_open (p.busy busy) p.uncancelled in
            let c =
              >>=-Exactly _ _ a apply_ready q
                (apply_ready-Exactly a.0 q.plain (sym f.closed ∙ live)) in
            record {
              plain = record {
                uncancelled = rw f.tasks c.plain.uncancelled;
                busy = λ h. rw f.tasks (c.plain.busy (sym f.applying ∙ h));
              };
              exact =
                  rw
                    (
                      applied_ids-append b.1 (finish_drains b.0).1,
                      f.nothing,
                      append-nil,
                      f.tasks,
                      f.applying,
                      f.closed,
                    )
                    (c.exact ∙ ap (λ (x : Bool). waiting_of s.closed x (ids s.tasks)) (sym busy));
              next = f.next ∙ c.next;
            }

-- No signal of a task is aborted.
abbrev pub stays : Event → Bool
stays (aborts id) = false
stays e = true

-- Whether an event hands a task to the queue.
abbrev pub enqueues : Event → ℕ
enqueues (enqueues_work a) = 1
enqueues (enqueues_chunk acc throws a bytes) = 1
enqueues e = 0

-- How many tasks are handed to the queue.
abbrev pub enqueued : List Event → ℕ
enqueued [] = 0
enqueued (e ∷ es) = enqueues e + enqueued es

step-Extends :
    (l : Limits) (e : Event) (s : State)
    → Plain s
    → s.closed ≡ false
    → stays e ≡ true
    → OpenExtends (enqueues e) s (step l e s)
unfolding step enqueue_ordered_work drain_ordered_work
step-Extends l (enqueues_work a) s p was_open h live = enqueue-Extends l no_decode a 0 s p live
step-Extends l (enqueues_chunk acc throws a bytes) s p was_open h live =
    enqueue_decode_then_ordered-Extends l acc throws a bytes s p live
step-Extends l (decoded k failed) s p was_open h live =
    Exactly-Extends s _ (complete-Exactly l k (get_elem? s.decoding k) failed s p live)
step-Extends l (apply_settles failed) s p was_open h live =
    Exactly-Extends s _ (applied-Exactly failed s p was_open live)
step-Extends l (aborts id) s p was_open h live = absurd_closed h refl
step-Extends l drains s p was_open h live = Exactly-Extends s _ (
    at_if (Exactly (waiting s) s.next_id) (is_empty s.tasks) _ _
      (λ _. record { plain = p; exact = refl; next = refl })
      λ _. record {
        plain = record { uncancelled = p.uncancelled; busy = p.busy };
        exact = refl;
        next = refl;
      })
step-Extends l clears s p was_open h live = absurd_closed (clear-closed s) live

run-closed :
    (l : Limits) (es : List Event) (s : State) → s.closed ≡ true → (run l es s).0.closed ≡ true
unfolding run
run-closed l [] s shut = shut
run-closed l (e ∷ es) s shut = run-closed l es (step l e s).0 (step-closed l e s shut)

run-Extends :
    (l : Limits) (es : List Event) (s : State)
    → Plain s
    → s.closed ≡ false
    → every stays es ≡ true
    → OpenExtends (enqueued es) s (run l es s)
unfolding run
run-Extends l [] s p was_open h live = Exactly-Extends s _ (same-Exactly s p)
run-Extends l (e ∷ es) s p was_open h live =
    let m = step l e s in
    let (first, rest) = and-true (stays e) (every stays es) h in
    elim (Bool-cases m.0.closed) [
      | inl shut ↦ absurd_closed (run-closed l es m.0 shut) live
      | inr still_open ↦
          let a = step-Extends l e s p was_open first still_open in
          >>=-Extends (enqueues e) (enqueued es) s m (run l es) a
            (run-Extends l es m.0 a.plain still_open rest live)
    ]

-- A new queue.
init-Plain : Plain init
unfolding init
init-Plain = record { uncancelled = refl; busy = λ b. absurd_closed b refl }

init-open : init.closed ≡ false
unfolding init
init-open = refl

-- From a new queue, over events in which no task is aborted and after which the queue is open: the
-- tasks applied and, behind them, the tasks that wait are all the tasks enqueued, each once, in the
-- order of their enqueuing.
pub run-exact :
    (l : Limits) (es : List Event)
    → every stays es ≡ true
    → (run l es init).0.closed ≡ false
    → applied_ids (run l es init).1 ++ waiting (run l es init).0 ≡ numbers 0 (enqueued es)
unfolding init
run-exact l es h live = (run-Extends l es init init-Plain init-open h live).exact

-- With room for a decode, from a new queue, over events in which no task is aborted and after which
-- the queue is open, with no decode and no apply under way: the tasks applied are all the tasks
-- enqueued, each once, in the order of their enqueuing.
pub run-refines :
    (l : Limits) (es : List Event)
    → 0 < l.max_parallel
    → every stays es ≡ true
    → (run l es init).0.closed ≡ false
    → (run l es init).0.decoding ≡ []
    → (run l es init).0.applying ≡ false
    → applied_ids (run l es init).1 ≡ numbers 0 (enqueued es)
run-refines l es room h live idle done =
    let r = run l es init in
    let none_left : waiting r.0 ≡ [] =
      ap (λ (ts : List Task). waiting_of r.0.closed r.0.applying (ids ts))
        (run_idle l es room live idle done)
      ∙ waiting_of-nil r.0.closed r.0.applying in
    sym (append-nil (applied_ids r.1))
    ∙ ap (λ (w : List ℕ). applied_ids r.1 ++ w) (sym none_left)
    ∙ run-exact l es h live
