-- ===== src/Decoding/Idle.antt =====
-- parallelChunkDecode.ts: the queue's events, up to the rest in which no task is left.
use plug_node.Base.{
  lt→ltb, ℕ, zero, suc, ◌≡◌, ◌≤◌, ◌<◌, refl, ap, subst, sym, ◌∙◌, inl, inr, Bool, true, false, not,
  ◌&&◌, Option, none, some, List, [], ◌∷◌, map, every, arith, ◌==◌, length, erase_idx, get_elem?,
  is_empty, at_if, and-true,
}
use plug_node.Decoding.Types.{Limits, no_decode, Task, State, reports_failure, Turn, init}
use plug_node.Decoding.{
  ◌>>=◌, release, finish_drains, apply_ready, enqueue_ordered_work, drain_ordered_work, settle_task,
  complete, release_where, cancel_where, cancel, drop_head, head_cancelled, applied, Event,
  enqueues_work, enqueues_chunk, decoded, apply_settles, aborts, drains, clears, step, run,
}
use plug_node.Decoding.Bounds.{run-IsValid-init}
use plug_node.Decoding.Lazy.{clear-closed, drop-closed}
use plug_node.Decoding.Progress.{
  mem, is_fit, is_taken, head_waits, Full, Waits, Moves, shut-Moves, fail-Moves, Same, release-Same,
  finish_drains-Same, tail-Full,
}
use plug_node.Decoding.Alive.{
  Same-Moves, apply_ready-Moves, pumped-Moves, every-map, enqueue-Moves, chunk-Moves,
}

mem-erase :
    (x : ℕ) (xs : List ℕ) (k : ℕ) {y : ℕ}
    → get_elem? xs k ≡ some y
    → (x == y) ≡ false
    → mem x (erase_idx xs k) ≡ mem x xs
mem-erase x [] k e h = refl
mem-erase x (z ∷ xs) zero e h = ground (arith, e, h)
mem-erase x (z ∷ xs) (suc k) e h = rw (mem-erase x xs k e h) refl

settle_task-fit :
    (decoding : List ℕ) (k id : ℕ) (failed : Bool) (t : Task)
    → get_elem? decoding k ≡ some id
    → is_fit decoding t ≡ true
    → is_fit (erase_idx decoding k) (settle_task id failed t) ≡ true
settle_task-fit decoding k id failed t e h =
    at_if (λ (u : Task). is_fit (erase_idx decoding k) u ≡ true) (t.id == id) _ _
      (λ _. ground arith) λ other. ground (arith, h, mem-erase t.id decoding k e other)

complete-Moves :
    (l : Limits) (k : ℕ) (o : Option ℕ) (failed : Bool) (s : State)
    → get_elem? s.decoding k ≡ o
    → Moves l s
    → Moves l (complete l k o failed s).0
unfolding complete
complete-Moves l k none failed s e m = m
complete-Moves l k (some id) failed s e m =
    pumped-Moves l _ λ live. every-settled s.decoding k id failed e s.tasks (m.waits live).covered
  where
    every-settled :
        (decoding : List ℕ) (k id : ℕ) (failed : Bool)
        → get_elem? decoding k ≡ some id
        → (ts : List Task) → every (is_fit decoding) ts ≡ true
        → every (is_fit (erase_idx decoding k)) (map (settle_task id failed) ts) ≡ true
    every-settled decoding k id failed e [] c = refl
    every-settled decoding k id failed e (t ∷ ts) c =
        let (first, rest) = and-true (is_fit decoding t) (every (is_fit decoding) ts) c in
        rw
          (
            settle_task-fit decoding k id failed t e first,
            every-settled decoding k id failed e ts rest,
          )
          refl

release_where-Same : (id : ℕ) (ts : List Task) (s : State) → Same s (release_where id ts s).0
unfolding release_where
release_where-Same id [] s = ground arith
release_where-Same id (t ∷ ts) s =
    ground (
      arith,
      release-Same t s,
      release_where-Same id ts (release t s).0,
      release_where-Same id ts s,
    )

mapped-Full :
    (l : Limits) (s r : State) (id : ℕ)
    → r.active ≡ s.active
    → Full l s s.tasks
    → Full l r (map (cancel_where id) s.tasks)
mapped-Full l s r id e (inl all) =
    inl (every-map is_taken (cancel_where id) s.tasks (λ t h. ground (arith, h)) all)
mapped-Full l s r id e (inr busy) = inr (omega (arith, e, busy))

cancel-Moves : (l : Limits) (id : ℕ) (s : State) → Moves l s → Moves l (cancel id s).0
unfolding cancel
cancel-Moves l id s m =
    let r = (release_where id s.tasks s).0 in
    let a = release_where-Same id s.tasks s in
    let t : State = record r { tasks = map (cancel_where id) s.tasks } in
    apply_ready-Moves l t λ live.
      let w = m.waits (sym a.closed ∙ live) in
      record {
        covered =
            subst (λ d. every (is_fit d) t.tasks ≡ true) (sym a.decoding)
              (every-map (is_fit s.decoding) (cancel_where id) s.tasks (λ u h. ground (arith, h))
                w.covered);
        full = mapped-Full l s t id a.active w.full;
      }

drop-Waits :
    (l : Limits) (ts : List Task) (s : State)
    → every (is_fit s.decoding) ts ≡ true
    → Full l s ts
    → Waits l (drop_head (record s { tasks = ts })).0
unfolding drop_head
drop-Waits l [] s c f = record { covered = refl; full = inl refl }
drop-Waits l (t ∷ ts) s c f =
    let a = release-Same t (record s { tasks = ts }) in
    record {
      covered = rw (a.decoding, a.tasks) (ground (arith, c));
      full =
          subst (Full l (release t (record s { tasks = ts })).0) (sym a.tasks)
            (tail-Full l t ts s (release t (record s { tasks = ts })).0 a.active f);
    }

applied-Moves : (l : Limits) (failed : Bool) (s : State) → Moves l s → Moves l (applied failed s).0
unfolding applied
applied-Moves l failed s m =
    let still : State = record s { applying = false } in
    let a = drop_head still in
    let b = a >>= apply_ready in
    at_if (λ (r : Turn). Moves l r.0) (not s.applying) _ _ (λ _. m)
      λ _.
        at_if (λ (r : Turn). Moves l r.0) (failed && not (head_cancelled s.tasks)) _ _
          (λ _. fail-Moves l reports_failure still)
          λ _. Same-Moves l b.0 (finish_drains b.0).0 (finish_drains-Same b.0) (
            apply_ready-Moves l a.0 λ live.
              let w = m.waits (sym (drop-closed s.tasks still) ∙ live) in
              drop-Waits l s.tasks still w.covered w.full)

step-Moves : (l : Limits) (e : Event) (s : State) → Moves l s → Moves l (step l e s).0
unfolding step enqueue_ordered_work drain_ordered_work
step-Moves l (enqueues_work a) s m = enqueue-Moves l no_decode a 0 s m
step-Moves l (enqueues_chunk acc throws a bytes) s m = chunk-Moves l acc throws a bytes s m
step-Moves l (decoded k failed) s m = complete-Moves l k (get_elem? s.decoding k) failed s refl m
step-Moves l (apply_settles failed) s m = applied-Moves l failed s m
step-Moves l (aborts id) s m = cancel-Moves l id s m
step-Moves l drains s m =
    at_if (λ (r : Turn). Moves l r.0) (is_empty s.tasks) _ _ (λ _. m)
      λ _.
        Same-Moves l s _
          (record { active = refl; decoding = refl; closed = refl; applying = refl; tasks = refl })
          m
step-Moves l clears s m = shut-Moves l _ (clear-closed s)

run-Moves : (l : Limits) (es : List Event) (s : State) → Moves l s → Moves l (run l es s).0
unfolding run
run-Moves l [] s m = m
run-Moves l (e ∷ es) s m = run-Moves l es (step l e s).0 (step-Moves l e s m)

-- With nothing under way, the head of tasks that are all taken is ready.
idle_head :
    (ts : List Task)
    → every (is_fit []) ts ≡ true
    → every is_taken ts ≡ true
    → head_waits ts ≡ true
    → ts ≡ []
idle_head [] c f h = refl
idle_head (t ∷ ts) c f h = ground (arith, c, f, h)

init-Moves : (l : Limits) → Moves l init
unfolding init
init-Moves l = record {
  waits = λ _. record { covered = refl; full = inl refl };
  headed = λ _. inr refl;
}

busy_idle : {P : Type 0} (s : State) → s.applying ≡ true → s.applying ≡ false → P
busy_idle s p q = cc

absurd_bool : {P : Type 0} → false ≡ true → P
absurd_bool h = cc

none_busy :
    {P : Type 0} (l : Limits) (s : State)
    → s.active ≡ 0
    → l.max_parallel ≤ s.active
    → 0 < l.max_parallel
    → P
none_busy l s e h k = absurd_bool (lt→ltb 0 0 (omega (arith, e, h, k)))

-- A queue that is open, with no decode under way and no apply under way, has no task left, whatever
-- the events since it was new: it never waits without something to wait for.
pub run_idle :
    (l : Limits) (es : List Event)
    → 0 < l.max_parallel
    → (run l es init).0.closed ≡ false
    → (run l es init).0.decoding ≡ []
    → (run l es init).0.applying ≡ false
    → (run l es init).0.tasks ≡ []
run_idle l es room live idle still =
    let s = (run l es init).0 in
    let m = run-Moves l es init (init-Moves l) in
    let w = m.waits live in
    let v = run-IsValid-init l es in
    elim w.full [
      | inl all ↦
          idle_head s.tasks (subst (λ d. every (is_fit d) s.tasks ≡ true) idle w.covered) all
            (elim (m.headed live) [ inl busy ↦ busy_idle s busy still | inr waits ↦ waits ])
      | inr busy ↦ none_busy l s (v.counted ∙ ap length idle) busy room
    ]
