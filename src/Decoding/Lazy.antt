-- ===== src/Decoding/Lazy.antt =====
-- parallelChunkDecode.ts: `createLazyParallelChunkDecodeQueue`, a queue that is made when it is first
-- used. A reaction to a promise or an abort signal goes to the queue that made it, if there is one.
use plug_node.Base.{
  ℕ, ◌≡◌, refl, subst, sym, ◌∙◌, Bool, true, false, Option, none, some, List, [], ◌∷◌, ◌++◌, arith,
  if◌then◌else◌, get_elem?,
}
use plug_node.Decoding.Types.{Limits, Apply, Task, State, Effect, drained, Turn, init}
use plug_node.Decoding.{
  release, release_all, finish_drains, drained_effects, clear_pending_decodes, apply_loop,
  apply_ready, enqueue, enqueue_ordered_work, Accumulated, enqueue_decode_then_ordered,
  drain_ordered_work, complete, release_where, cancel, applied, Event, enqueues_work,
  enqueues_chunk, decoded, apply_settles, aborts, drains, clears, step, run, pump, drop_head, fail,
}

pub record Lazy : Type 0 where
  pub queue : Option State
  pub closed : Bool

abbrev pub LazyTurn : Type 0
LazyTurn = Lazy × List Effect

unfoldable pub lazy_init : Lazy
lazy_init = record { queue = none; closed = false }

-- `getQueue`
unfoldable pub get_queue : Lazy → State
get_queue z = elim z.queue [ none ↦ init | some s ↦ s ]

abbrev pub kept : Lazy → Turn → LazyTurn
kept z r = (record z { queue = some r.0 }, r.1)

-- A call of the queue, if there is one.
abbrev pub at_queue : Lazy → (State → Turn) → List Effect → LazyTurn
at_queue z f missing = elim z.queue [ none ↦ (z, missing) | some s ↦ kept z (f s) ]

unfoldable pub lazy_step : Limits → Event → Lazy → LazyTurn
lazy_step l (enqueues_work a) z =
    if z.closed then (z, []) else kept z (enqueue_ordered_work l a (get_queue z))
lazy_step l (enqueues_chunk acc throws a bytes) z =
    if z.closed
    then (z, [])
    else kept z (enqueue_decode_then_ordered l acc throws a bytes (get_queue z))
lazy_step l drains z = at_queue z drain_ordered_work (drained ∷ [])
lazy_step l clears z = at_queue (record z { closed = true }) clear_pending_decodes []
lazy_step l (decoded k failed) z = at_queue z (step l (decoded k failed)) []
lazy_step l (apply_settles failed) z = at_queue z (step l (apply_settles failed)) []
lazy_step l (aborts id) z = at_queue z (step l (aborts id)) []

unfoldable pub lazy_run : Limits → List Event → Lazy → LazyTurn
lazy_run l [] z = (z, [])
lazy_run l (e ∷ es) z = let m = lazy_step l e z in let r = lazy_run l es m.0 in (r.0, m.1 ++ r.1)

-- A queue that is closed while it is new.
unused : State
unused = record init { closed = true }

-- Which queue a lazy one stands for.
data Stands : Lazy → State → Type 0 where
  fresh : Stands (record { queue = none; closed = false }) init
  unmade : Stands (record { queue = none; closed = true }) unused
  made : (s : State) → Stands (record { queue = some s; closed = false }) s
  ended : (s : State) → s.closed ≡ true → Stands (record { queue = some s; closed = true }) s

-- A step of both, with the same effects.
record Agrees (m : LazyTurn) (r : Turn) : Type 0 where
  stands : Stands m.0 r.0
  same : m.1 ≡ r.1

made-Agrees : (r : Turn) → Agrees (record { queue = some r.0; closed = false }, r.1) r
made-Agrees r = record { stands = made r.0; same = refl }

release-closed : (t : Task) (s : State) → (release t s).0.closed ≡ s.closed
unfolding release
release-closed t s = ground arith

pub drop-closed :
    (ts : List Task) (s : State) → (drop_head (record s { tasks = ts })).0.closed ≡ s.closed
unfolding drop_head
drop-closed [] s = refl
drop-closed (t ∷ ts) s = release-closed t (record s { tasks = ts })

release_where-closed :
    (id : ℕ) (ts : List Task) (s : State) → (release_where id ts s).0.closed ≡ s.closed
unfolding release_where
release_where-closed id [] s = refl
release_where-closed id (t ∷ ts) s = ground (
  arith,
  release-closed t s,
  release_where-closed id ts (release t s).0,
  release_where-closed id ts s,
)

finish_drains-closed : (s : State) → (finish_drains s).0.closed ≡ s.closed
unfolding finish_drains
finish_drains-closed s = ground arith

complete-closed :
    (l : Limits) (k : ℕ) (o : Option ℕ) (failed : Bool) (s : State)
    → s.closed ≡ true
    → (complete l k o failed s).0.closed ≡ true
unfolding complete pump apply_ready
complete-closed l k none failed s shut = shut
complete-closed l k (some id) failed s shut = ground arith

applied-closed : (failed : Bool) (s : State) → s.closed ≡ true → (applied failed s).0.closed ≡ true
unfolding applied apply_ready fail
applied-closed failed s shut =
    let still : State = record s { applying = false } in
    ground (arith, drop-closed s.tasks still, finish_drains-closed (drop_head still).0)

-- Once closed, a queue stays closed, and takes no work.
pub step-closed :
    (l : Limits) (e : Event) (s : State) → s.closed ≡ true → (step l e s).0.closed ≡ true
unfolding step enqueue_ordered_work enqueue enqueue_decode_then_ordered drain_ordered_work cancel
    apply_ready clear_pending_decodes
step-closed l (decoded k failed) s shut = complete-closed l k (get_elem? s.decoding k) failed s shut
step-closed l (apply_settles failed) s shut = applied-closed failed s shut
step-closed l (aborts id) s shut = ground (arith, release_where-closed id s.tasks s)
step-closed l (enqueues_work a) s shut = ground arith
step-closed l (enqueues_chunk acc throws a bytes) s shut = ground arith
step-closed l drains s shut = ground arith
step-closed l clears s shut = ground arith

enqueue_ordered_work-closed :
    (l : Limits) (a : Apply) (s : State) → s.closed ≡ true → enqueue_ordered_work l a s ≡ (s, [])
unfolding enqueue_ordered_work enqueue
enqueue_ordered_work-closed l a s shut = ground arith

enqueue_decode_then_ordered-closed :
    (l : Limits) (acc : Accumulated) (throws : Bool) (a : Apply) (bytes : ℕ) (s : State)
    → s.closed ≡ true
    → enqueue_decode_then_ordered l acc throws a bytes s ≡ (s, [])
unfolding enqueue_decode_then_ordered
enqueue_decode_then_ordered-closed l acc throws a bytes s shut = ground arith

release_all-closed : (ts : List Task) (s : State) → (release_all ts s).0.closed ≡ s.closed
unfolding release_all
release_all-closed [] s = refl
release_all-closed (t ∷ ts) s = release_all-closed ts (release t s).0 ∙ release-closed t s

pub clear-closed : (s : State) → (clear_pending_decodes s).0.closed ≡ true
unfolding clear_pending_decodes
clear-closed s =
    let emptied : State = record s { closed = true; tasks = [] } in
    ground (
      arith,
      release_all-closed s.tasks emptied,
      finish_drains-closed (release_all s.tasks emptied).0,
    )

ended-Agrees :
    (r : Turn) → r.0.closed ≡ true → Agrees (record { queue = some r.0; closed = true }, r.1) r
ended-Agrees r shut = record { stands = ended r.0 shut; same = refl }

fresh-Agrees : Agrees (record { queue = none; closed = false }, []) (init, [])
fresh-Agrees = record { stands = fresh; same = refl }

unmade-Agrees : Agrees (record { queue = none; closed = true }, []) (unused, [])
unmade-Agrees = record { stands = unmade; same = refl }

step-Agrees :
    (l : Limits) (e : Event) {z : Lazy} {s : State}
    → Stands z s
    → Agrees (lazy_step l e z) (step l e s)
unfolding lazy_step step get_queue init unused release_where cancel apply_ready apply_loop
    finish_drains drained_effects applied drop_head complete drain_ordered_work
    clear_pending_decodes release_all enqueue_ordered_work enqueue enqueue_decode_then_ordered
step-Agrees l (enqueues_work a) fresh = made-Agrees _
step-Agrees l (enqueues_chunk acc throws a bytes) fresh = made-Agrees _
step-Agrees l drains fresh = record { stands = fresh; same = refl }
step-Agrees l clears fresh = unmade-Agrees
step-Agrees l (decoded k failed) fresh = fresh-Agrees
step-Agrees l (apply_settles failed) fresh = fresh-Agrees
step-Agrees l (aborts id) fresh = fresh-Agrees
step-Agrees l (enqueues_work a) unmade = unmade-Agrees
step-Agrees l (enqueues_chunk acc throws a bytes) unmade = unmade-Agrees
step-Agrees l drains unmade = record { stands = unmade; same = refl }
step-Agrees l clears unmade = unmade-Agrees
step-Agrees l (decoded k failed) unmade = unmade-Agrees
step-Agrees l (apply_settles failed) unmade = unmade-Agrees
step-Agrees l (aborts id) unmade = unmade-Agrees
step-Agrees l clears (made s) = ended-Agrees (clear_pending_decodes s) (clear-closed s)
step-Agrees l (enqueues_work a) (made s) = made-Agrees _
step-Agrees l (enqueues_chunk acc throws a bytes) (made s) = made-Agrees _
step-Agrees l drains (made s) = made-Agrees _
step-Agrees l (decoded k failed) (made s) = made-Agrees _
step-Agrees l (apply_settles failed) (made s) = made-Agrees _
step-Agrees l (aborts id) (made s) = made-Agrees _
step-Agrees l (enqueues_work a) (ended s c) =
    subst (Agrees (record { queue = some s; closed = true }, []))
      (sym (enqueue_ordered_work-closed l a s c)) (ended-Agrees (s, []) c)
step-Agrees l (enqueues_chunk acc throws a bytes) (ended s c) =
    subst (Agrees (record { queue = some s; closed = true }, []))
      (sym (enqueue_decode_then_ordered-closed l acc throws a bytes s c)) (ended-Agrees (s, []) c)
step-Agrees l e (ended s c) = ended-Agrees (step l e s) (step-closed l e s c)

run-Agrees :
    (l : Limits) (es : List Event) {z : Lazy} {s : State}
    → Stands z s
    → (lazy_run l es z).1 ≡ (run l es s).1
unfolding lazy_run run
run-Agrees l [] st = refl
run-Agrees l (e ∷ es) st = let a = step-Agrees l e st in rw (a.same, run-Agrees l es a.stands) refl

-- From the start, whatever the events: a queue that is made when it is first used does what a queue
-- that is made at once does, effect by effect.
pub lazy_run-run : (l : Limits) (es : List Event) → (lazy_run l es lazy_init).1 ≡ (run l es init).1
unfolding lazy_init
lazy_run-run l es = run-Agrees l es fresh
