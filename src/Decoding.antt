-- ===== src/Decoding.antt =====
-- parallelChunkDecode.ts: the operations of the queue. A step runs a call, or the reaction to a
-- promise or an abort signal, to its end. `apply` and `decode` do not call the queue back while they
-- run. Each caller of `pump` runs `applyReady` next, and so does a `decode` that throws, at once:
-- it is run once here, behind the loop.
pub mod Types
pub mod Line
pub mod Turns
pub mod Order
pub mod Bounds
pub mod Lazy
pub mod Progress
pub mod Alive
pub mod Idle
pub mod Exact
pub mod Whole
pub mod Lossless
mod Tests
use plug_node.Base.{
  ℕ, zero, suc, ◌+◌, ◌-◌, max, Bool, true, false, not, ◌&&◌, ◌||◌, Option, none, some, List, [],
  ◌∷◌, ◌++◌, map, ltb, leb, ◌==◌, if◌then◌else◌, get_elem?, erase_idx, is_empty,
}
use Types.{
  Limits, Decode, no_decode, decode_throws, decode_promises, Apply, apply_returns, apply_throws,
  apply_promises, Task, State, Effect, starts, applies, resolves, reports_failure, reports_limit,
  drained, Turn,
}

-- The limits of the options, where they are accepted.
unfoldable pub check_limits : Limits → Bool
check_limits l =
    ltb 0 l.max_parallel && (ltb 0 l.max_frames && (ltb 0 l.max_bytes && leb l.max_parallel 8))

-- One part of a handler after another: the effects follow in order.
infixl 5 ◌>>=◌
abbrev pub ◌>>=◌ : Turn → (State → Turn) → Turn
m >>= f = let r = f m.0 in (r.0, m.1 ++ r.1)

abbrev pub has_decode : Task → Bool
has_decode t = elim t.decode [ no_decode ↦ false | _ ↦ true ]

-- `release`, without the mark on the task.
unfoldable pub release : Task → State → Turn
release t s =
    if t.released
    then (s, [])
    else if has_decode t
    then (
      record s { pending_frames = s.pending_frames - 1; pending_bytes = s.pending_bytes - t.bytes },
      resolves t.id ∷ [],
    )
    else (s, resolves t.id ∷ [])

unfoldable pub drained_effects : ℕ → List Effect
drained_effects zero = []
drained_effects (suc n) = drained ∷ drained_effects n

-- `finishDrains`
unfoldable pub finish_drains : State → Turn
finish_drains s =
    if is_empty s.tasks
    then (record s { waiting_drains = 0 }, drained_effects s.waiting_drains)
    else (s, [])

unfoldable pub release_all : List Task → State → Turn
release_all [] s = (s, [])
release_all (t ∷ ts) s = release t s >>= release_all ts

-- `clearPendingDecodes`
unfoldable pub clear_pending_decodes : State → Turn
clear_pending_decodes s =
    if s.closed
    then (s, [])
    else release_all s.tasks (record s { closed = true; tasks = [] }) >>= finish_drains

-- `fail`; `report` is what `onError` is told.
unfoldable pub fail : Effect → State → Turn
fail report s = if s.closed then (s, []) else clear_pending_decodes s >>= (λ s. (s, report ∷ []))

-- The loop of `applyReady`, with the tasks that are left.
unfoldable pub apply_loop : List Task → State → Turn
apply_loop [] s = (record s { tasks = [] }, [])
apply_loop (t ∷ ts) s =
    let next = release t s >>= apply_loop ts in
    let here = record s { tasks = t ∷ ts } in
    if not t.ready
    then (here, [])
    else if t.cancelled
    then next
    else if t.failed
    then fail reports_failure here
    else elim t.apply [
      | apply_returns ↦ (next.0, applies t.id ∷ next.1)
      | apply_throws ↦ let r = fail reports_failure here in (r.0, applies t.id ∷ r.1)
      | apply_promises ↦ (record here { applying = true }, applies t.id ∷ [])
    ]

-- `applyReady`
unfoldable pub apply_ready : State → Turn
apply_ready s = if s.applying || s.closed then (s, []) else apply_loop s.tasks s >>= finish_drains

-- One round of the loop of `pump`: the task as it is taken, and the state with the call of `decode`.
unfoldable pub take_task : Task → Task
take_task t = elim t.decode [
  | no_decode ↦ record t { taken = true }
  | decode_throws ↦
      if t.cancelled
      then record t { taken = true }
      else record t { taken = true; ready = true; failed = true }
  | decode_promises ↦ record t { taken = true }
]

unfoldable pub begin_decode : Task → State → Turn
begin_decode t s = if t.cancelled then (s, []) else elim t.decode [
  | no_decode ↦ (s, [])
  | decode_throws ↦ (record s { decodes = s.decodes + 1 }, starts t.id ∷ [])
  | decode_promises ↦ (
    record s { active = s.active + 1; decodes = s.decodes + 1; decoding = s.decoding ++ t.id ∷ [] },
    starts t.id ∷ [],
  )
]

unfoldable pub pump_loop : Limits → List Task → State → List Task × Turn
pump_loop l [] s = ([], (s, []))
pump_loop l (t ∷ ts) s =
    let passed = pump_loop l ts s in
    let begun = begin_decode t s in
    let later = pump_loop l ts begun.0 in
    if t.taken
    then (t ∷ passed.0, passed.1)
    else if ltb s.active l.max_parallel
    then (take_task t ∷ later.0, (later.1.0, begun.1 ++ later.1.1))
    else (t ∷ ts, (s, []))

unfoldable pub pump : Limits → State → Turn
pump l s =
    let r = pump_loop l s.tasks s in
    if s.closed then (s, []) else (record r.1.0 { tasks = r.0 }, r.1.1)

-- The task that `enqueue` makes.
unfoldable pub new_task : ℕ → Decode → Apply → ℕ → Task
new_task id decode apply bytes = record {
  id = id;
  decode = decode;
  apply = apply;
  bytes = bytes;
  taken = false;
  ready = elim decode [ no_decode ↦ true | _ ↦ false ];
  cancelled = false;
  released = false;
  failed = false;
}

-- The private `enqueue`.
unfoldable pub enqueue : Limits → Decode → Apply → ℕ → State → Turn
enqueue l decode apply bytes s =
    if s.closed
    then (s, [])
    else pump l (record s {
      next_id = s.next_id + 1;
      tasks = s.tasks ++ new_task s.next_id decode apply bytes ∷ [];
    })
      >>= apply_ready

-- `enqueueOrderedWork`
unfoldable pub enqueue_ordered_work : Limits → Apply → State → Turn
enqueue_ordered_work l apply s = enqueue l no_decode apply 0 s

-- What `accumulated` answers.
pub record Accumulated : Type 0 where
  pub frames : ℕ
  pub bytes : ℕ

unfoldable pub reserve : ℕ → State → State
reserve bytes s = record s {
  pending_frames = s.pending_frames + 1;
  pending_bytes = s.pending_bytes + bytes;
  peak_pending_frames = max s.peak_pending_frames (s.pending_frames + 1);
  peak_pending_bytes = max s.peak_pending_bytes (s.pending_bytes + bytes);
}

-- `enqueueDecodeThenOrdered`, for a signal that is not aborted.
unfoldable pub enqueue_decode_then_ordered :
    Limits → Accumulated → (throws : Bool) → Apply → ℕ → State → Turn
enqueue_decode_then_ordered l accumulated throws apply bytes s =
    if s.closed
    then (s, [])
    else if ltb l.max_frames (s.pending_frames + accumulated.frames + 1)
        || ltb l.max_bytes (s.pending_bytes + accumulated.bytes + bytes)
    then fail reports_limit s
    else enqueue l (if throws then decode_throws else decode_promises) apply bytes (reserve bytes s)

-- `drainOrderedWork`
unfoldable pub drain_ordered_work : State → Turn
drain_ordered_work s =
    if is_empty s.tasks
    then (s, drained ∷ [])
    else (record s { waiting_drains = s.waiting_drains + 1 }, [])

abbrev pub settle_task : ℕ → Bool → Task → Task
settle_task id failed t = if t.id == id then record t { ready = true; failed = failed } else t

-- `complete`, for the task whose promise settles.
unfoldable pub complete : Limits → ℕ → Option ℕ → Bool → State → Turn
complete l k none failed s = (s, [])
complete l k (some id) failed s =
    pump l (record s {
      active = s.active - 1;
      decoding = erase_idx s.decoding k;
      tasks = map (settle_task id failed) s.tasks;
    })
    >>= apply_ready

abbrev pub cancel_task : Task → Task
cancel_task t = record t { cancelled = true; ready = true; released = true }

unfoldable pub release_where : ℕ → List Task → State → Turn
release_where id [] s = (s, [])
release_where id (t ∷ ts) s =
    if t.id == id then release t s >>= release_where id ts else release_where id ts s

abbrev pub cancel_where : ℕ → Task → Task
cancel_where id t = if t.id == id then cancel_task t else t

-- `cancel` of a task, when its signal is aborted.
unfoldable pub cancel : ℕ → State → Turn
cancel id s =
    let r = release_where id s.tasks s in
    (record r.0 { tasks = map (cancel_where id) s.tasks }, r.1) >>= apply_ready

unfoldable pub drop_head : State → Turn
drop_head s = elim s.tasks [ [] ↦ (s, []) | t ∷ ts ↦ release t (record s { tasks = ts }) ]

abbrev pub head_cancelled : List Task → Bool
head_cancelled [] = true
head_cancelled (t ∷ ts) = t.cancelled

-- The promise of the `apply` that runs settles. Its task is the head, or was cleared.
unfoldable pub applied : (failed : Bool) → State → Turn
applied failed s =
    if not s.applying
    then (s, [])
    else (let still = record s { applying = false } in
        if failed && not (head_cancelled s.tasks)
        then fail reports_failure still
        else drop_head still >>= apply_ready >>= finish_drains)

pub data Event : Type 0 where
  enqueues_work : Apply → Event
  enqueues_chunk : Accumulated → (throws : Bool) → Apply → (bytes : ℕ) → Event
  decoded : (k : ℕ) → (failed : Bool) → Event
  apply_settles : (failed : Bool) → Event
  aborts : (id : ℕ) → Event
  drains clears : Event

unfoldable pub step : Limits → Event → State → Turn
step l (enqueues_work apply) s = enqueue_ordered_work l apply s
step l (enqueues_chunk acc throws apply bytes) s =
    enqueue_decode_then_ordered l acc throws apply bytes s
step l (decoded k failed) s = complete l k (get_elem? s.decoding k) failed s
step l (apply_settles failed) s = applied failed s
step l (aborts id) s = cancel id s
step l drains s = drain_ordered_work s
step l clears s = clear_pending_decodes s

unfoldable pub run : Limits → List Event → State → Turn
run l [] s = (s, [])
run l (e ∷ es) s = step l e s >>= run l es
