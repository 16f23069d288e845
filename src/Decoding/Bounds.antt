-- ===== src/Decoding/Bounds.antt =====
-- parallelChunkDecode.ts: what the queue holds at once.
use plug_node.Base.{
  length-erase_idx, at_if, ℕ, ◌+◌, ◌≡◌, ◌≤◌, ◌<◌, ap, subst, sym, inl, inr, Bool, true, false, List,
  [], ◌∷◌, map, arith, ◌∙◌, ltb, ltb→lt, if◌then◌else◌, Option-cases, ◌||◌, length, length-append,
  get_elem?,
}
use plug_node.Decoding.Types.{
  Limits, Decode, no_decode, decode_throws, decode_promises, Apply, Task, State, Effect,
  reports_failure, reports_limit, Turn, init,
}
use plug_node.Decoding.{
  ◌>>=◌, release, finish_drains, release_all, clear_pending_decodes, fail, apply_loop, apply_ready,
  begin_decode, pump_loop, pump, enqueue, enqueue_ordered_work, Accumulated, reserve,
  enqueue_decode_then_ordered, drain_ordered_work, complete, release_where, cancel_where, cancel,
  drop_head, applied, Event, enqueues_work, enqueues_chunk, decoded, apply_settles, aborts, drains,
  clears, step, run,
}

-- The queue within its limits.
pub record IsValid (l : Limits) (s : State) : Type 0 where
  pub counted : s.active ≡ length s.decoding
  pub parallel : s.active ≤ l.max_parallel
  pub frames : s.pending_frames ≤ l.max_frames
  pub bytes : s.pending_bytes ≤ l.max_bytes

-- A turn that decodes as before, and reserves no more.
record Keeps (s t : State) : Type 0 where
  active : t.active ≡ s.active
  decoding : t.decoding ≡ s.decoding
  frames : t.pending_frames ≤ s.pending_frames
  bytes : t.pending_bytes ≤ s.pending_bytes

release-Keeps : (t : Task) (s : State) → Keeps s (release t s).0
unfolding release
release-Keeps t s = ground arith

finish_drains-Keeps : (s : State) → Keeps s (finish_drains s).0
unfolding finish_drains
finish_drains-Keeps s = ground arith

release_all-Keeps : (ts : List Task) (s : State) → Keeps s (release_all ts s).0
unfolding release_all
release_all-Keeps [] s = ground arith
release_all-Keeps (t ∷ ts) s =
    ground (arith, release-Keeps t s, release_all-Keeps ts (release t s).0)

clear-Keeps : (s : State) → Keeps s (clear_pending_decodes s).0
unfolding clear_pending_decodes
clear-Keeps s =
    let r = release_all s.tasks (record s { closed = true; tasks = [] }) in
    ground (
      arith,
      release_all-Keeps s.tasks (record s { closed = true; tasks = [] }),
      finish_drains-Keeps r.0,
    )

fail-Keeps : (report : Effect) (s : State) → Keeps s (fail report s).0
unfolding fail
fail-Keeps report s = ground (arith, clear-Keeps s)

apply_loop-Keeps : (ts : List Task) (s : State) → Keeps s (apply_loop ts s).0
unfolding apply_loop
apply_loop-Keeps [] s = ground arith
apply_loop-Keeps (t ∷ ts) s = ground (
  arith,
  release-Keeps t s,
  apply_loop-Keeps ts (release t s).0,
  fail-Keeps reports_failure (record s { tasks = t ∷ ts }),
)

apply_ready-Keeps : (s : State) → Keeps s (apply_ready s).0
unfolding apply_ready
apply_ready-Keeps s =
    ground (arith, apply_loop-Keeps s.tasks s, finish_drains-Keeps (apply_loop s.tasks s).0)

Keeps-IsValid : (l : Limits) {s t : State} → IsValid l s → Keeps s t → IsValid l t
Keeps-IsValid l v k = record {
  counted = k.active ∙ v.counted ∙ ap length (sym k.decoding);
  parallel = omega (arith, v.parallel, k.active);
  frames = omega (arith, v.frames, k.frames);
  bytes = omega (arith, v.bytes, k.bytes);
}

begin_decode-IsValid :
    (l : Limits) (t : Task) (s : State)
    → IsValid l s
    → s.active < l.max_parallel
    → IsValid l (begin_decode t s).0
unfolding begin_decode
begin_decode-IsValid l t s v room = ground (arith, length-append s.decoding (t.id ∷ []))

pump_loop-IsValid :
    (l : Limits) (ts : List Task) (s : State) → IsValid l s → IsValid l (pump_loop l ts s).1.0
unfolding pump_loop
pump_loop-IsValid l [] s v = v
pump_loop-IsValid l (t ∷ ts) s v =
    let valid : List Task × Turn → Type 0 = λ r. IsValid l r.1.0 in
    at_if valid t.taken _ _ (λ _. pump_loop-IsValid l ts s v)
      λ _.
        at_if valid (ltb s.active l.max_parallel) _ _
          (λ room.
            pump_loop-IsValid l ts (begin_decode t s).0
              (begin_decode-IsValid l t s v (ltb→lt _ _ room)))
          λ _. v

pump-IsValid : (l : Limits) (s : State) → IsValid l s → IsValid l (pump l s).0
unfolding pump
pump-IsValid l s v =
    at_if (λ (r : Turn). IsValid l r.0) s.closed _ _ (λ _. v)
      λ _.
        let w = pump_loop-IsValid l s.tasks s v in
        record { counted = w.counted; parallel = w.parallel; frames = w.frames; bytes = w.bytes }

pump_then-IsValid : (l : Limits) (s : State) → IsValid l s → IsValid l (pump l s >>= apply_ready).0
pump_then-IsValid l s v = Keeps-IsValid l (pump-IsValid l s v) (apply_ready-Keeps (pump l s).0)

enqueue-IsValid :
    (l : Limits) (d : Decode) (a : Apply) (bytes : ℕ) (s : State)
    → IsValid l s
    → IsValid l (enqueue l d a bytes s).0
unfolding enqueue
enqueue-IsValid l d a bytes s v =
    at_if (λ (r : Turn). IsValid l r.0) s.closed _ _ (λ _. v)
      λ _.
        pump_then-IsValid l _ (record {
          counted = v.counted;
          parallel = v.parallel;
          frames = v.frames;
          bytes = v.bytes;
        })

enqueue_decode_then_ordered-IsValid :
    (l : Limits) (acc : Accumulated) (throws : Bool) (a : Apply) (bytes : ℕ) (s : State)
    → IsValid l s
    → IsValid l (enqueue_decode_then_ordered l acc throws a bytes s).0
unfolding enqueue_decode_then_ordered reserve
enqueue_decode_then_ordered-IsValid l acc throws a bytes s v =
    at_if (λ (r : Turn). IsValid l r.0) s.closed _ _ (λ _. v)
      λ _.
        at_if (λ (r : Turn). IsValid l r.0)
          (ltb l.max_frames (s.pending_frames + acc.frames + 1)
            || ltb l.max_bytes (s.pending_bytes + acc.bytes + bytes))
          _
          (enqueue l (if throws then decode_throws else decode_promises) a bytes (reserve bytes s))
          (λ _. Keeps-IsValid l v (fail-Keeps reports_limit s))
          λ fits. enqueue-IsValid l _ a bytes (reserve bytes s) (ground (arith, v, fits))

complete-IsValid :
    (l : Limits) (k : ℕ) (failed : Bool) (s : State)
    → IsValid l s
    → IsValid l (complete l k (get_elem? s.decoding k) failed s).0
unfolding complete
complete-IsValid l k failed s v = elim (Option-cases (get_elem? s.decoding k)) [
  | inl missing ↦ subst (λ o. IsValid l (complete l k o failed s).0) (sym missing) v
  | inr (id, found) ↦
      subst (λ o. IsValid l (complete l k o failed s).0) (sym found)
        (pump_then-IsValid l _ (record {
          counted = omega (arith, v.counted, length-erase_idx s.decoding k found);
          parallel = omega (arith, v.parallel);
          frames = v.frames;
          bytes = v.bytes;
        }))
]

release_where-Keeps : (id : ℕ) (ts : List Task) (s : State) → Keeps s (release_where id ts s).0
unfolding release_where
release_where-Keeps id [] s = ground arith
release_where-Keeps id (t ∷ ts) s = ground (
  arith,
  release-Keeps t s,
  release_where-Keeps id ts (release t s).0,
  release_where-Keeps id ts s,
)

cancel-Keeps : (id : ℕ) (s : State) → Keeps s (cancel id s).0
unfolding cancel
cancel-Keeps id s =
    let r = release_where id s.tasks s in
    ground (
      arith,
      release_where-Keeps id s.tasks s,
      apply_ready-Keeps (record r.0 { tasks = map (cancel_where id) s.tasks }),
    )

drop-Keeps : (ts : List Task) (s : State) → Keeps s (drop_head (record s { tasks = ts })).0
unfolding drop_head
drop-Keeps [] s = ground arith
drop-Keeps (t ∷ ts) s = ground (arith, release-Keeps t (record s { tasks = ts }))

drop_head-Keeps : (s : State) → Keeps s (drop_head s).0
drop_head-Keeps s = drop-Keeps s.tasks s

applied-Keeps : (failed : Bool) (s : State) → Keeps s (applied failed s).0
unfolding applied
applied-Keeps failed s =
    let still : State = record s { applying = false } in
    let a = drop_head still in
    let b = apply_ready a.0 in
    ground (
      arith,
      fail-Keeps reports_failure still,
      drop_head-Keeps still,
      apply_ready-Keeps a.0,
      finish_drains-Keeps b.0,
    )

step-IsValid : (l : Limits) (e : Event) (s : State) → IsValid l s → IsValid l (step l e s).0
unfolding step enqueue_ordered_work drain_ordered_work
step-IsValid l (enqueues_work a) s v = enqueue-IsValid l no_decode a 0 s v
step-IsValid l (enqueues_chunk acc throws a bytes) s v =
    enqueue_decode_then_ordered-IsValid l acc throws a bytes s v
step-IsValid l (decoded k failed) s v = complete-IsValid l k failed s v
step-IsValid l (apply_settles failed) s v = Keeps-IsValid l v (applied-Keeps failed s)
step-IsValid l (aborts id) s v = Keeps-IsValid l v (cancel-Keeps id s)
step-IsValid l drains s v = Keeps-IsValid l v (ground arith)
step-IsValid l clears s v = Keeps-IsValid l v (clear-Keeps s)

run-IsValid : (l : Limits) (es : List Event) (s : State) → IsValid l s → IsValid l (run l es s).0
unfolding run
run-IsValid l [] s v = v
run-IsValid l (e ∷ es) s v = run-IsValid l es (step l e s).0 (step-IsValid l e s v)

-- From a new queue, whatever the events: `active` counts the decodes that are under way, at most
-- `maxParallel` of them, and the frames and bytes that are reserved stay within their limits.
pub run-IsValid-init : (l : Limits) (es : List Event) → IsValid l (run l es init).0
unfolding init
run-IsValid-init l es = run-IsValid l es init (ground arith)
