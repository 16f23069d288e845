-- ===== src/Decoding/Alive.antt =====
-- parallelChunkDecode.ts: what an open queue waits for, over its events.
use plug_node.Base.{
  ℕ, ◌+◌, ◌≡◌, refl, sym, ◌∙◌, inl, Bool, true, false, ◌&&◌, ◌||◌, List, [], ◌∷◌, ◌++◌, map, every,
  arith, ltb, if◌then◌else◌, at_if, and-true,
}
use plug_node.Decoding.Types.{
  Limits, Decode, no_decode, decode_throws, decode_promises, Apply, Task, State, reports_limit,
  Turn,
}
use plug_node.Decoding.{
  ◌>>=◌, finish_drains, apply_loop, apply_ready, pump, new_task, enqueue, Accumulated, reserve,
  enqueue_decode_then_ordered,
}
use plug_node.Decoding.Progress.{
  is_fit, Waits, Moves, fail-Moves, Same, finish_drains-Same, apply_loop-Moves, pump_loop-covered,
  pump_loop-Full,
}

pub Same-Moves : (l : Limits) (s t : State) → Same s t → Moves l s → Moves l t
Same-Moves l s t e m = record {
  waits = λ live.
      let w = m.waits (sym e.closed ∙ live) in
      record { covered = rw (e.decoding, e.tasks) w.covered; full = rw (e.active, e.tasks) w.full };
  headed = λ live. rw (e.applying, e.tasks) (m.headed (sym e.closed ∙ live));
}

pub apply_ready-Moves :
    (l : Limits) (s : State) → (s.closed ≡ false → Waits l s) → Moves l (apply_ready s).0
unfolding apply_ready
apply_ready-Moves l s w =
    at_if (λ (r : Turn). Moves l r.0) (s.applying || s.closed) _ _
      (λ held. record { waits = w; headed = λ live. inl (ground (arith, held, live)) })
      λ free.
        let live : s.closed ≡ false = ground (arith, free) in
        let r = apply_loop s.tasks s in
        Same-Moves l r.0 (finish_drains r.0).0 (finish_drains-Same r.0)
          (apply_loop-Moves l s.tasks s (w live).covered (w live).full)

pump-Waits :
    (l : Limits) (s : State)
    → (s.closed ≡ false → every (is_fit s.decoding) s.tasks ≡ true)
    → (pump l s).0.closed ≡ false
    → Waits l (pump l s).0
unfolding pump
pump-Waits l s c =
    at_if (λ (r : Turn). r.0.closed ≡ false → Waits l r.0) s.closed _ _
      (λ shut live. absurd_closed s shut live)
      λ open_now live. record {
        covered = pump_loop-covered l s.tasks s (c open_now);
        full = pump_loop-Full l s.tasks s;
      }
  where
    absurd_closed : {P : Type 0} (s : State) → s.closed ≡ true → s.closed ≡ false → P
    absurd_closed s p q = cc

-- The end of the calls that take in work: `pump`, then `applyReady`.
pub pumped-Moves :
    (l : Limits) (s : State)
    → (s.closed ≡ false → every (is_fit s.decoding) s.tasks ≡ true)
    → Moves l (pump l s >>= apply_ready).0
pumped-Moves l s c = apply_ready-Moves l (pump l s).0 (pump-Waits l s c)

pub every-append :
    (test : Task → Bool) (ts us : List Task)
    → every test (ts ++ us) ≡ (every test ts && every test us)
every-append test [] us = refl
every-append test (t ∷ ts) us = ground (arith, every-append test ts us)

pub every-map :
    (test : Task → Bool) (f : Task → Task) (ts : List Task)
    → ((t : Task) → test t ≡ true → test (f t) ≡ true)
    → every test ts ≡ true
    → every test (map f ts) ≡ true
every-map test f [] keeps h = refl
every-map test f (t ∷ ts) keeps h =
    let (first, rest) = and-true (test t) (every test ts) h in
    rw (keeps t first, every-map test f ts keeps rest) refl

new_task-fit :
    (decoding : List ℕ) (id : ℕ) (d : Decode) (a : Apply) (bytes : ℕ)
    → is_fit decoding (new_task id d a bytes) ≡ true
unfolding new_task
new_task-fit decoding id no_decode a bytes = refl
new_task-fit decoding id decode_throws a bytes = refl
new_task-fit decoding id decode_promises a bytes = refl

pub enqueue-Moves :
    (l : Limits) (d : Decode) (a : Apply) (bytes : ℕ) (s : State)
    → Moves l s
    → Moves l (enqueue l d a bytes s).0
unfolding enqueue
enqueue-Moves l d a bytes s m =
    at_if (λ (r : Turn). Moves l r.0) s.closed _ _ (λ _. m)
      λ live. pumped-Moves l _ λ _. ground (
        arith,
        every-append (is_fit s.decoding) s.tasks (new_task s.next_id d a bytes ∷ []),
        (m.waits live).covered,
        new_task-fit s.decoding s.next_id d a bytes,
      )

reserve-Moves : (l : Limits) (bytes : ℕ) (s : State) → Moves l s → Moves l (reserve bytes s)
unfolding reserve
reserve-Moves l bytes s m =
    Same-Moves l s _
      (record { active = refl; decoding = refl; closed = refl; applying = refl; tasks = refl }) m

pub chunk-Moves :
    (l : Limits) (acc : Accumulated) (throws : Bool) (a : Apply) (bytes : ℕ) (s : State)
    → Moves l s
    → Moves l (enqueue_decode_then_ordered l acc throws a bytes s).0
unfolding enqueue_decode_then_ordered
chunk-Moves l acc throws a bytes s m =
    at_if (λ (r : Turn). Moves l r.0) s.closed _ _ (λ _. m)
      λ _.
        at_if (λ (r : Turn). Moves l r.0)
          (ltb l.max_frames (s.pending_frames + acc.frames + 1)
            || ltb l.max_bytes (s.pending_bytes + acc.bytes + bytes))
          _
          (enqueue l (if throws then decode_throws else decode_promises) a bytes (reserve bytes s))
          (λ _. fail-Moves l reports_limit s)
          λ _. enqueue-Moves l _ a bytes (reserve bytes s) (reserve-Moves l bytes s m)
