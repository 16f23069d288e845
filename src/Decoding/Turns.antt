-- ===== src/Decoding/Turns.antt =====
-- parallelChunkDecode.ts: the loops of the queue: no task is applied out of turn.
use mathlib.Core.List.{Sublist, sublist-append_left}
use mathlib.Core.List.Sublist
use plug_node.Base.{
  at_if, sym, ◌||◌, ℕ, ◌≡◌, refl, subst, inl, inr, Bool, true, false, List, [], ◌∷◌, arith,
  Bool-cases, ◌∙◌, not,
}
use plug_node.Decoding.Types.{
  Limits, Apply, apply_returns, apply_throws, apply_promises, Task, State, applies, reports_failure,
  Turn,
}
use plug_node.Decoding.{
  ◌>>=◌, release, finish_drains, fail, apply_loop, apply_ready, take_task, begin_decode, pump_loop,
  pump,
}
use plug_node.Decoding.Line.{
  applied_ids, ids, waiting_of, line, applied_ids-append, Follows, Follows->>=, same-Follows,
  Silent, Silent-Follows, release-Silent, finish_drains-Silent, waiting_of-nil, Empties,
  Empties-line, fail-Empties, if-false,
}

-- The loop on a list, against the ids of the list.
record Applies (ts : List Task) (s : State) (r : Turn) : Type 0 where
  pub next : r.0.next_id ≡ s.next_id
  pub within : Sublist (line r) (ids ts)

-- The loop past its head.
next-Applies :
    (t : Task) (ts : List Task) (s : State)
    → Applies ts (release t s).0 (apply_loop ts (release t s).0)
    → Applies ts s (release t s >>= apply_loop ts)
next-Applies t ts s b =
    let a = release-Silent t s in
    record {
      next = b.next ∙ a.next;
      within =
          rw (applied_ids-append (release t s).1 (apply_loop ts (release t s).0).1, a.nothing)
            b.within;
    }

apply_loop-Applies :
    (ts : List Task) (s : State)
    → s.applying ≡ false
    → s.closed ≡ false
    → Applies ts s (apply_loop ts s)
unfolding apply_loop
apply_loop-Applies [] s idle live = record {
  next = refl;
  within = rw (waiting_of-nil s.closed s.applying) (Sublist.refl _);
}
apply_loop-Applies (t ∷ ts) s idle live =
    let a = release-Silent t s in
    let later =
      next-Applies t ts s
        (apply_loop-Applies ts (release t s).0 (a.applying ∙ idle) (a.closed ∙ live)) in
    at_if (Applies (t ∷ ts) s) (not t.ready) _ _
      (λ _. record { next = refl; within = rw (idle, live) (Sublist.refl _) })
      λ _.
        at_if (Applies (t ∷ ts) s) t.cancelled _ _
          (λ _. record { next = later.next; within = Sublist.cons t.id later.within })
          λ _.
            at_if (Applies (t ∷ ts) s) t.failed _ _
              (λ _. record {
                next = failed.next;
                within = rw (Empties-line here _ failed) (sublist-append_left [] _);
              })
              λ _. at_apply later t.apply
  where
    here : State
    here = record s { tasks = t ∷ ts }

    failed : Empties here (fail reports_failure here)
    failed = fail-Empties reports_failure here refl live

    next_turn : Turn
    next_turn = release t s >>= apply_loop ts

    at_apply :
        Applies ts s next_turn
        → (a : Apply)
        → Applies (t ∷ ts) s (elim a [
          | apply_returns ↦ (next_turn.0, applies t.id ∷ next_turn.1)
          | apply_throws ↦ let r = fail reports_failure here in (r.0, applies t.id ∷ r.1)
          | apply_promises ↦ (record here { applying = true }, applies t.id ∷ [])
        ])
    at_apply later apply_returns = record {
      next = later.next;
      within = Sublist.cons-cons t.id later.within;
    }
    at_apply later apply_throws = record {
      next = failed.next;
      within = Sublist.cons-cons t.id (rw (Empties-line here _ failed) (sublist-append_left [] _));
    }
    at_apply later apply_promises = record { next = refl; within = rw live (Sublist.refl _) }

waiting_of-idle :
    (closed applying : Bool) (l : List ℕ)
    → closed ≡ false
    → applying ≡ false
    → waiting_of closed applying l ≡ l
waiting_of-idle closed applying l p q = rw (p, q) refl

pub apply_ready-Follows : (s : State) → Follows s (apply_ready s)
unfolding apply_ready
apply_ready-Follows s = elim (Bool-cases (s.applying || s.closed)) [
  | inl held ↦ rw held (same-Follows s)
  | inr free ↦
      let idle : s.applying ≡ false = ground (arith) in
      let live : s.closed ≡ false = ground (arith) in
      let a = apply_loop-Applies s.tasks s idle live in
      let r = apply_loop s.tasks s in
      subst (Follows s) (sym (if-false _ _ _ free)) (
        Follows->>= s r finish_drains
          (record {
            kept = a.next;
            within =
                subst (Sublist (line r)) (sym (waiting_of-idle s.closed s.applying _ live idle))
                  a.within;
          })
          (Silent-Follows r.0 _ (finish_drains-Silent r.0)))
]

-- The loop of `pump` on a list and a state.
pub record Pumps (ts : List Task) (s : State) (r : List Task × Turn) : Type 0 where
  pub ids : ids r.0 ≡ ids ts
  pub nothing : applied_ids r.1.1 ≡ []
  pub applying : r.1.0.applying ≡ s.applying
  pub closed : r.1.0.closed ≡ s.closed
  pub next : r.1.0.next_id ≡ s.next_id

begin_decode-Silent : (t : Task) (s : State) → Silent s (begin_decode t s)
unfolding begin_decode
begin_decode-Silent t s = ground arith

take_task-id : (t : Task) → (take_task t).id ≡ t.id
unfolding take_task
take_task-id t = ground arith

pub pump_loop-Pumps : (l : Limits) (ts : List Task) (s : State) → Pumps ts s (pump_loop l ts s)
unfolding pump_loop
pump_loop-Pumps l [] s = record {
  ids = refl;
  nothing = refl;
  applying = refl;
  closed = refl;
  next = refl;
}
pump_loop-Pumps l (t ∷ ts) s =
    let passed = pump_loop-Pumps l ts s in
    let begun = begin_decode-Silent t s in
    let later = pump_loop-Pumps l ts (begin_decode t s).0 in
    let e = applied_ids-append (begin_decode t s).1 (pump_loop l ts (begin_decode t s).0).1.1 in
    let i = take_task-id t in ground (arith, passed, begun, later, e, i)

pub pump-Follows : (l : Limits) (s : State) → Follows s (pump l s)
unfolding pump
pump-Follows l s =
    at_if (Follows s) s.closed _ _ (λ _. same-Follows s)
      λ _.
        let a = pump_loop-Pumps l s.tasks s in
        record {
          kept = a.next;
          within = rw (a.nothing, a.ids, a.applying, a.closed) (Sublist.refl _);
        }
