-- ===== src/Decoding/Exact.antt =====
-- parallelChunkDecode.ts: a queue that stays open applies every task, in order.
use plug_node.Base.{
  ℕ, ◌≡◌, refl, ap, sym, ◌∙◌, Bool, true, false, not, ◌||◌, List, [], ◌∷◌, every, arith, append-nil,
  is_empty, at_if, and-true,
}
use plug_node.Decoding.Types.{
  Apply, apply_returns, apply_throws, apply_promises, Task, State, Effect, applies, reports_failure,
  Turn,
}
use plug_node.Decoding.{
  ◌>>=◌, release, finish_drains, clear_pending_decodes, fail, apply_loop, apply_ready,
}
use plug_node.Decoding.Lazy.{clear-closed}
use plug_node.Decoding.Line.{
  ids, waiting_of, waiting, line, applied_ids-append, release-Silent, finish_drains-Silent,
}

abbrev pub is_uncancelled : Task → Bool
is_uncancelled t = not t.cancelled

-- No task is cancelled, and one is listed while an apply is under way.
pub record Plain (s : State) : Type 0 where
  pub uncancelled : every is_uncancelled s.tasks ≡ true
  pub busy : s.applying ≡ true → is_empty s.tasks ≡ false

pub absurd_closed : {P : Type 0} {b : Bool} → b ≡ true → b ≡ false → P
absurd_closed p q = cc

not-true : (b : Bool) → not b ≡ true → b ≡ false
not-true b h = ground (arith, h)

pub fail-shut : (report : Effect) (s : State) → (fail report s).0.closed ≡ true
unfolding fail
fail-shut report s =
    at_if (λ (r : Turn). r.0.closed ≡ true) s.closed (s, [])
      (clear_pending_decodes s >>= λ s. (s, report ∷ [])) (λ shut. shut) λ _. clear-closed s

-- A turn that has applied, or leaves waiting, exactly what is given.
pub record Exactly (given : List ℕ) (count : ℕ) (r : Turn) : Type 0 where
  pub plain : Plain r.0
  pub exact : line r ≡ given
  pub next : r.0.next_id ≡ count

-- The same of a turn that ends open.
abbrev pub OpenExactly : List ℕ → ℕ → Turn → Type 0
OpenExactly given next r = r.0.closed ≡ false → Exactly given next r

pub fail-Exactly :
    (given : List ℕ) (next : ℕ) (report : Effect) (s : State)
    → OpenExactly given next (fail report s)
fail-Exactly given next report s live = absurd_closed (fail-shut report s) live

apply_loop-Exactly :
    (ts : List Task) (s : State)
    → s.applying ≡ false
    → every is_uncancelled ts ≡ true
    → OpenExactly (ids ts) s.next_id (apply_loop ts s)
unfolding apply_loop
apply_loop-Exactly [] s idle u = λ live. record {
  plain = record { uncancelled = refl; busy = λ h. absurd_closed h idle };
  exact = rw (idle, live) refl;
  next = refl;
}
apply_loop-Exactly (t ∷ ts) s idle u =
    let a = release-Silent t s in
    let r = release t s in
    let here : State = record s { tasks = t ∷ ts } in
    let (first, rest) = and-true (is_uncancelled t) (every is_uncancelled ts) u in
    let later = apply_loop-Exactly ts r.0 (a.applying ∙ idle) rest in
    let Goal : Turn → Type 0 = OpenExactly (ids (t ∷ ts)) s.next_id in
    at_if Goal (not t.ready) _ _
      (λ _ live. record {
        plain = record { uncancelled = u; busy = λ h. absurd_closed h idle };
        exact = rw (idle, live) refl;
        next = refl;
      })
      λ _.
        at_if Goal t.cancelled _ _ (λ c. absurd_cancelled t c first)
          λ _.
            at_if Goal t.failed _ _ (λ _. fail-Exactly _ _ reports_failure here)
              λ _. at_apply u later t.apply
  where
    absurd_cancelled : {P : Type 0} (t : Task) → t.cancelled ≡ true → is_uncancelled t ≡ true → P
    absurd_cancelled t c f = absurd_closed c (not-true t.cancelled f)

    at_apply :
        every is_uncancelled (t ∷ ts) ≡ true
        → OpenExactly (ids ts) (release t s).0.next_id (apply_loop ts (release t s).0)
        → (a : Apply)
        → OpenExactly (ids (t ∷ ts)) s.next_id (elim a as (λ _. Turn) [
          | apply_returns ↦
              ((release t s >>= apply_loop ts).0, applies t.id ∷ (release t s >>= apply_loop ts).1)
          | apply_throws ↦
              let r = fail reports_failure (record s { tasks = t ∷ ts }) in
              (r.0, applies t.id ∷ r.1)
          | apply_promises ↦ (record s { tasks = t ∷ ts; applying = true }, applies t.id ∷ [])
        ])
    at_apply u later apply_returns live =
        let q = later live in
        let a = release-Silent t s in
        record {
          plain = q.plain;
          exact = ap (◌∷◌ t.id) (
              rw (applied_ids-append (release t s).1 (apply_loop ts (release t s).0).1, a.nothing)
                q.exact);
          next = q.next ∙ a.next;
        }
    at_apply u later apply_throws live =
        absurd_closed (fail-shut reports_failure (record s { tasks = t ∷ ts })) live
    at_apply u later apply_promises live = record {
      plain = record { uncancelled = u; busy = λ _. refl };
      exact = rw live refl;
      next = refl;
    }

pub apply_ready-Exactly : (s : State) → Plain s → OpenExactly (waiting s) s.next_id (apply_ready s)
unfolding apply_ready
apply_ready-Exactly s p =
    let Goal : Turn → Type 0 = OpenExactly (waiting s) s.next_id in
    at_if Goal (s.applying || s.closed) _ _ (λ _ _. record { plain = p; exact = refl; next = refl })
      λ free live.
        let idle : s.applying ≡ false = ground (arith, free) in
        let open_now : s.closed ≡ false = ground (arith, free) in
        let r = apply_loop s.tasks s in
        let f = finish_drains-Silent r.0 in
        let q = apply_loop-Exactly s.tasks s idle p.uncancelled (sym f.closed ∙ live) in
        record {
          plain = record {
            uncancelled = rw f.tasks q.plain.uncancelled;
            busy = λ h. rw f.tasks (q.plain.busy (sym f.applying ∙ h));
          };
          exact =
              rw
                (
                  applied_ids-append r.1 (finish_drains r.0).1,
                  f.nothing,
                  append-nil,
                  f.tasks,
                  f.applying,
                  f.closed,
                )
                (q.exact ∙ waits_idle s.closed s.applying (ids s.tasks) open_now idle);
          next = f.next ∙ q.next;
        }
  where
    waits_idle : (c b : Bool) (l : List ℕ) → c ≡ false → b ≡ false → l ≡ waiting_of c b l
    waits_idle c b l p q = rw (p, q) refl
