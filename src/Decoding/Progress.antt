-- ===== src/Decoding/Progress.antt =====
-- parallelChunkDecode.ts: an open queue does not come to a halt with tasks left.
use plug_node.Base.{
  ℕ, ◌≡◌, ◌≤◌, refl, subst, sym, ◌⊎◌, inl, inr, Bool, true, false, not, ◌&&◌, ◌||◌, List, [], ◌∷◌,
  ◌++◌, every, arith, Bool-cases, ◌==◌, ==_iff, ltb, at_if, and-true,
}
use plug_node.Decoding.Types.{
  Limits, Apply, apply_returns, apply_throws, apply_promises, Task, State, Effect, applies,
  reports_failure, Turn,
}
use plug_node.Decoding.{
  ◌>>=◌, has_decode, release, finish_drains, clear_pending_decodes, fail, apply_loop, take_task,
  begin_decode, pump_loop,
}
use plug_node.Decoding.Lazy.{clear-closed}

abbrev pub mem : ℕ → List ℕ → Bool
mem x [] = false
mem x (y ∷ ys) = (x == y) || mem x ys

-- A task that is taken is ready or decodes; ordered work, and a task that is cancelled, is ready.
abbrev pub is_fit : List ℕ → Task → Bool
is_fit decoding t =
    (not t.taken || (t.ready || mem t.id decoding))
    && ((has_decode t || t.ready) && (not t.cancelled || t.ready))

abbrev pub is_taken : Task → Bool
is_taken t = t.taken

abbrev pub head_waits : List Task → Bool
head_waits [] = true
head_waits (t ∷ ts) = not t.ready

-- Tasks that are left are taken, or as many decode as may.
abbrev pub Full : Limits → State → List Task → Type 0
Full l s ts = (every is_taken ts ≡ true) ⊎ (l.max_parallel ≤ s.active)

pub record Waits (l : Limits) (s : State) : Type 0 where
  pub covered : every (is_fit s.decoding) s.tasks ≡ true
  pub full : Full l s s.tasks

pub record Moves (l : Limits) (s : State) : Type 0 where
  pub waits : s.closed ≡ false → Waits l s
  pub headed : s.closed ≡ false → (s.applying ≡ true) ⊎ (head_waits s.tasks ≡ true)

pub shut-Moves : (l : Limits) (s : State) → s.closed ≡ true → Moves l s
shut-Moves l s shut = record {
  waits = λ live. absurd_closed s shut live;
  headed = λ live. absurd_closed s shut live;
}
  where
    absurd_closed : {P : Type 0} (s : State) → s.closed ≡ true → s.closed ≡ false → P
    absurd_closed s p q = cc

pub fail-Moves : (l : Limits) (report : Effect) (s : State) → Moves l (fail report s).0
unfolding fail
fail-Moves l report s = shut-Moves l _ (
    at_if (λ (r : Turn). r.0.closed ≡ true) s.closed (s, [])
      (clear_pending_decodes s >>= λ s. (s, report ∷ [])) (λ shut. shut) λ _. clear-closed s)

-- The parts of a state that the loops read.
pub record Same (s t : State) : Type 0 where
  pub active : t.active ≡ s.active
  pub decoding : t.decoding ≡ s.decoding
  pub closed : t.closed ≡ s.closed
  pub applying : t.applying ≡ s.applying
  pub tasks : t.tasks ≡ s.tasks

pub release-Same : (t : Task) (s : State) → Same s (release t s).0
unfolding release
release-Same t s = ground arith

pub finish_drains-Same : (s : State) → Same s (finish_drains s).0
unfolding finish_drains
finish_drains-Same s = ground arith

pub tail-Full :
    (l : Limits) (t : Task) (ts : List Task) (s r : State)
    → r.active ≡ s.active
    → Full l s (t ∷ ts)
    → Full l r ts
tail-Full l t ts s r e (inl all) = inl (ground (arith, all))
tail-Full l t ts s r e (inr busy) = inr (omega (arith, e, busy))

pub apply_loop-Moves :
    (l : Limits) (ts : List Task) (s : State)
    → every (is_fit s.decoding) ts ≡ true
    → Full l s ts
    → Moves l (apply_loop ts s).0
unfolding apply_loop
apply_loop-Moves l [] s c f = record {
  waits = λ _. record { covered = refl; full = inl refl };
  headed = λ _. inr refl;
}
apply_loop-Moves l (t ∷ ts) s c f =
    let a = release-Same t s in
    let here : State = record s { tasks = t ∷ ts } in
    let next = release t s >>= apply_loop ts in
    let rest : every (is_fit s.decoding) ts ≡ true = ground (arith, c) in
    let later : Moves l next.0 =
      apply_loop-Moves l ts (release t s).0
        (subst (λ d. every (is_fit d) ts ≡ true) (sym a.decoding) rest)
        (tail-Full l t ts s (release t s).0 a.active f) in
    at_if (λ (r : Turn). Moves l r.0) (not t.ready) (here, []) _
      (λ waits. record { waits = λ _. record { covered = c; full = f }; headed = λ _. inr waits })
      λ _.
        at_if (λ (r : Turn). Moves l r.0) t.cancelled _ _ (λ _. later)
          λ _.
            at_if (λ (r : Turn). Moves l r.0) t.failed _ _ (λ _. fail-Moves l reports_failure here)
              λ _. at_apply later t.apply
  where
    at_apply :
        Moves l (release t s >>= apply_loop ts).0
        → (a : Apply)
        → Moves l
            (elim a as (λ _. Turn) [
              | apply_returns ↦ (
                (release t s >>= apply_loop ts).0,
                applies t.id ∷ (release t s >>= apply_loop ts).1,
              )
              | apply_throws ↦
                  let r = fail reports_failure (record s { tasks = t ∷ ts }) in
                  (r.0, applies t.id ∷ r.1)
              | apply_promises ↦ (record s { tasks = t ∷ ts; applying = true }, applies t.id ∷ [])
            ]).0
    at_apply later apply_returns = later
    at_apply later apply_throws = fail-Moves l reports_failure (record s { tasks = t ∷ ts })
    at_apply later apply_promises = record {
      waits = λ _. record { covered = c; full = f };
      headed = λ _. inl refl;
    }

mem-append : (x : ℕ) (ys zs : List ℕ) → mem x (ys ++ zs) ≡ (mem x ys || mem x zs)
mem-append x [] zs = refl
mem-append x (y ∷ ys) zs = ground (arith, mem-append x ys zs)

take_task-taken : (t : Task) → (take_task t).taken ≡ true
unfolding take_task
take_task-taken t = ground arith

-- A decode that begins leaves the others under way.
begin_decode-mem :
    (t : Task) (s : State) (x : ℕ)
    → mem x s.decoding ≡ true
    → mem x (begin_decode t s).0.decoding ≡ true
unfolding begin_decode
begin_decode-mem t s x h = ground (arith, mem-append x s.decoding (t.id ∷ []), h)

pump_loop-mem :
    (l : Limits) (ts : List Task) (s : State) (x : ℕ)
    → mem x s.decoding ≡ true
    → mem x (pump_loop l ts s).1.0.decoding ≡ true
unfolding pump_loop
pump_loop-mem l [] s x h = h
pump_loop-mem l (t ∷ ts) s x h =
    at_if (λ (r : List Task × Turn). mem x r.1.0.decoding ≡ true) t.taken _ _
      (λ _. pump_loop-mem l ts s x h)
      λ _.
        at_if (λ (r : List Task × Turn). mem x r.1.0.decoding ≡ true) (ltb s.active l.max_parallel)
          _ _ (λ _. pump_loop-mem l ts (begin_decode t s).0 x (begin_decode-mem t s x h)) λ _. h

grown-fit :
    (d e : List ℕ) (t : Task)
    → ((x : ℕ) → mem x d ≡ true → mem x e ≡ true)
    → is_fit d t ≡ true
    → is_fit e t ≡ true
grown-fit d e t grows h = elim (Bool-cases (mem t.id d)) [
  | inl there ↦ let k = grows t.id there in ground (arith, h, k)
  | inr missing ↦ ground (arith, h, missing)
]

grown-every :
    (d e : List ℕ) (ts : List Task)
    → ((x : ℕ) → mem x d ≡ true → mem x e ≡ true)
    → every (is_fit d) ts ≡ true
    → every (is_fit e) ts ≡ true
grown-every d e [] grows h = refl
grown-every d e (t ∷ ts) grows h =
    let (first, rest) = and-true (is_fit d t) (every (is_fit d) ts) h in
    rw (grown-fit d e t grows first, grown-every d e ts grows rest) refl

take_task-fit :
    (t : Task) (s : State)
    → is_fit s.decoding t ≡ true
    → is_fit (begin_decode t s).0.decoding (take_task t) ≡ true
unfolding take_task begin_decode
take_task-fit t s h = ground (arith, h, mem-append t.id s.decoding (t.id ∷ []), ==_iff t.id t.id)

pub pump_loop-covered :
    (l : Limits) (ts : List Task) (s : State)
    → every (is_fit s.decoding) ts ≡ true
    → every (is_fit (pump_loop l ts s).1.0.decoding) (pump_loop l ts s).0 ≡ true
unfolding pump_loop
pump_loop-covered l [] s c = refl
pump_loop-covered l (t ∷ ts) s c =
    let Goal : List Task × Turn → Type 0 = λ r. every (is_fit r.1.0.decoding) r.0 ≡ true in
    let (first, rest) = and-true (is_fit s.decoding t) (every (is_fit s.decoding) ts) c in
    let b = (begin_decode t s).0 in
    at_if Goal t.taken _ _
      (λ _.
        let kept =
          grown-fit s.decoding (pump_loop l ts s).1.0.decoding t (pump_loop-mem l ts s) first in
        rw (kept, pump_loop-covered l ts s rest) refl)
      λ _.
        at_if Goal (ltb s.active l.max_parallel) _ _
          (λ _.
            let begun =
              grown-fit b.decoding (pump_loop l ts b).1.0.decoding (take_task t)
                (pump_loop-mem l ts b) (take_task-fit t s first) in
            let others = grown-every s.decoding b.decoding ts (begin_decode-mem t s) rest in
            rw (begun, pump_loop-covered l ts b others) refl)
          λ _. c

pub pump_loop-Full :
    (l : Limits) (ts : List Task) (s : State) → Full l (pump_loop l ts s).1.0 (pump_loop l ts s).0
unfolding pump_loop
pump_loop-Full l [] s = inl refl
pump_loop-Full l (t ∷ ts) s =
    let Goal : List Task × Turn → Type 0 = λ r. Full l r.1.0 r.0 in
    at_if Goal t.taken _ _ (λ past. cons-Full t (pump_loop l ts s) past (pump_loop-Full l ts s))
      λ _.
        at_if Goal (ltb s.active l.max_parallel) _ _
          (λ _.
            cons-Full (take_task t) (pump_loop l ts (begin_decode t s).0) (take_task-taken t)
              (pump_loop-Full l ts (begin_decode t s).0))
          λ busy. inr (ground (arith, busy))
  where
    cons-Full :
        (u : Task) (r : List Task × Turn)
        → u.taken ≡ true
        → Full l r.1.0 r.0
        → Full l r.1.0 (u ∷ r.0)
    cons-Full u r past (inl all) = inl (ground (arith, past, all))
    cons-Full u r past (inr busy) = inr busy
