-- ===== src/Decoding/Line.antt =====
-- parallelChunkDecode.ts: the tasks that a turn applies, with those that wait behind them.
use mathlib.Core.List.{Sublist, sublist-append_left}
use mathlib.Core.List.Sublist
use plug_node.Base.{
  ℕ, zero, suc, ◌+◌, ◌≡◌, refl, ap, inl, inr, Bool, true, false, List, [], ◌∷◌, ◌++◌, map, arith,
  Bool-cases, append_assoc, ◌∙◌, if◌then◌else◌,
}
use plug_node.Decoding.Types.{
  Task, State, Effect, starts, applies, resolves, reports_failure, reports_limit, drained, Turn,
}
use plug_node.Decoding.{
  ◌>>=◌, release, drained_effects, finish_drains, release_all, clear_pending_decodes, fail,
}

-- The tasks that a list of effects applies, in order.
abbrev pub applied_ids : List Effect → List ℕ
applied_ids [] = []
applied_ids (applies id ∷ es) = id ∷ applied_ids es
applied_ids (_ ∷ es) = applied_ids es

abbrev pub ids : List Task → List ℕ
ids = map λ t. t.id

-- The tasks whose `apply` is still to be called: the head is past that while it is applied, and
-- after `clearPendingDecodes` there are none.
abbrev pub waiting_of : (closed applying : Bool) → List ℕ → List ℕ
waiting_of true applying l = []
waiting_of false false l = l
waiting_of false true [] = []
waiting_of false true (id ∷ l) = l

abbrev pub waiting : State → List ℕ
waiting s = waiting_of s.closed s.applying (ids s.tasks)

abbrev pub line : Turn → List ℕ
line r = applied_ids r.1 ++ waiting r.0

-- `count` numbers from `first` on.
abbrev pub numbers : (first count : ℕ) → List ℕ
numbers first zero = []
numbers first (suc count) = first ∷ numbers (suc first) count

pub numbers-append :
    (first k j : ℕ) → numbers first (k + j) ≡ numbers first k ++ numbers (first + k) j
numbers-append first zero j =
    let e : 0 + j ≡ j = omega arith in let e' : first + 0 ≡ first = omega arith in rw (e, e') refl
numbers-append first (suc k) j =
    let e : suc k + j ≡ suc (k + j) = omega arith in
    let e' : first + suc k ≡ suc first + k = omega arith in
    rw (e, e') (ap (◌∷◌ first) (numbers-append (suc first) k j))

pub applied_ids-append :
    (es fs : List Effect) → applied_ids (es ++ fs) ≡ applied_ids es ++ applied_ids fs
applied_ids-append [] fs = refl
applied_ids-append (applies id ∷ es) fs = ap (◌∷◌ id) (applied_ids-append es fs)
applied_ids-append (starts id ∷ es) fs = applied_ids-append es fs
applied_ids-append (resolves id ∷ es) fs = applied_ids-append es fs
applied_ids-append (reports_failure ∷ es) fs = applied_ids-append es fs
applied_ids-append (reports_limit ∷ es) fs = applied_ids-append es fs
applied_ids-append (drained ∷ es) fs = applied_ids-append es fs

-- A turn that applies no task out of its turn, and takes in none.
pub record Follows (s : State) (r : Turn) : Type 0 where
  pub kept : r.0.next_id ≡ s.next_id
  pub within : Sublist (line r) (waiting s)

pub Follows->>= :
    (s : State) (m : Turn) (f : State → Turn)
    → Follows s m
    → Follows m.0 (f m.0)
    → Follows s (m >>= f)
Follows->>= s m f a b = record {
  kept = b.kept ∙ a.kept;
  within =
      rw
        (
          applied_ids-append m.1 (f m.0).1,
          append_assoc (applied_ids m.1) (applied_ids (f m.0).1) (waiting (f m.0).0),
        )
        (Sublist.trans (Sublist.append (Sublist.refl (applied_ids m.1)) b.within) a.within);
}

pub same-Follows : (s : State) → Follows s (s, [])
same-Follows s = record { kept = refl; within = Sublist.refl _ }

-- A turn that neither applies a task nor changes what waits.
pub record Silent (s : State) (r : Turn) : Type 0 where
  pub nothing : applied_ids r.1 ≡ []
  pub tasks : r.0.tasks ≡ s.tasks
  pub applying : r.0.applying ≡ s.applying
  pub closed : r.0.closed ≡ s.closed
  pub next : r.0.next_id ≡ s.next_id

pub Silent-Follows : (s : State) (r : Turn) → Silent s r → Follows s r
Silent-Follows s r q = record {
  kept = q.next;
  within = rw (q.nothing, q.tasks, q.applying, q.closed) (Sublist.refl _);
}

pub release-Silent : (t : Task) (s : State) → Silent s (release t s)
unfolding release
release-Silent t s = ground arith

pub drained_effects-nothing : (n : ℕ) → applied_ids (drained_effects n) ≡ []
unfolding drained_effects
drained_effects-nothing zero = refl
drained_effects-nothing (suc n) = drained_effects-nothing n

pub finish_drains-Silent : (s : State) → Silent s (finish_drains s)
unfolding finish_drains
finish_drains-Silent s = ground (arith, drained_effects-nothing s.waiting_drains)

pub release_all-Silent : (ts : List Task) (s : State) → Silent s (release_all ts s)
unfolding release_all
release_all-Silent [] s = record {
  nothing = refl;
  tasks = refl;
  applying = refl;
  closed = refl;
  next = refl;
}
release_all-Silent (t ∷ ts) s =
    let a = release-Silent t s in
    let b = release_all-Silent ts (release t s).0 in
    record {
      nothing =
          rw
            (
              applied_ids-append (release t s).1 (release_all ts (release t s).0).1,
              a.nothing,
              b.nothing,
            )
            refl;
      tasks = b.tasks ∙ a.tasks;
      applying = b.applying ∙ a.applying;
      closed = b.closed ∙ a.closed;
      next = b.next ∙ a.next;
    }

-- A state that lists no task.
emptied : State → State
emptied s = record s { closed = true; tasks = [] }

pub waiting_of-nil : (closed applying : Bool) → waiting_of closed applying [] ≡ []
waiting_of-nil true applying = refl
waiting_of-nil false true = refl
waiting_of-nil false false = refl

-- A turn that leaves no task, and applies none.
pub record Empties (s : State) (r : Turn) : Type 0 where
  pub nothing : applied_ids r.1 ≡ []
  pub tasks : r.0.tasks ≡ []
  pub next : r.0.next_id ≡ s.next_id

pub Empties-line : (s : State) (r : Turn) → Empties s r → line r ≡ []
Empties-line s r e = rw (e.nothing, e.tasks) (waiting_of-nil r.0.closed r.0.applying)

Empties-Follows : (s : State) (r : Turn) → Empties s r → Follows s r
Empties-Follows s r e = record {
  kept = e.next;
  within = rw (Empties-line s r e) (sublist-append_left [] _);
}

pub clear-Empties : (s : State) → s.closed ≡ false → Empties s (clear_pending_decodes s)
unfolding clear_pending_decodes emptied
clear-Empties s live =
    let a = release_all-Silent s.tasks (emptied s) in
    let r = release_all s.tasks (emptied s) in
    let b = finish_drains-Silent r.0 in
    rw live (record {
      nothing = rw (applied_ids-append r.1 (finish_drains r.0).1, a.nothing, b.nothing) refl;
      tasks = b.tasks ∙ a.tasks;
      next = b.next ∙ a.next;
    })

clear-closed : (s : State) → s.closed ≡ true → clear_pending_decodes s ≡ (s, [])
unfolding clear_pending_decodes
clear-closed s shut = rw shut refl

pub clear-Follows : (s : State) → Follows s (clear_pending_decodes s)
clear-Follows s = elim (Bool-cases s.closed) [
  | inl shut ↦ rw (clear-closed s shut) (same-Follows s)
  | inr live ↦ Empties-Follows s _ (clear-Empties s live)
]

pub if-false : (b : Bool) (x y : Turn) → b ≡ false → (if b then x else y) ≡ y
if-false b x y e = rw e refl

fail-open :
    (report : Effect) (s : State)
    → s.closed ≡ false
    → fail report s ≡ (clear_pending_decodes s >>= λ s. (s, report ∷ []))
unfolding fail
fail-open report s live = if-false s.closed _ _ live

pub fail-Empties :
    (report : Effect) (s : State)
    → applied_ids (report ∷ []) ≡ []
    → s.closed ≡ false
    → Empties s (fail report s)
fail-Empties report s e live =
    let a = clear-Empties s live in
    rw (fail-open report s live) (record {
      nothing = rw (applied_ids-append (clear_pending_decodes s).1 (report ∷ []), a.nothing) e;
      tasks = a.tasks;
      next = a.next;
    })

pub fail-closed : (report : Effect) (s : State) → s.closed ≡ true → fail report s ≡ (s, [])
unfolding fail
fail-closed report s shut = rw shut refl

pub fail-Follows :
    (report : Effect) (s : State) → applied_ids (report ∷ []) ≡ [] → Follows s (fail report s)
fail-Follows report s e = elim (Bool-cases s.closed) [
  | inl shut ↦ rw (fail-closed report s shut) (same-Follows s)
  | inr live ↦ Empties-Follows s _ (fail-Empties report s e live)
]
