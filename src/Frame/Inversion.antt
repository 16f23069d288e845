-- ===== src/Frame/Inversion.antt =====
-- What a result that is no error says of the steps before it.
use plug_node.Base.{
  ℕ, zero, suc, ◌≡◌, refl, sym, ap, ◌∙◌, Bool, true, false, some, List, [], ◌∷◌, get_elem?, keep_if,
  Bool-cases, inl, inr, ◌||◌,
}
use plug_node.Frame.Types.{Result, ok, fail, require, and_then, Problem}

pub require-ok :
    {R : Type 0} (b : Bool) (p : Problem) (rest : Result R) (r : R)
    → require b p rest ≡ ok r
    → (b ≡ true) × (rest ≡ ok r)
unfolding require
require-ok true p rest r h = (refl, h)
require-ok false p rest r h = cc

pub and_then-ok :
    {A R : Type 0} (m : Result A) (f : A → Result R) (r : R)
    → and_then m f ≡ ok r
    → (a : A) × (m ≡ ok a) × (f a ≡ ok r)
unfolding and_then
and_then-ok (ok a) f r h = (a, refl, h)
and_then-ok (fail p) f r h = cc

pub or-true : (a b : Bool) → (a || b) ≡ true → a ≡ false → b ≡ true
or-true true b h e = cc
or-true false b h e = h

-- An entry that a filter keeps stands in the list and passes the test.
pub get_elem?-keep_if :
    {A : Type 0} (test : A → Bool) (xs : List A) (i : ℕ) (x : A)
    → get_elem? (keep_if test xs) i ≡ some x
    → (j : ℕ) × (get_elem? xs j ≡ some x) × (test x ≡ true)
get_elem?-keep_if test [] i x h = cc
get_elem?-keep_if test (y ∷ ys) zero x h = elim (Bool-cases (test y)) [
  | inl e ↦ let same : some y ≡ some x = rw e at h in (0, same, sym (ap test (cc)) ∙ e)
  | inr e ↦ let (j, at, passes) = get_elem?-keep_if test ys 0 x (rw e at h) in (suc j, at, passes)
]
get_elem?-keep_if test (y ∷ ys) (suc k) x h = elim (Bool-cases (test y)) [
  | inl e ↦ let (j, at, passes) = get_elem?-keep_if test ys k x (rw e at h) in (suc j, at, passes)
  | inr e ↦
      let (j, at, passes) = get_elem?-keep_if test ys (suc k) x (rw e at h) in (suc j, at, passes)
]

-- How a result is reached, step by step.
pub require-pass :
    {R : Type 0} {b : Bool} (p : Problem) {rest r : Result R}
    → b ≡ true
    → rest ≡ r
    → require b p rest ≡ r
unfolding require
require-pass p h k = rw h k

pub and_then-pass :
    {A R : Type 0} {m : Result A} {a : A} (f : A → Result R) {r : Result R}
    → m ≡ ok a
    → f a ≡ r
    → and_then m f ≡ r
unfolding and_then
and_then-pass f h k = rw h k

pub require-stop :
    {R : Type 0} {b : Bool} (p : Problem) (rest : Result R) → b ≡ false → require b p rest ≡ fail p
unfolding require
require-stop p rest h = rw h refl
