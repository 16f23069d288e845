-- ===== src/Stream/Pulls/Keys.antt =====
-- streamPullSession.ts: the keys of a transport against the entries of its sessions.
use Prim.Native.String.{String}
use text.Mathlib.Text.{◌==◌ as str_eq}
use text.Mathlib.TextEquality.{eq_iff}
use plug_node.Base.{
  ℕ, ◌+◌, ◌≤◌, ◌≡◌, refl, sym, ◌∙◌, ap, inl, inr, Bool, true, false, not, Option, none, some, List,
  [], ◌∷◌, if◌then◌else◌, count_if, arith, Option-cases, Bool-cases, at_if,
}
use plug_node.Identity.{includes}
use plug_node.Stream.Pulls.Types.{Pull, Session, key_of, Request, Reason, Effect, Part}
use plug_node.Stream.Pulls.{
  delete_key, Taken, take_where, put, settle, settle_where, reject_where, new_pull, request_pull,
}

-- How often a key stands in the set, and among entries.
abbrev pub count_key : String → List String → ℕ
count_key k = count_if (str_eq k)

abbrev pub held : String → List Pull → ℕ
held k = count_if (λ e. str_eq k (key_of e))

-- The keys in a set are the keys that entries own, each once.
pub record Shares (own : String → ℕ) (active : List String) : Type 0 where
  pub split : (k : String) → count_key k active ≡ own k
  pub once : (k : String) → own k ≤ 1

count-delete :
    (key k : String) (active : List String)
    → count_key k (delete_key key active) ≡ (if str_eq key k then 0 else count_key k active)
unfolding delete_key
count-delete key k [] = ground arith
count-delete key k (x ∷ xs) =
    ground (arith, eq_iff key x, eq_iff k x, eq_iff key k, count-delete key k xs)

-- A key that is deleted with its one entry.
delete-Shares :
    (own rest : String → ℕ) (e : Pull) (active : List String)
    → ((k : String) → own k ≡ rest k + (if str_eq k (key_of e) then 1 else 0))
    → Shares own active
    → Shares rest (delete_key (key_of e) active)
delete-Shares own rest e active h s = record {
  split = λ k. ground (
    arith,
    count-delete (key_of e) k active,
    h k,
    s.split k,
    s.once k,
    eq_iff k (key_of e),
    eq_iff (key_of e) k,
  );
  once = λ k. ground (arith, h k, s.once k);
}

if-true : {A : Type 0} (b : Bool) (x y : A) → b ≡ true → (if b then x else y) ≡ x
if-true b x y e = rw e refl

if-false : {A : Type 0} (b : Bool) (x y : A) → b ≡ false → (if b then x else y) ≡ y
if-false b x y e = rw e refl

-- The result of a search behind an entry that does not fit.
abbrev keep_head : Pull → Option Taken → Option Taken
keep_head e later = elim later [ none ↦ none | some t ↦ some (record t { rest = e ∷ t.rest }) ]

absurd_none : {P : Type 0} (t : Taken) → none ≡ some t → P
absurd_none t h = cc

-- Any count of entries, with the entry that is taken apart.
pub take_where-count_if :
    (weigh test : Pull → Bool) (es : List Pull) (t : Taken)
    → take_where test es ≡ some t
    → count_if weigh es ≡ count_if weigh t.rest + (if weigh t.entry then 1 else 0)
unfolding take_where
take_where-count_if weigh test [] t h = cc
take_where-count_if weigh test (e ∷ es) t h = elim (Bool-cases (test e)) [
  | inl found ↦
      let at_head : some (record { entry = e; rest = es }) ≡ some t =
        sym (if-true _ _ _ found) ∙ h in
      ground (arith, at_head)
  | inr other ↦
      let later = sym (if-false _ _ _ other) ∙ h in
      elim (Option-cases (take_where test es)) [
        | inl missing ↦ absurd_none t (sym (ap (keep_head e) missing) ∙ later)
        | inr (u, known) ↦
            let same = sym (ap (keep_head e) known) ∙ later in
            ground (arith, same, take_where-count_if weigh test es u known)
      ]
]

pub includes-count :
    (k : String) (active : List String) → includes k active ≡ false → count_key k active ≡ 0
unfolding includes
includes-count k [] h = refl
includes-count k (x ∷ xs) h = ground (arith, includes-count k xs, eq_iff x k, eq_iff k x, h)

pub put-count_if :
    (weigh : Pull → Bool) (e : Pull) (es : List Pull)
    → held (key_of e) es ≡ 0
    → count_if weigh (put e es) ≡ count_if weigh es + (if weigh e then 1 else 0)
unfolding put
put-count_if weigh e [] h = ground arith
put-count_if weigh e (x ∷ xs) h =
    at_if
      (λ (l : List Pull). count_if weigh l ≡ count_if weigh (x ∷ xs) + (if weigh e then 1 else 0))
      (str_eq (key_of e) (key_of x)) _ _ (λ same. ground (arith, h, same))
      λ other.
        let absent : held (key_of e) xs ≡ 0 = ground (arith, h, other) in
        ground (arith, put-count_if weigh e xs absent)

-- A part of a session whose keys are shared with `rest`.
abbrev pub Fair : (rest : String → ℕ) → List String → List Pull → Type 0
Fair rest active es = Shares (λ k. rest k + held k es) active

abbrev pub FairPart : (rest : String → ℕ) → Part → Type 0
FairPart rest p = Fair rest p.active p.session.pending

settle-Fair :
    (rest : String → ℕ) (test : Pull → Bool) (ending : Pull → Effect) (s : Session)
    (active : List String) (o : Option Taken)
    → take_where test s.pending ≡ o
    → Fair rest active s.pending
    → FairPart rest (settle ending s active o)
settle-Fair rest test ending s active none e f = f
settle-Fair rest test ending s active (some t) e f =
    delete-Shares (λ k. rest k + held k s.pending) (λ k. rest k + held k t.rest) t.entry active
      (λ k.
        omega (arith, take_where-count_if (λ (x : Pull). str_eq k (key_of x)) test s.pending t e))
      f

pub settle_where-Fair :
    (rest : String → ℕ) (test : Pull → Bool) (ending : Pull → Effect) (s : Session)
    (active : List String)
    → Fair rest active s.pending
    → FairPart rest (settle_where test ending s active)
unfolding settle_where
settle_where-Fair rest test ending s active f =
    settle-Fair rest test ending s active (take_where test s.pending) refl f

pub same-Shares :
    (own own' : String → ℕ) (active : List String)
    → ((k : String) → own k ≡ own' k)
    → Shares own active
    → Shares own' active
same-Shares own own' active h s = record {
  split = λ k. s.split k ∙ h k;
  once = λ k. omega (arith, h k, s.once k);
}

pub reject_where-Fair :
    (test : Pull → Bool) (reason : Reason) (es : List Pull) (s : Session) (active : List String)
    (rest : String → ℕ)
    → Fair rest active es
    → FairPart rest (reject_where test reason es s active)
unfolding reject_where
reject_where-Fair test reason [] s active rest f = f
reject_where-Fair test reason (e ∷ es) s active rest f =
    at_if (FairPart rest) (test e) _ _
      (λ _. reject_where-Fair test reason es s (delete_key (key_of e) active) rest (
        delete-Shares (λ k. rest k + held k (e ∷ es)) (λ k. rest k + held k es) e active
          (λ k. omega arith) f))
      λ _.
        let others : String → ℕ = λ k. rest k + (if str_eq k (key_of e) then 1 else 0) in
        let r = reject_where test reason es s active in
        same-Shares (λ k. others k + held k r.session.pending)
          (λ k. rest k + held k (e ∷ r.session.pending)) r.active (λ k. omega arith)
          (reject_where-Fair test reason es s active others (
            same-Shares (λ k. rest k + held k (e ∷ es)) (λ k. others k + held k es) active
              (λ k. omega arith) f))

pub request_pull-Fair :
    (id : ℕ) (r : Request) (rest : String → ℕ) (s : Session) (active : List String)
    → Fair rest active s.pending
    → FairPart rest (request_pull id r s active)
unfolding request_pull new_pull
request_pull-Fair id r rest s active f =
    let e : Pull = new_pull id r in
    let key : String = key_of e in
    let waiting : Session = record s { pending = put e s.pending } in
    at_if (FairPart rest) s.disposed _ _ (λ _. f)
      λ _.
        at_if (FairPart rest) (not r.encodes) _ _ (λ _. f)
          λ _.
            at_if (FairPart rest) (includes key active) _ _ (λ _. f)
              λ fresh.
                at_if (FairPart rest) r.aborted _ _ (λ _. f)
                  λ _.
                    let none_yet : count_key key active ≡ 0 = includes-count key active fresh in
                    let absent : held key s.pending ≡ 0 = omega (arith, f.split key) in
                    let added : Fair rest (key ∷ active) waiting.pending = record {
                      split = λ k. ground (
                        arith,
                        f.split k,
                        put-count_if (λ (x : Pull). str_eq k (key_of x)) e s.pending absent,
                      );
                      once = λ k. ground (
                        arith,
                        f.once k,
                        f.split k,
                        none_yet,
                        put-count_if (λ (x : Pull). str_eq k (key_of x)) e s.pending absent,
                        eq_iff k key,
                      );
                    } in
                    at_if (FairPart rest) r.emit_throws _ _
                      (λ _. settle_where-Fair rest _ _ waiting (key ∷ active) added) λ _. added
