-- ===== src/Retry/Executor/Ids.antt =====
-- The JSON-RPC ids of the attempts: a retry sends fresh ones.
use plug_node.Base.{
  ℕ, zero, suc, ◌+◌, ◌<◌, ◌≡◌, ◌≢◌, ◌∙◌, sym, refl, Option, some, List, [], ◌∷◌, All, arith,
}
use plug_node.Values.Json.{Json}
use plug_node.Retry.Policy.{retry_kind}
use plug_node.Retry.Executor.{
  Command, Bridge, single, batch, Request, Uuids, rotate_from, rotate_command, rotate_for_retry,
}

abbrev pub command_ids : List Command → List (Option Json)
command_ids [] = []
command_ids (c ∷ cs) = c.id ∷ command_ids cs

-- The ids of a request, `none` for one that is left out.
abbrev pub ids : Bridge → List (Option Json)
ids (single c) = c.id ∷ []
ids (batch cs) = command_ids cs

-- An id that an attempt draws.
abbrev Drawn : (ℕ → Json) → Option Json → Type 0
Drawn uuid o = (i : ℕ) × (o ≡ some (uuid i))

rotate_from-Drawn :
    (uuid : ℕ → Json) (i : ℕ) (cs : List Command)
    → All (Drawn uuid) (command_ids (rotate_from uuid i cs))
unfolding rotate_from
rotate_from-Drawn uuid i [] = tt
rotate_from-Drawn uuid i (c ∷ cs) = ((i, refl), rotate_from-Drawn uuid (i + 1) cs)

rotate_command-Drawn :
    (uuid : ℕ → Json) (b : Bridge) → All (Drawn uuid) (ids (rotate_command uuid b))
unfolding rotate_command
rotate_command-Drawn uuid (single c) = ((0, refl), tt)
rotate_command-Drawn uuid (batch cs) = rotate_from-Drawn uuid 0 cs

-- Every operation of the node is of a kind that is retried, so that each retry draws its ids.
rotate_for_retry-Drawn :
    (uuid : Uuids) (r : Request) (n : ℕ)
    → 0 < n
    → All (Drawn (uuid n)) (ids (rotate_for_retry uuid r n).command)
unfolding rotate_for_retry retry_kind
rotate_for_retry-Drawn uuid r n h = ground (arith, rotate_command-Drawn (uuid n) r.command)

-- No id stands in both lists.
abbrev pub Apart : List (Option Json) → List (Option Json) → Type 0
Apart xs ys = All (λ x. All (λ y. x ≢ y) ys) xs

All-map {ℓ κ μ} :
    {A : Type ℓ} {P : A → Type κ} {Q : A → Type μ}
    → ((a : A) → P a → Q a)
    → (xs : List A) → All P xs
    → All Q xs
All-map f [] h = tt
All-map f (x ∷ xs) (p, h) = (f x p, All-map f xs h)

some_eq : {a b : Json} → some a ≡ some b → a ≡ b
some_eq h = cc

Drawn-Apart :
    (uuid : Uuids) (m n : ℕ)
    → ((j k i l : ℕ) → j ≢ k → uuid j i ≢ uuid k l)
    → m < n
    → (xs ys : List (Option Json)) → All (Drawn (uuid m)) xs
    → All (Drawn (uuid n)) ys
    → Apart xs ys
Drawn-Apart uuid m n differ h xs ys hx hy =
    All-map {Q = λ x. All (λ y. x ≢ y) ys}
      (λ x (p : Drawn (uuid m) x).
        All-map {Q = λ y. x ≢ y}
          (λ y (q : Drawn (uuid n) y) e.
            differ m n p.0 q.0 (λ z. absurd (omega arith)) (some_eq (sym p.1 ∙ e ∙ q.1)))
          ys hy)
      xs hx

-- Two attempts never use the same id: not twice among the retries, and no retry uses an id of the
-- first attempt; given that the drawn ids differ for different attempts and from the caller's.
pub rotate-Apart :
    (uuid : Uuids) (r : Request) (m n : ℕ)
    → ((j k i l : ℕ) → j ≢ k → uuid j i ≢ uuid k l)
    → All (λ o. (k i : ℕ) → o ≢ some (uuid k i)) (ids r.command)
    → m < n
    → Apart (ids (rotate_for_retry uuid r m).command) (ids (rotate_for_retry uuid r n).command)
unfolding rotate_for_retry
rotate-Apart uuid r zero n differ fresh h =
    All-map {Q = λ x. All (λ y. x ≢ y) (ids (rotate_for_retry uuid r n).command)}
      (λ x f.
        All-map {Q = λ y. x ≢ y} (λ y (q : Drawn (uuid n) y) e. f n q.0 (e ∙ q.1)) _
          (rotate_for_retry-Drawn uuid r n h))
      _ fresh
rotate-Apart uuid r (suc m) n differ fresh h =
    Drawn-Apart uuid (suc m) n differ h _ _ (rotate_for_retry-Drawn uuid r (suc m) (omega arith))
      (rotate_for_retry-Drawn uuid r n (omega arith))
