-- ===== src/Prelude/Related.antt =====
-- Two lists of one length whose items are related, one by one.
use mathlib.Core.Path.{◌≡◌}
use mathlib.Core.Logic.{inl, inr}
use mathlib.Core.Bool.{Bool}
use mathlib.Core.List.{List, [], ◌∷◌, map}
use cryptovira.Prelude.Tests.{Bool-cases}
use cryptovira.Prelude.Lists.{select, All}

abbrev pub Each {ℓ} : {A B : Type ℓ} → (A → B → Type 0) → List A → List B → Type 0
Each R [] [] = Unit
Each R (x ∷ xs) (y ∷ ys) = R x y × Each R xs ys
Each R _ _ = ⊥

pub Each-map {ℓ} :
    {A B : Type ℓ} (R : A → B → Type 0) (f : A → B) (xs : List A)
    → All (λ x. R x (f x)) xs
    → Each R xs (map f xs)
Each-map R f [] h = tt
Each-map R f (x ∷ xs) h = (h.0, Each-map R f xs h.1)

pub Each-imply {ℓ} :
    {A B : Type ℓ} (R S : A → B → Type 0)
    → ((x : A) (y : B) → R x y → S x y)
    → (xs : List A) (ys : List B) → Each R xs ys
    → Each S xs ys
Each-imply R S each [] [] h = tt
Each-imply R S each [] (y ∷ ys) h = absurd h
Each-imply R S each (x ∷ xs) [] h = absurd h
Each-imply R S each (x ∷ xs) (y ∷ ys) h = (each x y h.0, Each-imply R S each xs ys h.1)

-- Tests that agree on related items select related items.
pub Each-select {ℓ} :
    {A : Type ℓ} (R : A → A → Type 0) (p : A → Bool)
    → ((x y : A) → R x y → p y ≡ p x)
    → (xs ys : List A) → Each R xs ys
    → Each R (select p xs) (select p ys)
Each-select R p same [] [] h = tt
Each-select R p same [] (y ∷ ys) h = absurd h
Each-select R p same (x ∷ xs) [] h = absurd h
Each-select R p same (x ∷ xs) (y ∷ ys) h = elim (Bool-cases (p x)) [
  | inl e ↦ rw (same x y h.0, e) (h.0, Each-select R p same xs ys h.1)
  | inr e ↦ rw (same x y h.0, e) (Each-select R p same xs ys h.1)
]
