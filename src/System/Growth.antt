-- ===== src/System/Growth.antt =====
-- Tables that only grow: the rows of one are those of the other, each related to what it was, and
-- some more behind them.
use cryptovira.Prelude.{◌≡◌, ◌∙◌, subst, Bool, false, List, [], ◌∷◌, ◌++◌, append-nil, All, Each}
use cryptovira.Orm.{Stored}
use cryptovira.Orm.Merge.{IsUnique}
use cryptovira.World.Matches.{contents}

-- Each item of the first list is related to the item of its place in the second, which may be
-- longer.
abbrev pub Continues : {A : Type 0} → (A → A → Type 0) → List A → List A → Type 0
Continues R [] ys = Unit
Continues R (x ∷ xs) [] = ⊥
Continues R (x ∷ xs) (y ∷ ys) = R x y × Continues R xs ys

module _ {A : Type 0} (R : A → A → Type 0) where
  pub Each-Continues : (xs ys : List A) → Each R xs ys → Continues R xs ys
  Each-Continues [] ys h = tt
  Each-Continues (x ∷ xs) [] h = h
  Each-Continues (x ∷ xs) (y ∷ ys) h = (h.0, Each-Continues xs ys h.1)

  module _ (R-refl : (x : A) → R x x) where
    pub Continues-append : (xs more : List A) → Continues R xs (xs ++ more)
    Continues-append [] more = tt
    Continues-append (x ∷ xs) more = (R-refl x, Continues-append xs more)

    pub Continues-refl : (xs : List A) → Continues R xs xs
    Continues-refl xs = subst (Continues R xs) (append-nil xs) (Continues-append xs [])

    pub Continues-kept : (xs ys more : List A) → ys ≡ xs ++ more → Continues R xs ys
    Continues-kept xs ys more e = rw e (Continues-append xs more)

  pub Continues-trans :
      ((x y z : A) → R x y → R y z → R x z)
      → (xs ys zs : List A) → Continues R xs ys
      → Continues R ys zs
      → Continues R xs zs
  Continues-trans trans [] ys zs h k = tt
  Continues-trans trans (x ∷ xs) [] zs h k = absurd h
  Continues-trans trans (x ∷ xs) (y ∷ ys) [] h k = k
  Continues-trans trans (x ∷ xs) (y ∷ ys) (z ∷ zs) h k =
      (trans x y z h.0 k.0, Continues-trans trans xs ys zs h.1 k.1)

  -- What the relation carries over holds of the related items.
  pub Each-All :
      (P : A → Type 0)
      → ((x y : A) → R x y → P x → P y)
      → (xs ys : List A) → Each R xs ys
      → All P xs
      → All P ys
  Each-All P carried [] [] h k = tt
  Each-All P carried [] (y ∷ ys) h k = absurd h
  Each-All P carried (x ∷ xs) [] h k = absurd h
  Each-All P carried (x ∷ xs) (y ∷ ys) h k = (carried x y h.0 k.0, Each-All P carried xs ys h.1 k.1)

module _ {Row : Type 0} (clash : Row → Row → Bool) (R : Stored Row → Stored Row → Type 0)
    (same : (a b a' b' : Stored Row)
      → R a a'
      → R b b'
      → clash b'.row a'.row ≡ clash b.row a.row) where
  Each-apart :
      (x x' : Stored Row) (xs ys : List (Stored Row))
      → R x x'
      → Each R xs ys
      → All (λ y. clash y x.row ≡ false) (contents xs)
      → All (λ y. clash y x'.row ≡ false) (contents ys)
  Each-apart x x' [] [] r h k = tt
  Each-apart x x' [] (b ∷ ys) r h k = absurd h
  Each-apart x x' (a ∷ xs) [] r h k = absurd h
  Each-apart x x' (a ∷ xs) (b ∷ ys) r h k =
      (same x a x' b r h.0 ∙ k.0, Each-apart x x' xs ys r h.1 k.1)

  -- Rows that keep their constrained columns keep the constraint.
  pub Each-IsUnique :
      (xs ys : List (Stored Row))
      → Each R xs ys
      → IsUnique clash (contents xs)
      → IsUnique clash (contents ys)
  Each-IsUnique [] [] h u = tt
  Each-IsUnique [] (y ∷ ys) h u = absurd h
  Each-IsUnique (x ∷ xs) [] h u = absurd h
  Each-IsUnique (x ∷ xs) (y ∷ ys) h u =
      (Each-apart x y xs ys h.0 h.1 u.0, Each-IsUnique xs ys h.1 u.1)
