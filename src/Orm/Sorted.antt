-- ===== src/Orm/Sorted.antt =====
-- Sorted lists of rows with distinct keys: their items determine them.
use cryptovira.Prelude.{
  ℕ, ◌≤◌, ◌<◌, ◌≡◌, refl, sym, subst, ◌⊎◌, inl, inr, Bool, true, false, List, [], ◌∷◌, ◌++◌, Permᴰ,
  select, All, All-append, All-imply, perm-All, Bool-cases, arith, ◌==◌,
}
use cryptovira.Orm.Rows.{Stored, ascending, IsOrdered}
use cryptovira.Orm.Merge.{IsUnique}

pub All-prefix : {A : Type 0} (P : A → Type 0) (xs ys : List A) → All P (xs ++ ys) → All P xs
All-prefix P [] ys h = tt
All-prefix P (x ∷ xs) ys h = (h.0, All-prefix P xs ys h.1)

pub All-suffix : {A : Type 0} (P : A → Type 0) (xs ys : List A) → All P (xs ++ ys) → All P ys
All-suffix P [] ys h = h
All-suffix P (x ∷ xs) ys h = All-suffix P xs ys h.1

pub All-of_implied :
    {A : Type 0} (P : A → Type 0) (p : A → Bool) (xs : List A)
    → All (λ x. p x ≡ true → P x) xs
    → All P (select p xs)
All-of_implied P p [] h = tt
All-of_implied P p (x ∷ xs) h = elim (Bool-cases (p x)) [
  | inl e ↦ rw e (h.0 e, All-of_implied P p xs h.1)
  | inr e ↦ rw e (All-of_implied P p xs h.1)
]

-- The symmetric relation of an unique list holds between any two of its places.
pub IsUnique-perm :
    {A : Type 0} (clash : A → A → Bool)
    → ((a b : A) → clash a b ≡ clash b a)
    → {l m : List A} → Permᴰ l m
    → IsUnique clash l
    → IsUnique clash m
IsUnique-perm clash symm Permᴰ.nil u = u
IsUnique-perm clash symm (Permᴰ.cons {a} {b} {l₁} {l₂} d h) u =
    (rw⁻¹ d (perm-All (λ y. clash y a ≡ false) h u.0), IsUnique-perm clash symm h u.1)
IsUnique-perm clash symm (Permᴰ.swap {a = a} {b = b} {a' = a'} {b' = b'} {l = l} d d') u =
    let apart : clash b' a' ≡ false = cc (symm a b, u.0.0, d, d') in
    (
      (apart, subst (λ z. All (λ y. clash y z ≡ false) l) d' u.1.0),
      (subst (λ z. All (λ y. clash y z ≡ false) l) d u.0.1, u.1.1),
    )
IsUnique-perm clash symm (Permᴰ.trans h k) u =
    IsUnique-perm clash symm k (IsUnique-perm clash symm h u)

module _ {Row : Type 0} (key : Row → ℕ) where
  abbrev pub Rising : List (Stored Row) → Type 0
  Rising [] = Unit
  Rising (x ∷ l) = All (λ y. key x.row < key y.row) l × Rising l

  pub Rising-append :
      (k : ℕ) (xs ys : List (Stored Row))
      → Rising xs
      → Rising ys
      → All (λ x. key x.row < k) xs
      → All (λ y. k ≤ key y.row) ys
      → Rising (xs ++ ys)
  Rising-append k [] ys r r' below above = r'
  Rising-append k (x ∷ xs) ys r r' below above = (
    All-append _ xs ys r.0 (All-imply _ _ (λ y h. omega (arith, below.0, h)) ys above),
    Rising-append k xs ys r.1 r' below.1 above,
  )

  abbrev pub same_key : Stored Row → Stored Row → Bool
  same_key a b = key a.row == key b.row

  rises :
      (x : Stored Row) (l : List (Stored Row))
      → All (λ y. key x.row ≤ key y.row) l
      → All (λ y. same_key y x ≡ false) l
      → All (λ y. key x.row < key y.row) l
  rises x [] h k = tt
  rises x (y ∷ l) h k = (ground (arith, h.0, k.0), rises x l h.1 k.1)

  -- An ascending list with distinct keys rises.
  pub IsOrdered-Rising :
      (l : List (Stored Row)) → IsOrdered ascending key l → IsUnique same_key l → Rising l
  IsOrdered-Rising [] o u = tt
  IsOrdered-Rising (x ∷ l) o u = (rises x l o.0 u.0, IsOrdered-Rising l o.1 u.1)

  -- Two rising lists of the same items are equal.
  pub Rising-eq_of_items :
      (l m : List (Stored Row))
      → Rising l
      → Rising m
      → ((P : Stored Row → Type 0) → All P l → All P m)
      → ((P : Stored Row → Type 0) → All P m → All P l)
      → l ≡ m
  Rising-eq_of_items [] [] r r' to from = refl
  Rising-eq_of_items [] (y ∷ m) r r' to from = absurd (to (λ z. ⊥) tt).0
  Rising-eq_of_items (x ∷ l) [] r r' to from = absurd (from (λ z. ⊥) tt).0
  Rising-eq_of_items (x ∷ l) (y ∷ m) r r' to from =
      let same : y ≡ x =
        first x y (to (AtLeast x) (inl refl, All-imply _ _ (λ z h. inr h) l r.0)).0
          (from (AtLeast y) (inl refl, All-imply _ _ (λ z h. inr h) m r'.0)).0 in
      let tails : l ≡ m =
        Rising-eq_of_items l m r.1 r'.1
          (λ P h. behind P y m r'.0 (
            subst (λ a. All (Above P a) m) (sym same)
              (to (Above P x)
                ((λ k. absurd (omega (arith, k))), All-imply P (Above P x) (λ z p _. p) l h)).1))
          (λ P h. behind P x l r.0 (
            subst (λ a. All (Above P a) l) same
              (from (Above P y)
                ((λ k. absurd (omega (arith, k))), All-imply P (Above P y) (λ z p _. p) m h)).1)) in
      cc (same, tails)
    where
      AtLeast : Stored Row → Stored Row → Type 0
      AtLeast a z = (z ≡ a) ⊎ (key a.row < key z.row)

      Above : (Stored Row → Type 0) → Stored Row → Stored Row → Type 0
      Above P a z = key a.row < key z.row → P z

      first : (x y : Stored Row) → AtLeast x y → AtLeast y x → y ≡ x
      first x y (inl e) h = e
      first x y (inr h) (inl e) = sym e
      first x y (inr h) (inr k) = absurd (omega (arith, h, k))

      behind :
          (P : Stored Row → Type 0) (a : Stored Row) (m : List (Stored Row))
          → All (λ z. key a.row < key z.row) m
          → All (Above P a) m
          → All P m
      behind P a [] h k = tt
      behind P a (z ∷ m) h k = (k.0 h.0, behind P a m h.1 k.1)
