-- ===== src/Orm/Merge.antt =====
-- `INSERT ... ON CONFLICT DO NOTHING` on a list of rows, and what it keeps.
use cryptovira.Prelude.{
  ◌≡◌, refl, sym, ◌∙◌, Bool, true, false, List, [], ◌∷◌, ◌++◌, append_assoc, append-nil, arith, All,
  All-append, All-trivial, any, any-append, Bool-cases, inl, inr, if◌then◌else◌,
}

module _ {A : Type 0} (clash : A → A → Bool) where
  -- One row goes in unless it clashes with a row that is there.
  abbrev pub insert_new : List A → A → List A
  insert_new xs n = if any (clash n) xs then xs else xs ++ n ∷ []

  unfoldable pub merge : List A → List A → List A
  merge xs [] = xs
  merge xs (n ∷ ns) = merge (insert_new xs n) ns

  -- No row clashes with a row before it.
  abbrev pub IsUnique : List A → Type 0
  IsUnique [] = Unit
  IsUnique (x ∷ xs) = All (λ y. clash y x ≡ false) xs × IsUnique xs

  pub snoc-IsUnique :
      (xs : List A) (n : A) → IsUnique xs → any (clash n) xs ≡ false → IsUnique (xs ++ n ∷ [])
  snoc-IsUnique [] n u e = (tt, tt)
  snoc-IsUnique (x ∷ xs) n u e = (
    All-append (λ y. clash y x ≡ false) xs (n ∷ []) u.0 (ground arith, tt),
    snoc-IsUnique xs n u.1 (ground arith),
  )

  insert_new-IsUnique : (xs : List A) (n : A) → IsUnique xs → IsUnique (insert_new xs n)
  insert_new-IsUnique xs n u = elim (Bool-cases (any (clash n) xs)) [
    | inl e ↦ rw e u
    | inr e ↦ rw e (snoc-IsUnique xs n u e)
  ]

  -- The constraint holds of a merged table.
  pub merge-IsUnique : (xs ns : List A) → IsUnique xs → IsUnique (merge xs ns)
  unfolding merge
  merge-IsUnique xs [] u = u
  merge-IsUnique xs (n ∷ ns) u = merge-IsUnique (insert_new xs n) ns (insert_new-IsUnique xs n u)

  -- A merge appends some of the new rows.
  pub merge-All :
      (P : A → Type 0) (xs ns : List A)
      → All P ns
      → (more : List A) × (merge xs ns ≡ xs ++ more) × All P more
  unfolding merge
  merge-All P xs [] h = ([], sym (append-nil xs), tt)
  merge-All P xs (n ∷ ns) h = elim (Bool-cases (any (clash n) xs)) [
    | inl e ↦ rw e (merge-All P xs ns h.1)
    | inr e ↦
        let (more, at, all) = merge-All P (xs ++ n ∷ []) ns h.1 in
        rw e (n ∷ more, at ∙ append_assoc xs (n ∷ []) more, (h.0, all))
  ]

  pub merge-append : (xs ns : List A) → (more : List A) × (merge xs ns ≡ xs ++ more)
  merge-append xs ns = let (more, e, _) = merge-All (λ n. Unit) xs ns (All-trivial ns) in (more, e)

  pub any-merge : (p : A → Bool) (xs ns : List A) → any p xs ≡ true → any p (merge xs ns) ≡ true
  any-merge p xs ns h = let (more, e) = merge-append xs ns in rw (e, any-append) (ground arith)

  module _ (clash_refl : (a : A) → clash a a ≡ true) where
    insert_new-present : (xs : List A) (n : A) → any (clash n) (insert_new xs n) ≡ true
    insert_new-present xs n = elim (Bool-cases (any (clash n) xs)) [
      | inl e ↦ rw e e
      | inr e ↦ rw e (rw any-append (ground (arith, clash_refl n)))
    ]

    -- Every row that was merged is there, or a row that it clashes with.
    pub merge-present : (xs ns : List A) → All (λ n. any (clash n) (merge xs ns) ≡ true) ns
    unfolding merge
    merge-present xs [] = tt
    merge-present xs (n ∷ ns) = (
      any-merge (clash n) (insert_new xs n) ns (insert_new-present xs n),
      merge-present (insert_new xs n) ns,
    )

    merge-taken : (xs ns : List A) → All (λ n. any (clash n) xs ≡ true) ns → merge xs ns ≡ xs
    unfolding merge
    merge-taken xs [] h = refl
    merge-taken xs (n ∷ ns) h = rw h.0 (merge-taken xs ns h.1)

    -- A second merge of the same rows changes nothing.
    pub merge-merge : (xs ns : List A) → merge (merge xs ns) ns ≡ merge xs ns
    merge-merge xs ns = merge-taken (merge xs ns) ns (merge-present xs ns)
