-- ===== src/World/Queries.antt =====
-- Queries over a table of the ORM, and what is known of their results.
use cryptovira.Prelude.{
  ℕ, ◌≡◌, refl, ◌≢◌, sym, ◌∙◌, ap, subst, Bool, true, false, List, [], ◌∷◌, ◌++◌, perm_one,
  perm_none, select, any, any-map, All, All-select, All-map, All-trivial, ◌==◌, Bool-cases, inl,
  inr,
}
use cryptovira.Exec.{Result, ok, err, does_not_exist, multiple_objects_returned, retry}
use cryptovira.Orm.{Orm, Stored, written}
use cryptovira.Orm.Merge.{
  IsUnique, snoc-IsUnique, merge-IsUnique, merge-All, merge-present, merge-merge, merge,
}
use cryptovira.World.Matches.{contents, select-one, select_one-All, any_in_select, Memᴰ-of_select}
use mathlib.Core.List.Permᴰ
use mathlib.Core.List.{Memᴰ}
use mathlib.Core.List.{append_cancel_left, map-append}

-- `objects.get(...)` of the rows that match
unfoldable pub the_only {ℓ} : {A : Type ℓ} → List A → Result A
the_only [] = err does_not_exist
the_only (x ∷ []) = ok x
the_only (x ∷ y ∷ l) = err multiple_objects_returned

abbrev pub has_id : {Row : Type 0} → ℕ → Stored Row → Bool
has_id i s = s.id == i

module _ (orm : Orm) {Row : Type 0} {clash : Row → Row → Bool} where
  open orm use {Table, rows, filter, filter_law}

  unfoldable pub get : (Stored Row → Bool) → Table Row clash → Result (Stored Row)
  unfolding the_only
  get p t = the_only (filter p t)

  -- `get` on one match returns it, and on none it raises `DoesNotExist`.
  pub get-one :
      (p : Stored Row → Bool) (t : Table Row clash) (s : Stored Row)
      → select p (rows t) ≡ s ∷ []
      → get p t ≡ ok s
  unfolding get
  get-one p t s h = rw (perm_one s (filter_law p t) h) refl

  pub get-none :
      (p : Stored Row → Bool) (t : Table Row clash)
      → select p (rows t) ≡ []
      → get p t ≡ err does_not_exist
  unfolding get
  get-none p t h = rw (perm_none (filter_law p t) h) refl

  open orm use {bulk_create, bulk_create_law}

  pub bulk_create-IsUnique :
      (new : List Row) (t : Table Row clash)
      → IsUnique clash (contents (rows t))
      → IsUnique clash (contents (rows (bulk_create new t)))
  bulk_create-IsUnique new t u =
      let (_, _, e) = bulk_create_law new t in rw e (merge-IsUnique clash _ new u)

  -- What `bulk_create` adds is among the new rows, and stands behind the stored ones.
  pub bulk_create-append :
      (P : Row → Type 0) (new : List Row) (t : Table Row clash)
      → All P new
      → (more : List (Stored Row)) × (rows (bulk_create new t) ≡ rows t ++ more)
        × All P (contents more)
  bulk_create-append P new t h =
      let (more, at, e) = bulk_create_law new t in
      let (added, at', all) = merge-All clash P (contents (rows t)) new h in
      let regroup : contents (rows t) ++ added ≡ contents (rows t) ++ contents more =
        sym at' ∙ sym e ∙ ap contents at ∙ map-append (λ s. s.row) (rows t) more in
      (more, at, subst (All P) (append_cancel_left (contents (rows t)) _ _ regroup) all)

  -- Each new row is in the table afterwards, or a row that it clashes with.
  pub bulk_create-present :
      ((r : Row) → clash r r ≡ true)
      → (new : List Row) (t : Table Row clash)
      → All (λ r. any (clash r) (contents (rows (bulk_create new t))) ≡ true) new
  bulk_create-present clash_refl new t =
      let (_, _, e) = bulk_create_law new t in rw e (merge-present clash clash_refl _ new)

  -- The same rows once more change nothing.
  pub bulk_create-again :
      ((r : Row) → clash r r ≡ true)
      → (new : List Row) (t : Table Row clash)
      → contents (rows (bulk_create new (bulk_create new t))) ≡ contents (rows (bulk_create new t))
  bulk_create-again clash_refl new t =
      let (_, _, e) = bulk_create_law new t in
      let (_, _, e') = bulk_create_law new (bulk_create new t) in
      e' ∙ subst (λ l. merge clash l new ≡ l) (sym e) (merge-merge clash clash_refl _ new)

  pub get_unique :
      (p : Stored Row → Bool)
      → ((a b : Stored Row) → p a ≡ true → p b ≡ true → clash b.row a.row ≡ true)
      → (t : Table Row clash) → IsUnique clash (contents (rows t))
      → any p (rows t) ≡ true
      → (s : Stored Row) × (get p t ≡ ok s) × (select p (rows t) ≡ s ∷ []) × (p s ≡ true)
  get_unique p same t u h =
      let (s, at, e) = select-one clash p same (rows t) u h in (s, get-one p t s at, at, e)

-- A row appended to a table that has none like it keeps the constraint.
pub append-IsUnique :
    {Row : Type 0} (clash : Row → Row → Bool) (l : List (Stored Row)) (s : Stored Row)
    → IsUnique clash (contents l)
    → any (λ x. clash s.row x.row) l ≡ false
    → IsUnique clash (contents (l ++ s ∷ []))
append-IsUnique clash l s u h =
    rw map-append (snoc-IsUnique clash (contents l) s.row u (rw any-map h))

the_only-ok : {A : Type 0} (l : List A) {a : A} → the_only l ≡ ok a → l ≡ a ∷ []
unfolding the_only
the_only-ok [] h = cc
the_only-ok (x ∷ []) h = cc
the_only-ok (x ∷ y ∷ l) h = cc

the_only-ne-retry : {A : Type 0} (l : List A) (c : ℕ) → the_only l ≢ err (retry c)
unfolding the_only
the_only-ne-retry [] c h = cc
the_only-ne-retry (x ∷ []) c h = cc
the_only-ne-retry (x ∷ y ∷ l) c h = cc

written-closed :
    {Row : Type 0} (i : ℕ) (f : Row → Row) (Q : Row → Type 0)
    → ((y : Row) → Q (f y))
    → (x : Stored Row) → ((written i f x).id == i) ≡ true
    → Q (written i f x).row
written-closed i f Q wrote x h = elim (Bool-cases (x.id == i)) [
  | inl e ↦ rw e (wrote x.row)
  | inr e ↦ let k : (x.id == i) ≡ true = rw e at h in absurd (cc (k, e))
]

module _ (orm : Orm) {Row : Type 0} {clash : Row → Row → Bool} where
  open orm use {Table, rows, filter, filter_law, save, save_law}

  -- `get` returned the one row that matches.
  pub get-select :
      (p : Stored Row → Bool) (t : Table Row clash) (s : Stored Row)
      → get orm p t ≡ ok s
      → select p (rows t) ≡ s ∷ []
  unfolding get
  get-select p t s h = perm_one s (Permᴰ.symm (filter_law p t)) (the_only-ok (filter p t) h)

  pub get-ok :
      (p : Stored Row → Bool) (t : Table Row clash) (s : Stored Row)
      → get orm p t ≡ ok s
      → (p s ≡ true) × All (λ x. p x ≡ true → x ≡ s) (rows t)
  get-ok p t s h =
      let only = get-select p t s h in
      (
        (subst (All (λ x. p x ≡ true)) only (All-select p (rows t))).0,
        select_one-All p (rows t) s only,
      )

  -- After a `save` that leaves the constrained columns as they are, the row of that primary key has
  -- what the write gives every row.
  pub saved-All :
      (i : ℕ) (f : Row → Row) (Q : Row → Type 0) (t : Table Row clash)
      → ((a b : Row) → (clash (f a) b ≡ clash a b) × (clash b (f a) ≡ clash b a))
      → ((y : Row) → Q (f y))
      → All (λ x. (x.id == i) ≡ true → Q x.row) (rows (save i f t))
  saved-All i f Q t kept wrote = rw (save_law i f t kept) (
      All-map (written i f) (λ x. Unit {0}) _ (λ x _. written-closed i f Q wrote x) (rows t)
        (All-trivial (rows t)))

  -- `get` raises no error of the task queue.
  pub get-ne-retry :
      (p : Stored Row → Bool) (t : Table Row clash) (c : ℕ) → get orm p t ≢ err (retry c)
  unfolding get
  get-ne-retry p t c h = the_only-ne-retry (filter p t) c h

  -- It is among the rows.
  pub get-stored :
      (p : Stored Row → Bool) (t : Table Row clash) (s : Stored Row) (q : Stored Row → Bool)
      → get orm p t ≡ ok s
      → q s ≡ true
      → any q (rows t) ≡ true
  get-stored p t s q h e = any_in_select p q (rows t) (rw (get-select p t s h) (rw e refl))

  pub get-Memᴰ :
      (p : Stored Row → Bool) (t : Table Row clash) (s : Stored Row)
      → get orm p t ≡ ok s
      → Memᴰ s (rows t)
  get-Memᴰ p t s h = Memᴰ-of_select p (rows t) (rw (get-select p t s h) (Memᴰ.head refl))
