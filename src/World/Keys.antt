-- ===== src/World/Keys.antt =====
-- Queries by primary key.
use cryptovira.Prelude.{
  ℕ, ◌≡◌, refl, sym, ap, Bool, true, false, List, [], ◌∷◌, select, any, All, All-imply, All-pair,
  All-trivial, ◌==◌, Each, Each-map, Each-select, ==_refl, arith, Bool-cases, inl, inr,
}
use cryptovira.Exec.{ok}
use cryptovira.Orm.{Orm, Stored, same_id, written}
use cryptovira.Orm.Merge.{IsUnique}
use cryptovira.World.Queries.{get, has_id, get-one, get-select}

module _ {Row : Type 0} where
  no_other :
      (i : ℕ) (x : Stored Row) (l : List (Stored Row))
      → has_id i x ≡ true
      → All (λ y. same_id y x ≡ false) l
      → select (has_id i) l ≡ []
  no_other i x [] e h = refl
  no_other i x (y ∷ l) e h =
      let k : has_id i y ≡ false = ground (arith, h.0) in rw k (no_other i x l e h.1)

  only_one :
      (i : ℕ) (l : List (Stored Row))
      → IsUnique (λ (a b : Stored Row). same_id a b) l
      → any (has_id i) l ≡ true
      → (s : Stored Row) × (select (has_id i) l ≡ s ∷ [])
  only_one i [] u h = absurd (cc h)
  only_one i (x ∷ l) u h = elim (Bool-cases (has_id i x)) [
    | inl e ↦ (x, rw e (ap (λ m. x ∷ m) (no_other i x l e u.0)))
    | inr e ↦ let (s, at) = only_one i l u.1 (rw e at h) in (s, rw e at)
  ]

  -- Every row is the one that its primary key finds.
  self_select :
      (l : List (Stored Row))
      → IsUnique (λ (a b : Stored Row). same_id a b) l
      → All (λ x. select (has_id x.id) l ≡ x ∷ []) l
  self_select [] u = tt
  self_select (x ∷ l) u = (
    rw (==_refl x.id) (ap (λ m. x ∷ m) (no_other x.id x l (==_refl x.id) u.0)),
    All-imply _ _ (λ y h. let k : has_id y.id x ≡ false = ground (arith, h.0) in rw k h.1) l
        (All-pair (λ y. same_id y x ≡ false) _ l u.0 (self_select l u.1)),
  )

  pub single_related :
      (R : Stored Row → Stored Row → Type 0) (x : Stored Row) (l : List (Stored Row))
      → Each R (x ∷ []) l
      → (y : Stored Row) × (l ≡ y ∷ []) × R x y
  single_related R x [] h = absurd h
  single_related R x (y ∷ []) h = (y, refl, h.0)
  single_related R x (y ∷ z ∷ l) h = absurd h.1

written-id : {Row : Type 0} (i : ℕ) (f : Row → Row) (x : Stored Row) → (written i f x).id ≡ x.id
written-id i f x = elim (Bool-cases (x.id == i)) [ inl e ↦ rw e refl | inr e ↦ rw e refl ]

module _ (orm : Orm) {Row : Type 0} {clash : Row → Row → Bool} where
  open orm use {Table, rows, ids_law, save, save_law}

  pub get_by_id :
      (i : ℕ) (t : Table Row clash)
      → any (has_id i) (rows t) ≡ true
      → (s : Stored Row) × (get orm (has_id i) t ≡ ok s)
  get_by_id i t h =
      let (s, at) = only_one i (rows t) (ids_law t) h in (s, get-one orm (has_id i) t s at)

  -- Every row is found by its primary key.
  pub get_self : (t : Table Row clash) → All (λ x. get orm (has_id x.id) t ≡ ok x) (rows t)
  get_self t =
      All-imply _ _ (λ x at. get-one orm (has_id x.id) t x at) (rows t)
        (self_select (rows t) (ids_law t))

  -- A row is found again in a table whose rows are related to those of the first, keys kept.
  pub get_related :
      (R : Stored Row → Stored Row → Type 0) (i : ℕ) (t t' : Table Row clash) (x : Stored Row)
      → ((a b : Stored Row) → R a b → b.id ≡ a.id)
      → Each R (rows t) (rows t')
      → get orm (has_id i) t ≡ ok x
      → (y : Stored Row) × (get orm (has_id i) t' ≡ ok y) × R x y
  get_related R i t t' x same each found =
      let related : Each R (x ∷ []) (select (has_id i) (rows t')) =
        rw (sym (get-select orm (has_id i) t x found))
          (Each-select R (has_id i) (λ a b r. rw (same a b r) refl) (rows t) (rows t') each) in
      let (y, at, r) = single_related R x _ related in (y, get-one orm (has_id i) t' y at, r)

  -- After a `save` that leaves the constrained columns as they are, the row as it was written.
  pub get_saved :
      (i j : ℕ) (f : Row → Row) (t : Table Row clash) (x y : Stored Row)
      → ((a b : Row) → (clash (f a) b ≡ clash a b) × (clash b (f a) ≡ clash b a))
      → get orm (has_id i) t ≡ ok x
      → get orm (has_id i) (save j f t) ≡ ok y
      → y ≡ written j f x
  get_saved i j f t x y kept found after =
      let each : Each (λ a b. b ≡ written j f a) (rows t) (rows (save j f t)) =
        rw (save_law j f t kept) (
          Each-map _ (written j f) (rows t)
            (All-imply _ _ (λ a _. refl) (rows t) (All-trivial (rows t)))) in
      let (z, at, is) =
        get_related (λ a b. b ≡ written j f a) i t (save j f t) x (λ a b e. rw e (written-id j f a))
          each found in
      let same : y ≡ z = cc (at, after) in rw same is
