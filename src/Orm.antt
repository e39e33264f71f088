-- ===== src/Orm.antt =====
-- What the program uses of Django's ORM: database tables with a primary key and at most one unique
-- constraint, reached through querysets. The ORM is no part of the repository, so it is a parameter
-- of the model; the fields that end in a law state its documented behaviour.
mod Rows
pub mod Merge
pub mod Memory
pub mod Sorted
pub use Rows.*
use cryptovira.Prelude.{
  ℕ, ◌≤◌, ◌≡◌, Bool, true, false, Option, none, some, List, [], ◌∷◌, ◌++◌, map, Permᴰ, select, any,
}

pub record Orm : Type 1 where
  -- a table whose rows are `Row`, with the unique constraint that two rows `clash`
  pub Table : (Row : Type 0) → (Row → Row → Bool) → Type 0
  -- all rows, by primary key
  pub rows : {Row : Type 0} {clash : Row → Row → Bool} → Table Row clash → List (Stored Row)
  -- `objects.filter(...)`
  pub filter :
      {Row : Type 0} {clash : Row → Row → Bool}
      → (Stored Row → Bool)
      → Table Row clash
      → List (Stored Row)
  -- `.order_by("key")` and `.order_by("-key")`
  pub order_by : {Row : Type 0} → Direction → (Row → ℕ) → List (Stored Row) → List (Stored Row)
  -- `objects.create(...)`; `none` stands for `IntegrityError`
  pub create :
      {Row : Type 0} {clash : Row → Row → Bool}
      → Row
      → Table Row clash
      → Option (Stored Row × Table Row clash)
  -- `objects.bulk_create(new, ignore_conflicts=True)`
  pub bulk_create :
      {Row : Type 0} {clash : Row → Row → Bool} → List Row → Table Row clash → Table Row clash
  -- `instance.save(update_fields=...)`: writes columns of the row with that primary key
  pub save :
      {Row : Type 0} {clash : Row → Row → Bool}
      → ℕ
      → (Row → Row)
      → Table Row clash
      → Table Row clash
  -- A query returns the rows that match, in no promised order.
  pub filter_law :
      {Row : Type 0} {clash : Row → Row → Bool} (p : Stored Row → Bool) (t : Table Row clash)
      → Permᴰ (filter p t) (select p (rows t))
  pub order_by_law :
      {Row : Type 0} (d : Direction) (key : Row → ℕ) (l : List (Stored Row))
      → Permᴰ (order_by d key l) l
  pub order_by_sorted :
      {Row : Type 0} (d : Direction) (key : Row → ℕ) (l : List (Stored Row))
      → IsOrdered d key (order_by d key l)
  -- `create` fails on a row that violates the constraint, and appends any other.
  pub create_taken_law :
      {Row : Type 0} {clash : Row → Row → Bool} (r : Row) (t : Table Row clash)
      → any (λ s. clash r s.row) (rows t) ≡ true
      → create r t ≡ none
  pub create_free_law :
      {Row : Type 0} {clash : Row → Row → Bool} (r : Row) (t : Table Row clash)
      → any (λ s. clash r s.row) (rows t) ≡ false
      → (i : ℕ) × (t' : Table Row clash) × (create r t ≡ some (record { id = i; row = r }, t'))
        × (rows t' ≡ rows t ++ record { id = i; row = r } ∷ [])
  -- `bulk_create` leaves the stored rows as they are and adds some, one by one, but those that
  -- violate the constraint.
  pub bulk_create_law :
      {Row : Type 0} {clash : Row → Row → Bool} (new : List Row) (t : Table Row clash)
      → (more : List (Stored Row)) × (rows (bulk_create new t) ≡ rows t ++ more)
        × (map (λ s. s.row) (rows (bulk_create new t))
            ≡ Merge.merge clash (map (λ s. s.row) (rows t)) new)
  -- Columns outside the constraint are written without a check.
  pub save_law :
      {Row : Type 0} {clash : Row → Row → Bool} (i : ℕ) (f : Row → Row) (t : Table Row clash)
      → ((a b : Row) → (clash (f a) b ≡ clash a b) × (clash b (f a) ≡ clash b a))
      → rows (save i f t) ≡ map (written i f) (rows t)
  -- No two rows of a table have one primary key.
  pub ids_law :
      {Row : Type 0} {clash : Row → Row → Bool} (t : Table Row clash)
      → Merge.IsUnique (λ (a b : Stored Row). same_id a b) (rows t)
