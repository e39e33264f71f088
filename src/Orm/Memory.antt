-- ===== src/Orm/Memory.antt =====
-- An ORM that keeps its tables in memory: it shows that the laws can be met, and it runs in tests.
use cryptovira.Prelude.{
  ℕ, ◌+◌, ◌≤◌, ◌≡◌, refl, sym, ◌∙◌, ap, Bool, true, false, Option, none, some, List, [], ◌∷◌, ◌++◌,
  map, Permᴰ, arith, length, select, any, All, leb, ◌==◌, if◌then◌else◌, Bool-cases, inl, inr,
}
use mathlib.Core.List.Permᴰ
use cryptovira.Orm.Rows.{
  Stored, Direction, ascending, descending, same_id, written, Precedes, IsOrdered,
}
use cryptovira.Orm.Merge.{merge, merge-append, IsUnique}
use cryptovira.Orm.{Orm}

-- The primary key of a row is its place.
pub record Memory (Row : Type 0) (clash : Row → Row → Bool) : Type 0 where
  pub contents : List Row

abbrev pub number : {Row : Type 0} → ℕ → List Row → List (Stored Row)
number i [] = []
number i (x ∷ xs) = record { id = i; row = x } ∷ number (i + 1) xs

abbrev pub comes_before : Direction → ℕ → ℕ → Bool
comes_before ascending a b = leb a b
comes_before descending a b = leb b a

-- What the test of the sort tells.
precedes : (d : Direction) (a b : ℕ) → comes_before d a b ≡ true → Precedes d a b
precedes ascending a b e = ground arith
precedes descending a b e = ground arith

follows : (d : Direction) (a b : ℕ) → comes_before d a b ≡ false → Precedes d b a
follows ascending a b e = ground arith
follows descending a b e = ground arith

Precedes-trans : (d : Direction) (a b c : ℕ) → Precedes d a b → Precedes d b c → Precedes d a c
Precedes-trans ascending a b c h k = omega arith
Precedes-trans descending a b c h k = omega arith

module _ {Row : Type 0} (d : Direction) (key : Row → ℕ) where
  abbrev pub sort_insert : Stored Row → List (Stored Row) → List (Stored Row)
  sort_insert x [] = x ∷ []
  sort_insert x (y ∷ l) =
      let rest = y ∷ sort_insert x l in
      if comes_before d (key x.row) (key y.row) then x ∷ y ∷ l else rest

  abbrev pub sort : List (Stored Row) → List (Stored Row)
  sort [] = []
  sort (x ∷ l) = sort_insert x (sort l)

  sort_insert-perm : (x : Stored Row) (l : List (Stored Row)) → Permᴰ (sort_insert x l) (x ∷ l)
  sort_insert-perm x [] = Permᴰ.cons refl Permᴰ.nil
  sort_insert-perm x (y ∷ l) = elim (Bool-cases (comes_before d (key x.row) (key y.row))) [
    | inl e ↦ rw e (Permᴰ.refl _)
    | inr e ↦ rw e (Permᴰ.trans (Permᴰ.cons refl (sort_insert-perm x l)) (Permᴰ.swap refl refl))
  ]

  pub sort-perm : (l : List (Stored Row)) → Permᴰ (sort l) l
  sort-perm [] = Permᴰ.nil
  sort-perm (x ∷ l) = Permᴰ.trans (sort_insert-perm x (sort l)) (Permᴰ.cons refl (sort-perm l))

  abbrev Below : ℕ → List (Stored Row) → Type 0
  Below k l = All (λ y. Precedes d k (key y.row)) l

  weaken : (j k : ℕ) (l : List (Stored Row)) → Precedes d j k → Below k l → Below j l
  weaken j k [] h b = tt
  weaken j k (y ∷ l) h b = (Precedes-trans d j k (key y.row) h b.0, weaken j k l h b.1)

  insert-Below :
      (k : ℕ) (x : Stored Row) (l : List (Stored Row))
      → Precedes d k (key x.row)
      → Below k l
      → Below k (sort_insert x l)
  insert-Below k x [] h b = (h, tt)
  insert-Below k x (y ∷ l) h b = elim (Bool-cases (comes_before d (key x.row) (key y.row))) [
    | inl e ↦ rw e (h, b)
    | inr e ↦ rw e (b.0, insert-Below k x l h b.1)
  ]

  insert-IsOrdered :
      (x : Stored Row) (l : List (Stored Row))
      → IsOrdered d key l
      → IsOrdered d key (sort_insert x l)
  insert-IsOrdered x [] o = (tt, tt)
  insert-IsOrdered x (y ∷ l) o = elim (Bool-cases (comes_before d (key x.row) (key y.row))) [
    | inl e ↦ rw e ((precedes d _ _ e, weaken _ _ l (precedes d _ _ e) o.0), o)
    | inr e ↦ rw e (insert-Below (key y.row) x l (follows d _ _ e) o.0, insert-IsOrdered x l o.1)
  ]

  pub sort-IsOrdered : (l : List (Stored Row)) → IsOrdered d key (sort l)
  sort-IsOrdered [] = tt
  sort-IsOrdered (x ∷ l) = insert-IsOrdered x (sort l) (sort-IsOrdered l)

-- No later number is an earlier one.
number-above :
    {Row : Type 0} (i j : ℕ) (x : Row) (xs : List Row)
    → i + 1 ≤ j
    → All (λ y. same_id y (record { id = i; row = x }) ≡ false) (number j xs)
number-above i j x [] h = tt
number-above i j x (y ∷ xs) h = (ground arith, number-above i (j + 1) x xs (omega arith))

pub number-IsUnique :
    {Row : Type 0} (i : ℕ) (xs : List Row)
    → IsUnique (λ (a b : Stored Row). same_id a b) (number i xs)
number-IsUnique i [] = tt
number-IsUnique i (x ∷ xs) = (number-above i (i + 1) x xs (omega arith), number-IsUnique (i + 1) xs)

map-number : {Row : Type 0} (i : ℕ) (xs : List Row) → map (λ s. s.row) (number i xs) ≡ xs
map-number i [] = refl
map-number i (x ∷ xs) = ap (λ l. x ∷ l) (map-number (i + 1) xs)

pub number-append :
    {Row : Type 0} (i : ℕ) (xs ys : List Row)
    → number i (xs ++ ys) ≡ number i xs ++ number (i + length xs) ys
number-append i [] ys = ap (λ k. number k ys) (omega arith)
number-append i (x ∷ xs) ys =
    ap (λ l. record { id = i; row = x } ∷ l)
      (number-append (i + 1) xs ys ∙ ap (λ k. number (i + 1) xs ++ number k ys) (omega arith))

-- `save` in memory: the columns of the row at a place
abbrev pub write_at : {Row : Type 0} → ℕ → ℕ → (Row → Row) → List Row → List Row
write_at i j f [] = []
write_at i j f (x ∷ xs) = (if j == i then f x else x) ∷ write_at i (j + 1) f xs

pub number-write_at :
    {Row : Type 0} (i j : ℕ) (f : Row → Row) (xs : List Row)
    → number j (write_at i j f xs) ≡ map (written i f) (number j xs)
number-write_at i j f [] = refl
number-write_at i j f (x ∷ xs) = ground (arith, number-write_at i (j + 1) f xs)

unfoldable pub create_in :
    {Row : Type 0} (clash : Row → Row → Bool)
    → Row
    → List Row
    → Option (Stored Row × Memory Row clash)
create_in clash r xs =
    if any (λ s. clash r s.row) (number 1 xs)
    then none
    else some (record { id = 1 + length xs; row = r }, record { contents = xs ++ r ∷ [] })

pub create_in-taken :
    {Row : Type 0} (clash : Row → Row → Bool) (r : Row) (xs : List Row)
    → any (λ s. clash r s.row) (number 1 xs) ≡ true
    → create_in clash r xs ≡ none
unfolding create_in
create_in-taken clash r xs e = rw e

pub create_in-free :
    {Row : Type 0} (clash : Row → Row → Bool) (r : Row) (xs : List Row)
    → any (λ s. clash r s.row) (number 1 xs) ≡ false
    → create_in clash r xs
      ≡ some (record { id = 1 + length xs; row = r }, record { contents = xs ++ r ∷ [] })
unfolding create_in
create_in-free clash r xs e = rw e

pub bulk_create_in-rows :
    {Row : Type 0} (clash : Row → Row → Bool) (new xs : List Row)
    → (more : List (Stored Row)) × (number 1 (merge clash xs new) ≡ number 1 xs ++ more)
      × (map (λ s. s.row) (number 1 (merge clash xs new))
          ≡ merge clash (map (λ s. s.row) (number 1 xs)) new)
bulk_create_in-rows clash new xs =
    let (more, e) = merge-append clash xs new in
    (
      number (1 + length xs) more,
      ap (number 1) e ∙ number-append 1 xs more,
      map-number 1 (merge clash xs new) ∙ ap (λ l. merge clash l new) (sym (map-number 1 xs)),
    )

-- The ORM whose tables are lists.
abbrev pub memory : Orm
memory = record {
  Table = Memory;
  rows = λ t. number 1 t.contents;
  filter = λ p t. select p (number 1 t.contents);
  order_by = λ d key l. sort d key l;
  create = λ {Row} {clash} r t. create_in clash r t.contents;
  bulk_create = λ {Row} {clash} new t. record { contents = merge clash t.contents new };
  save = λ i f t. record { contents = write_at i 1 f t.contents };
  filter_law = λ p t. Permᴰ.refl _;
  order_by_law = λ d key l. sort-perm d key l;
  order_by_sorted = λ d key l. sort-IsOrdered d key l;
  create_taken_law = λ {Row} {clash} r t e. create_in-taken clash r t.contents e;
  create_free_law = λ {Row} {clash} r t e. (
    1 + length t.contents,
    record { contents = t.contents ++ r ∷ [] },
    create_in-free clash r t.contents e,
    number-append 1 t.contents (r ∷ []),
  );
  bulk_create_law = λ {Row} {clash} new t. bulk_create_in-rows clash new t.contents;
  save_law = λ i f t h. number-write_at i 1 f t.contents;
  ids_law = λ t. number-IsUnique 1 t.contents;
}
