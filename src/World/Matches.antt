-- ===== src/World/Matches.antt =====
-- What is known of a list of rows from the rows that match a query.
use cryptovira.Prelude.{
  ◌≡◌, refl, ap, Bool, true, false, List, [], ◌∷◌, map, select, any, All, ◌||◌, arith, Bool-cases,
  inl, inr,
}
use cryptovira.Orm.{Stored}
use cryptovira.Orm.Merge.{IsUnique}
use mathlib.Core.List.{Memᴰ}
use mathlib.Core.List.Memᴰ

-- the rows without their primary keys
abbrev pub contents : {Row : Type 0} → List (Stored Row) → List Row
contents l = map (λ s. s.row) l

module _ {Row : Type 0} (clash : Row → Row → Bool) where
  -- No row behind one that matches matches too, where two matches would clash.
  select-none :
      (p : Stored Row → Bool)
      → ((a b : Stored Row) → p a ≡ true → p b ≡ true → clash b.row a.row ≡ true)
      → (x : Stored Row) (l : List (Stored Row)) → p x ≡ true
      → All (λ y. clash y x.row ≡ false) (contents l)
      → select p l ≡ []
  select-none p same x [] e h = refl
  select-none p same x (y ∷ l) e h = elim (Bool-cases (p y)) [
    | inl e' ↦ cc (same x y e e', h.0)
    | inr e' ↦ rw e' (select-none p same x l e h.1)
  ]

  -- In a table that keeps its constraint, a query by the constrained columns that matches some row
  -- matches one.
  pub select-one :
      (p : Stored Row → Bool)
      → ((a b : Stored Row) → p a ≡ true → p b ≡ true → clash b.row a.row ≡ true)
      → (l : List (Stored Row)) → IsUnique clash (contents l)
      → any p l ≡ true
      → (s : Stored Row) × (select p l ≡ s ∷ []) × (p s ≡ true)
  select-one p same [] u h = absurd (cc)
  select-one p same (x ∷ l) u h = elim (Bool-cases (p x)) [
    | inl e ↦ (x, rw e (ap (λ m. x ∷ m) (select-none p same x l e u.0)), e)
    | inr e ↦ let (s, at, e') = select-one p same l u.1 (rw e at h) in (s, rw e at, e')
  ]

pub Memᴰ-of_select :
    {A : Type 0} (p : A → Bool) (l : List A) {x : A} → Memᴰ x (select p l) → Memᴰ x l
Memᴰ-of_select p [] h = h
Memᴰ-of_select p (y ∷ l) h = elim (Bool-cases (p y)) [
  | inr e ↦ Memᴰ.tail (Memᴰ-of_select p l (rw e at h))
  | inl e ↦ elim (Memᴰ.cases_cons (rw e at h)) [
    | inl here ↦ Memᴰ.head here
    | inr there ↦ Memᴰ.tail (Memᴰ-of_select p l there)
  ]
]

select_nil-All :
    {A : Type 0} (p : A → Bool) (l : List A) (a : A)
    → select p l ≡ []
    → All (λ x. p x ≡ true → x ≡ a) l
select_nil-All p [] a h = tt
select_nil-All p (x ∷ l) a h = elim (Bool-cases (p x)) [
  | inl e ↦ absurd (nonempty (rw e at h))
  | inr e ↦ ((λ e'. cc), select_nil-All p l a (rw e at h))
]
  where
    nonempty : x ∷ select p l ≡ [] → ⊥
    nonempty q = cc

-- Of a query with one match, that is every row that matches.
pub select_one-All :
    {A : Type 0} (p : A → Bool) (l : List A) (a : A)
    → select p l ≡ a ∷ []
    → All (λ x. p x ≡ true → x ≡ a) l
select_one-All p [] a h = tt
select_one-All p (x ∷ l) a h = elim (Bool-cases (p x)) [
  | inl e ↦
      let h' : x ∷ select p l ≡ a ∷ [] = rw e at h in ((λ _. cc h'), select_nil-All p l a (cc h'))
  | inr e ↦ ((λ e'. cc), select_one-All p l a (rw e at h))
]

pub any_in_select :
    {A : Type 0} (p q : A → Bool) (l : List A) → any q (select p l) ≡ true → any q l ≡ true
any_in_select p q [] h = h
any_in_select p q (x ∷ l) h = elim (Bool-cases (p x)) [
  | inl e ↦
      let k : (q x || any q (select p l)) ≡ true = rw e at h in ground (arith, any_in_select p q l)
  | inr e ↦ let k : any q l ≡ true = any_in_select p q l (rw e at h) in ground arith
]
