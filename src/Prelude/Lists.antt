-- ===== src/Prelude/Lists.antt =====
-- Lists measured by native numbers and tested by Boolean functions.
use Prim.Native.Nat.{ℕ, zero, suc, ◌+◌, ◌-◌, ◌≤◌, min}
use mathlib.Core.Path.{◌≡◌, refl, ap, subst, ◌∙◌}
use mathlib.Core.Logic.{inl, inr}
use mathlib.Core.Bool.{Bool, true, false, ◌||◌}
use mathlib.Core.List.{List, [], ◌∷◌, ◌++◌, reverse, reverse_aux, Permᴰ}
use mathlib.Core.Option.{Option, none, some}
use native.Mathlib.Omega.{arith}
use cryptovira.Prelude.Tests.{if◌then◌else◌, leb, Bool-cases}

module _ {ℓ} {A : Type ℓ} where
  abbrev pub length : List A → ℕ
  length [] = 0
  length (x ∷ xs) = suc (length xs)

  abbrev pub take : ℕ → List A → List A
  take zero xs = []
  take (suc n) [] = []
  take (suc n) (x ∷ xs) = x ∷ take n xs

  abbrev pub drop : ℕ → List A → List A
  drop zero xs = xs
  drop (suc n) [] = []
  drop (suc n) (x ∷ xs) = drop n xs

  abbrev pub get_elem? : List A → ℕ → Option A
  get_elem? [] i = none
  get_elem? (x ∷ xs) zero = some x
  get_elem? (x ∷ xs) (suc i) = get_elem? xs i

  -- the items that pass the test, in order: `[x for x in xs if p(x)]`
  abbrev pub select : (A → Bool) → List A → List A
  select p [] = []
  select p (x ∷ xs) = let rest = select p xs in if p x then x ∷ rest else rest

  -- `any(p(x) for x in xs)`
  abbrev pub any : (A → Bool) → List A → Bool
  any p [] = false
  any p (x ∷ xs) = p x || any p xs

  abbrev pub All {κ} : (A → Type κ) → List A → Type κ
  All P [] = Unit
  All P (x ∷ xs) = P x × All P xs

  pub length-append : (xs ys : List A) → length (xs ++ ys) ≡ length xs + length ys
  length-append [] ys = omega arith
  length-append (x ∷ xs) ys = omega (arith, length-append xs ys)

  pub length-take : (n : ℕ) (xs : List A) → length (take n xs) ≡ min n (length xs)
  length-take zero xs = omega arith
  length-take (suc n) [] = omega arith
  length-take (suc n) (x ∷ xs) = omega (arith, length-take n xs)

  pub length-select : (p : A → Bool) (xs : List A) → length (select p xs) ≤ length xs
  length-select p [] = omega arith
  length-select p (x ∷ xs) = ground (arith, length-select p xs)

  pub any-append : (p : A → Bool) (xs ys : List A) → any p (xs ++ ys) ≡ (any p xs || any p ys)
  any-append p [] ys = refl
  any-append p (x ∷ xs) ys = ground (arith, any-append p xs ys)

  pub All-append {κ} : (P : A → Type κ) (xs ys : List A) → All P xs → All P ys → All P (xs ++ ys)
  All-append P [] ys h k = k
  All-append P (x ∷ xs) ys h k = (h.0, All-append P xs ys h.1 k)

  pub All-trivial : (xs : List A) → All (λ x. Unit {0}) xs
  All-trivial [] = tt
  All-trivial (x ∷ xs) = (tt, All-trivial xs)

  pub select-append :
      (p : A → Bool) (xs ys : List A) → select p (xs ++ ys) ≡ select p xs ++ select p ys
  select-append p [] ys = refl
  select-append p (x ∷ xs) ys = elim (Bool-cases (p x)) [
    | inl e ↦ rw e (ap (λ l. x ∷ l) (select-append p xs ys))
    | inr e ↦ rw e (select-append p xs ys)
  ]

  pub select_of_none : (p : A → Bool) (xs : List A) → any p xs ≡ false → select p xs ≡ []
  select_of_none p [] h = refl
  select_of_none p (x ∷ xs) h = elim (Bool-cases (p x)) [
    | inl e ↦ cc (rw e at h)
    | inr e ↦ rw e (select_of_none p xs (rw e at h))
  ]

  pub any_of_select :
      (p : A → Bool) (xs : List A) {y : A} {ys : List A} → select p xs ≡ y ∷ ys → any p xs ≡ true
  any_of_select p [] h = cc
  any_of_select p (x ∷ xs) h = elim (Bool-cases (p x)) [
    | inl e ↦ rw e refl
    | inr e ↦ rw e (any_of_select p xs (rw e at h))
  ]

  -- Only the selected items satisfy the test.
  pub All-select : (p : A → Bool) (xs : List A) → All (λ x. p x ≡ true) (select p xs)
  All-select p [] = tt
  All-select p (x ∷ xs) = elim (Bool-cases (p x)) [
    | inl e ↦ rw e (e, All-select p xs)
    | inr e ↦ rw e (All-select p xs)
  ]

  -- A list that has the items of a one-element list is that list; so with no item at all.
  pub perm_none : {l m : List A} → Permᴰ l m → m ≡ [] → l ≡ []
  perm_none Permᴰ.nil e = refl
  perm_none (Permᴰ.cons d h) e = cc
  perm_none (Permᴰ.swap d d') e = cc
  perm_none (Permᴰ.trans h k) e = perm_none h (perm_none k e)

  pub perm_one : {l m : List A} (x : A) → Permᴰ l m → m ≡ x ∷ [] → l ≡ x ∷ []
  perm_one x Permᴰ.nil e = cc
  perm_one x (Permᴰ.cons {a} {b} {l₁} {l₂} d h) e = let tail : l₁ ≡ [] = perm_none h (cc) in cc
  perm_one x (Permᴰ.swap d d') e = cc
  perm_one x (Permᴰ.trans h k) e = perm_one x h (perm_one x k e)

  pub perm-All {κ} : {l m : List A} (P : A → Type κ) → Permᴰ l m → All P l → All P m
  perm-All P Permᴰ.nil h = tt
  perm-All P (Permᴰ.cons d q) h = (subst P d h.0, perm-All P q h.1)
  perm-All P (Permᴰ.swap d d') h = (subst P d' h.1.0, (subst P d h.0, h.1.1))
  perm-All P (Permᴰ.trans q r) h = perm-All P r (perm-All P q h)

  pub perm-any : {l m : List A} (p : A → Bool) → Permᴰ l m → any p l ≡ any p m
  perm-any p Permᴰ.nil = refl
  perm-any p (Permᴰ.cons {l₁ = l} d h) = cc (perm-any p h, ap p d)
  perm-any p (Permᴰ.swap {a = a} {b = b} {a' = a'} {b' = b'} {l = l} d d') =
      ground (arith, ap p d, ap p d')
  perm-any p (Permᴰ.trans h k) = perm-any p h ∙ perm-any p k

  -- `xs[-k]` for a positive `k`; `none` stands for `IndexError`
  abbrev pub item_from_end : List A → ℕ → Option A
  item_from_end xs k = if leb k (length xs) then get_elem? xs (length xs - k) else none

  get_elem?-append :
      (xs ys : List A) (k : ℕ) → get_elem? (xs ++ ys) (length xs + k) ≡ get_elem? ys k
  get_elem?-append [] ys k = ap (get_elem? ys) (omega arith)
  get_elem?-append (x ∷ xs) ys k =
      let e : length (x ∷ xs) + k ≡ suc (length xs + k) = omega arith in
      rw e (get_elem?-append xs ys k)

  -- The items at the end of a list.
  pub item_from_end-append :
      (xs ys : List A) (k : ℕ)
      → k ≤ length ys
      → item_from_end (xs ++ ys) k ≡ get_elem? ys (length ys - k)
  item_from_end-append xs ys k h =
      let n : length (xs ++ ys) ≡ length xs + length ys = length-append xs ys in
      let at : length (xs ++ ys) - k ≡ length xs + (length ys - k) = omega arith in
      ground (arith, ap (get_elem? (xs ++ ys)) at, get_elem?-append xs ys (length ys - k))

  -- A list of two or more items ends in two items.
  pub ends_in_two :
      (xs : List A)
      → 2 ≤ length xs
      → (front : List A) × (a : A) × (b : A) × (xs ≡ front ++ a ∷ b ∷ [])
  ends_in_two [] h = absurd (omega arith)
  ends_in_two (a ∷ []) h = absurd (omega arith)
  ends_in_two (a ∷ b ∷ []) h = ([], a, b, refl)
  ends_in_two (a ∷ b ∷ c ∷ xs) h =
      let (front, a', b', e) = ends_in_two (b ∷ c ∷ xs) (omega arith) in
      (a ∷ front, a', b', ap (λ l. a ∷ l) e)

pub take-append-drop {ℓ} : {A : Type ℓ} (n : ℕ) (xs : List A) → take n xs ++ drop n xs ≡ xs
take-append-drop zero xs = refl
take-append-drop (suc n) [] = refl
take-append-drop (suc n) (x ∷ xs) = ap (λ l. x ∷ l) (take-append-drop n xs)

length-reverse_aux {ℓ} :
    {A : Type ℓ} (xs ys : List A) → length (reverse_aux xs ys) ≡ length xs + length ys
length-reverse_aux [] ys = omega arith
length-reverse_aux (x ∷ xs) ys = omega (arith, length-reverse_aux xs (x ∷ ys))

pub length-reverse {ℓ} : {A : Type ℓ} (xs : List A) → length (reverse xs) ≡ length xs
length-reverse xs = omega (arith, length-reverse_aux xs [])

pub perm-length {ℓ} : {A : Type ℓ} {l m : List A} → Permᴰ l m → length l ≡ length m
perm-length Permᴰ.nil = refl
perm-length (Permᴰ.cons d h) = ap suc (perm-length h)
perm-length (Permᴰ.swap {l = l} d d') = refl
perm-length (Permᴰ.trans h k) = perm-length h ∙ perm-length k
