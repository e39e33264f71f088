-- ===== src/Prelude/Every.antt =====
-- What every item of a list has, and what a Boolean test finds in it.
use Prim.Native.Nat.{ℕ, zero, suc}
use mathlib.Core.Path.{◌≡◌, refl, ap, subst}
use mathlib.Core.Logic.{inl, inr}
use mathlib.Core.Bool.{Bool, true, false, ◌||◌}
use mathlib.Core.List.{List, [], ◌∷◌, map}
use mathlib.Core.Option.{some}
use native.Mathlib.Omega.{arith}
use cryptovira.Prelude.Tests.{Bool-cases}
use cryptovira.Prelude.Lists.{get_elem?, select, any, All}

pub All-map {ℓ κ μ} :
    {A : Type ℓ} {B : Type κ} (f : A → B) (P : A → Type μ) (Q : B → Type μ)
    → ((x : A) → P x → Q (f x))
    → (xs : List A) → All P xs
    → All Q (map f xs)
All-map f P Q each [] h = tt
All-map f P Q each (x ∷ xs) h = (each x h.0, All-map f P Q each xs h.1)

pub any-map {ℓ κ} :
    {A : Type ℓ} {B : Type κ} (f : A → B) (p : B → Bool) (xs : List A)
    → any p (map f xs) ≡ any (λ x. p (f x)) xs
any-map f p [] = refl
any-map f p (x ∷ xs) = ap (λ b. p (f x) || b) (any-map f p xs)

pub All-of_map {ℓ κ μ} :
    {A : Type ℓ} {B : Type κ} (f : A → B) (Q : B → Type μ) (xs : List A)
    → All Q (map f xs)
    → All (λ x. Q (f x)) xs
All-of_map f Q [] h = tt
All-of_map f Q (x ∷ xs) h = (h.0, All-of_map f Q xs h.1)

-- A property of every item, weakened.
pub All-imply {ℓ κ μ} :
    {A : Type ℓ} (P : A → Type κ) (Q : A → Type μ)
    → ((x : A) → P x → Q x)
    → (xs : List A) → All P xs
    → All Q xs
All-imply P Q each [] h = tt
All-imply P Q each (x ∷ xs) h = (each x h.0, All-imply P Q each xs h.1)

pub any_none {ℓ} :
    {A : Type ℓ} (p : A → Bool) (xs : List A) → any p xs ≡ false → All (λ x. p x ≡ false) xs
any_none p [] h = tt
any_none p (x ∷ xs) h = (ground arith, any_none p xs (ground arith))

pub All-of_select {ℓ κ} :
    {A : Type ℓ} (P : A → Type κ) (p : A → Bool) (xs : List A) → All P xs → All P (select p xs)
All-of_select P p [] h = tt
All-of_select P p (x ∷ xs) h = elim (Bool-cases (p x)) [
  | inl e ↦ rw e (h.0, All-of_select P p xs h.1)
  | inr e ↦ rw e (All-of_select P p xs h.1)
]

pub some_same {ℓ} : {A : Type ℓ} {a b : A} → some a ≡ some b → a ≡ b
some_same h = cc h

-- An item that a query selects, or an index reaches, has what every item has.
pub All-selected {ℓ κ} :
    {A : Type ℓ} (P : A → Type κ) (p : A → Bool) (xs : List A) {x : A}
    → select p xs ≡ x ∷ []
    → All P xs
    → P x
All-selected P p xs h all = (subst (All P) h (All-of_select P p xs all)).0

pub All-get_elem? {ℓ κ} :
    {A : Type ℓ} (P : A → Type κ) (xs : List A) (i : ℕ) {x : A}
    → get_elem? xs i ≡ some x
    → All P xs
    → P x
All-get_elem? P [] i h all = absurd (cc h)
All-get_elem? P (y ∷ xs) zero h all = let same : y ≡ _ = some_same h in subst P same all.0
All-get_elem? P (y ∷ xs) (suc i) h all = All-get_elem? P xs i h all.1

-- An item that a test finds, with what every item has.
pub any_found {ℓ κ} :
    {A : Type ℓ} (P : A → Type κ) (p : A → Bool) (xs : List A)
    → All P xs
    → any p xs ≡ true
    → (x : A) × (p x ≡ true) × P x
any_found P p [] all h = absurd (cc h)
any_found P p (x ∷ xs) all h = elim (Bool-cases (p x)) [
  | inl e ↦ (x, e, all.0)
  | inr e ↦ any_found P p xs all.1 (rw e at h)
]

pub All-unselect {ℓ κ} :
    {A : Type ℓ} (P : A → Type κ) (p : A → Bool) (xs : List A)
    → All P (select p xs)
    → All (λ x. p x ≡ true → P x) xs
All-unselect P p [] h = tt
All-unselect P p (x ∷ xs) h = elim (Bool-cases (p x)) [
  | inl e ↦ let h' : All P (x ∷ select p xs) = rw e at h in ((λ _. h'.0), All-unselect P p xs h'.1)
  | inr e ↦ ((λ e'. cc (e, e')), All-unselect P p xs (rw e at h))
]

-- Every item is found by a test that it meets itself.
pub any_self {ℓ} :
    {A : Type ℓ} (p : A → A → Bool)
    → ((x : A) → p x x ≡ true)
    → (xs : List A) → All (λ x. any (p x) xs ≡ true) xs
any_self p p_refl [] = tt
any_self p p_refl (x ∷ xs) =
    (rw (p_refl x) refl, All-imply _ _ (λ y h. ground (arith, h)) xs (any_self p p_refl xs))

pub All-pair {ℓ κ μ} :
    {A : Type ℓ} (P : A → Type κ) (Q : A → Type μ) (xs : List A)
    → All P xs
    → All Q xs
    → All (λ x. P x × Q x) xs
All-pair P Q [] h k = tt
All-pair P Q (x ∷ xs) h k = ((h.0, k.0), All-pair P Q xs h.1 k.1)
