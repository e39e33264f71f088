-- ===== src/Exec.antt =====
-- Exceptions as values, and methods that change a state and may raise. What was written before a
-- raise stays written: outside `transaction.atomic()` every statement commits by itself.
use cryptovira.Prelude.{
  ℕ, suc, String, ◌≡◌, ◌≢◌, refl, ap, ◌⊎◌, inl, inr, Option, none, some, List, [], ◌∷◌, length, All,
}

pub data Error : Type 0 where
  does_not_exist multiple_objects_returned value_error type_error key_error index_error
        invalid_operation :
      Error
  zero_division_error talib_error : Error
  http_error validation_error insufficient_data_error channel_delivery_error other_error :
      String → Error
  -- Celery's `Retry`, raised by `self.retry(countdown=...)`
  retry : ℕ → Error

pub data Result {ℓ} (A : Type ℓ) : Type ℓ where
  ok : A → Result A
  err : Error → Result A

pub ok_same {ℓ} : {A : Type ℓ} {a b : A} → ok a ≡ ok b → a ≡ b
ok_same h = cc h

abbrev pub or_raise {ℓ} : {A : Type ℓ} → Option A → Error → Result A
or_raise none e = err e
or_raise (some a) _ = ok a

pub or_raise-eq-ok {ℓ} :
    {A : Type ℓ} (o : Option A) (e : Error) {a : A} → or_raise o e ≡ ok a → o ≡ some a
or_raise-eq-ok none e h = cc
or_raise-eq-ok (some b) e h = cc

abbrev pub and_then {ℓ κ} : {A : Type ℓ} {B : Type κ} → Result A → (A → Result B) → Result B
and_then (ok a) f = f a
and_then (err e) f = err e

pub and_then-eq-ok {ℓ κ} :
    {A : Type ℓ} {B : Type κ} (m : Result A) (f : A → Result B) {b : B}
    → and_then m f ≡ ok b
    → (a : A) × (m ≡ ok a) × (f a ≡ ok b)
and_then-eq-ok (ok a) f h = (a, refl, h)
and_then-eq-ok (err e) f h = cc

-- `[f(x) for x in xs]` where `f` may raise
unfoldable pub traverse {ℓ κ} :
    {A : Type ℓ} {B : Type κ} → (A → Result B) → List A → Result (List B)
traverse f [] = ok []
traverse f (x ∷ xs) = and_then (f x) (λ y. and_then (traverse f xs) (λ ys. ok (y ∷ ys)))

traverse_cons {ℓ κ} :
    {A : Type ℓ} {B : Type κ} (f : A → Result B) (x : A) (xs : List A) (ys : List B)
    → traverse f (x ∷ xs) ≡ ok ys
    → (y : B) × (rest : List B) × (f x ≡ ok y) × (traverse f xs ≡ ok rest) × (ys ≡ y ∷ rest)
unfolding traverse
traverse_cons f x xs ys h =
    let (y, e, h') = and_then-eq-ok (f x) _ h in
    let (rest, es, at) = and_then-eq-ok (traverse f xs) _ h' in (y, rest, e, es, cc at)

-- The results of a traversal, one for each element, have what every result has.
pub traverse_law {ℓ κ} :
    {A : Type ℓ} {B : Type κ} (f : A → Result B) (P : B → Type κ)
    → ((a : A) (b : B) → f a ≡ ok b → P b)
    → (xs : List A) (ys : List B) → traverse f xs ≡ ok ys
    → (length ys ≡ length xs) × All P ys
unfolding traverse
traverse_law f P each [] [] h = (refl, tt)
traverse_law f P each [] (y ∷ ys) h = cc
traverse_law f P each (x ∷ xs) ys h =
    let (y, rest, e, es, at) = traverse_cons f x xs ys h in
    let (n, all) = traverse_law f P each xs rest es in rw at (ap suc n, (each x y e, all))

-- What the results of a traversal have, its elements have, if each has what its own result has.
pub traverse_back {ℓ κ} :
    {A : Type ℓ} {B : Type κ} (f : A → Result B) (P : A → Type κ) (Q : B → Type κ)
    → ((a : A) (b : B) → f a ≡ ok b → Q b → P a)
    → (xs : List A) (ys : List B) → traverse f xs ≡ ok ys
    → All Q ys
    → All P xs
unfolding traverse
traverse_back f P Q each [] ys h all = tt
traverse_back f P Q each (x ∷ xs) ys h all =
    let (y, rest, e, es, at) = traverse_cons f x xs ys h in
    let held = rw at at all in (each x y e held.0, traverse_back f P Q each xs rest es held.1)

-- the same the other way round
pub traverse_forth {ℓ κ} :
    {A : Type ℓ} {B : Type κ} (f : A → Result B) (P : A → Type κ) (Q : B → Type κ)
    → ((a : A) (b : B) → f a ≡ ok b → P a → Q b)
    → (xs : List A) (ys : List B) → traverse f xs ≡ ok ys
    → All P xs
    → All Q ys
unfolding traverse
traverse_forth f P Q each [] [] h all = tt
traverse_forth f P Q each [] (y ∷ ys) h all = cc
traverse_forth f P Q each (x ∷ xs) ys h all =
    let (y, rest, e, es, at) = traverse_cons f x xs ys h in
    rw at (each x y e all.0, traverse_forth f P Q each xs rest es all.1)

abbrev pub Exec : Type 0 → Type 0 → Type 0
Exec S A = S → Result A × S

module _ {S A : Type 0} where
  abbrev pub pure : A → Exec S A
  pure a s = (ok a, s)

  abbrev pub lift : Result A → Exec S A
  lift r s = (r, s)

  abbrev pub gets : (S → A) → Exec S A
  gets f s = (ok (f s), s)

abbrev pub modify : {S : Type 0} → (S → S) → Exec S (Unit {0})
modify f s = (ok tt, f s)

module _ {S A B : Type 0} where
  abbrev pub continue : Result A × S → (A → Exec S B) → Result B × S
  continue (ok a, s) f = f a s
  continue (err e, s) f = (err e, s)

  infixl 5 ◌>>=◌ ◌>>◌
  abbrev pub ◌>>=◌ : Exec S A → (A → Exec S B) → Exec S B
  ◌>>=◌ m f s = continue (m s) f

  abbrev pub ◌>>◌ : Exec S A → Exec S B → Exec S B
  ◌>>◌ m k s = continue (m s) (λ _. k)

-- To split on the result of a call and keep the equation.
pub Result-cases {ℓ} :
    {A : Type ℓ} (r : Result A) → ((a : A) × (r ≡ ok a)) ⊎ ((e : Error) × (r ≡ err e))
Result-cases (ok a) = inl (a, refl)
Result-cases (err e) = inr (e, refl)

-- To show a property of a step that first computes a value and may raise: of the raise, and of what
-- is run with the value.
pub continue_lem {ℓ} :
    {S A B : Type 0} (P : Result B × S → Type ℓ) (r : Result A) (s : S) (f : A → Exec S B)
    → ((e : Error) → r ≡ err e → P (err e, s))
    → ((a : A) → r ≡ ok a → P (f a s))
    → P (continue (r, s) f)
continue_lem P (ok a) s f raised done = done a refl
continue_lem P (err e) s f raised done = raised e refl

pub and_then-ne-retry :
    {A B : Type 0} (m : Result A) (f : A → Result B) (c : ℕ)
    → m ≢ err (retry c)
    → ((a : A) → f a ≢ err (retry c))
    → and_then m f ≢ err (retry c)
and_then-ne-retry (ok a) f c h k q = k a q
and_then-ne-retry (err e) f c h k q = h (cc q)
