-- ===== src/Strategy/Schema/Variables.antt =====
-- The "variables" of a condition that validation accepts.
use cryptovira.Prelude.{
  ℤ, String, ◌≡◌, ◌⊎◌, refl, sym, subst, some_same, Option, none, some, List, [], ◌∷◌, inl, inr,
}
use cryptovira.Python.{Python}
use cryptovira.Strategy.Schema.{
  Json, null, boolean, integer, real, text, array, object, Fields, end, field, Pydantic,
  variables_of, variables_field,
}
use cryptovira.Strategy.Schema.Validate.{bind-eq-some}

module _ (p : Python) (py : Pydantic p) where
  -- an object of integers
  pub data Integers : Fields → List (String × ℤ) → Type 0 where
    no_integer : Integers end []
    an_integer :
        (k : String) (v : Json) (n : ℤ) (fs : Fields) (xs : List (String × ℤ))
        → py.as_int v ≡ some n
        → Integers fs xs
        → Integers (field k v fs) ((k, n) ∷ xs)

  -- an object of integers, or no value and no integer
  abbrev pub AreVariables : Option Json → List (String × ℤ) → Type 0
  AreVariables o xs =
      ((o ≡ none) × (xs ≡ [])) ⊎ ((vs : Fields) × (o ≡ some (object vs)) × Integers vs xs)

  Integers-accepted :
      {fs : Fields} {xs : List (String × ℤ)} → Integers fs xs → variables_of p py fs ≡ some xs
  unfolding variables_of
  Integers-accepted no_integer = refl
  Integers-accepted (an_integer k v n fs xs h rest) = rw (h, Integers-accepted rest) refl

  accepted-Integers :
      (fs : Fields) (xs : List (String × ℤ)) → variables_of p py fs ≡ some xs → Integers fs xs
  unfolding variables_of
  accepted-Integers end xs h = subst (Integers end) (some_same h) no_integer
  accepted-Integers (field k v fs) xs h =
      let (n, at, h') = bind-eq-some (py.as_int v) _ h in
      let (rest, here, made) = bind-eq-some (variables_of p py fs) _ h' in
      subst (Integers (field k v fs)) (some_same made)
        (an_integer k v n fs rest at (accepted-Integers fs rest here))

  pub AreVariables-accepted :
      (o : Option Json) (xs : List (String × ℤ))
      → AreVariables o xs
      → variables_field p py o ≡ some xs
  unfolding variables_field
  AreVariables-accepted o xs (inl (absent, empty)) = rw (absent, empty) refl
  AreVariables-accepted o xs (inr (vs, present, integers)) = rw present (Integers-accepted integers)

  pub accepted-AreVariables :
      (o : Option Json) (xs : List (String × ℤ))
      → variables_field p py o ≡ some xs
      → AreVariables o xs
  unfolding variables_field
  accepted-AreVariables none xs h = inl (refl, sym (some_same h))
  accepted-AreVariables (some (object vs)) xs h = inr (vs, refl, accepted-Integers vs xs h)
  accepted-AreVariables (some null) xs h = cc h
  accepted-AreVariables (some (boolean b)) xs h = cc h
  accepted-AreVariables (some (integer n)) xs h = cc h
  accepted-AreVariables (some (real n)) xs h = cc h
  accepted-AreVariables (some (text s)) xs h = cc h
  accepted-AreVariables (some (array js)) xs h = cc h
