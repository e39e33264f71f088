-- ===== src/Strategy/Schema/Validate.antt =====
-- What validation accepts: every configuration that has a condition, written as JSON, and none
-- without a condition.
use cryptovira.Prelude.{
  ℤ, String, ◌≡◌, ◌≢◌, refl, Option, none, some, List, [], ◌∷◌, Bool-cases, inl, inr,
}
use cryptovira.Python.{Python}
use cryptovira.Strategy.Schema.{
  Condition, StrategyConfig, Json, integer, text, array, object, Items, nil, cons, Fields, end,
  field, get_field, keys_within, bind, indicator_text, operator_text, Pydantic, variables_of,
  variables_field, validate_condition, validate_items, conditions_field, model_validate,
}
use cryptovira.Strategy.Schema.Literals.{indicator_of-text, operator_of-text}

pub bind-eq-some :
    {A B : Type 0} (o : Option A) (f : A → Option B) {b : B}
    → bind o f ≡ some b
    → (a : A) × (o ≡ some a) × (f a ≡ some b)
bind-eq-some none f h = cc
bind-eq-some (some a) f h = (a, refl, h)

module _ (p : Python) (py : Pydantic p) where
  open py use {as_float, as_int}

  -- The JSON of a configuration, with a given way to write numbers.
  module _ (float_json : p.Float → Json) where
    abbrev pub variables_json : List (String × ℤ) → Fields
    variables_json [] = end
    variables_json ((k, n) ∷ vs) = field k (integer n) (variables_json vs)

    abbrev pub condition_json : Condition p → Json
    condition_json c = object (
        field "indicator" (text (indicator_text c.indicator)) (
          field "variables" (object (variables_json c.variables)) (
            field "operator" (text (operator_text c.operator))
              (field "value" (float_json c.value) end))))

    abbrev pub conditions_json : List (Condition p) → Items
    conditions_json [] = nil
    conditions_json (c ∷ cs) = cons (condition_json c) (conditions_json cs)

    abbrev pub config_json : StrategyConfig p → Json
    config_json c = object (field "conditions" (array (conditions_json c.conditions)) end)

  module _ (float_json : p.Float → Json)
      (float_reads : (x : p.Float) → as_float (float_json x) ≡ some x)
      (int_reads : (n : ℤ) → as_int (integer n) ≡ some n) where
    variables_of-json :
        (vs : List (String × ℤ)) → variables_of p py (variables_json float_json vs) ≡ some vs
    unfolding variables_of
    variables_of-json [] = refl
    variables_of-json ((k, n) ∷ vs) = rw (int_reads n, variables_of-json vs)

    validate_condition-json :
        (c : Condition p) → validate_condition p py (condition_json float_json c) ≡ some c
    unfolding validate_condition variables_field
    validate_condition-json c =
        rw (indicator_of-text, variables_of-json, operator_of-text, float_reads) refl

    validate_items-json :
        (cs : List (Condition p)) → validate_items p py (conditions_json float_json cs) ≡ some cs
    unfolding validate_items
    validate_items-json [] = refl
    validate_items-json (c ∷ cs) = rw (validate_condition-json c, validate_items-json cs) refl

    conditions_field-json :
        (cs : List (Condition p))
        → cs ≢ []
        → conditions_field p py (array (conditions_json float_json cs)) ≡ some cs
    unfolding conditions_field
    conditions_field-json [] h = absurd (h refl)
    conditions_field-json (c ∷ cs) h = validate_items-json (c ∷ cs)

    -- A configuration with one condition or more survives being written as JSON and validated,
    -- where pydantic reads back the floats and integers that were written.
    pub model_validate-json :
        (c : StrategyConfig p)
        → c.conditions ≢ []
        → model_validate p py (config_json float_json c) ≡ some c
    unfolding model_validate conditions_field
    model_validate-json c h = rw (conditions_field-json c.conditions h) refl

  validate_items-ne-nil :
      (j : Json) (js : Items) (cs : List (Condition p))
      → validate_items p py (cons j js) ≡ some cs
      → cs ≢ []
  unfolding validate_items
  validate_items-ne-nil j js cs h e =
      let (c, _, h') = bind-eq-some (validate_condition p py j) _ h in
      let (rest, _, h'') = bind-eq-some (validate_items p py js) _ h' in cc

  conditions_field-ne-nil :
      (j : Json) (cs : List (Condition p)) → conditions_field p py j ≡ some cs → cs ≢ []
  unfolding conditions_field
  conditions_field-ne-nil (array (cons j js)) cs h = validate_items-ne-nil j js cs h
  conditions_field-ne-nil _ cs h = absurd (cc)

  -- A configuration that passes validation has a condition.
  pub model_validate-ne-nil :
      (j : Json) (c : StrategyConfig p) → model_validate p py j ≡ some c → c.conditions ≢ []
  unfolding model_validate
  model_validate-ne-nil (object fs) c h e = elim (Bool-cases (keys_within ("conditions" ∷ []) fs)) [
    | inl known ↦
        let h' = rw known at h in
        let (cs, found, made) =
          bind-eq-some (bind (get_field "conditions" fs) (conditions_field p py)) _ h' in
        let (j, _, valid) =
          bind-eq-some (get_field "conditions" fs) (conditions_field p py) found in
        conditions_field-ne-nil j cs valid (cc made)
    | inr unknown ↦ cc (rw unknown at h)
  ]
  model_validate-ne-nil _ c h e = cc
