-- ===== src/Strategy/Schema/Shape.antt =====
-- The JSON that validation accepts: an independent description of the declared models.
use cryptovira.Prelude.{
  ◌≡◌, ◌↔◌, refl, ap, ◌∙◌, subst, some_same, true, some, List, [], ◌∷◌, Bool-cases, inl, inr,
}
use cryptovira.Python.{Python}
use cryptovira.Strategy.Schema.{
  Condition, StrategyConfig, Json, null, boolean, integer, real, text, array, object, Items, nil,
  cons, Fields, get_field, keys_within, bind, indicator_text, operator_text, indicator_of,
  operator_of, Pydantic, variables_field, condition_fields, validate_condition, validate_items,
  conditions_field, model_validate,
}
use cryptovira.Strategy.Schema.Literals.{
  indicator_of-text, operator_of-text, indicator_of-some, operator_of-some,
}
use cryptovira.Strategy.Schema.Variables.{
  AreVariables, AreVariables-accepted, accepted-AreVariables,
}
use cryptovira.Strategy.Schema.Validate.{bind-eq-some}

module _ (p : Python) (py : Pydantic p) where
  -- the object of a condition: the four declared keys and no other, "variables" optional
  pub record IsCondition (j : Json) (c : Condition p) : Type 0 where
    pub fields : Fields
    pub value : Json
    pub is_object : j ≡ object fields
    pub known : keys_within ("indicator" ∷ "variables" ∷ "operator" ∷ "value" ∷ []) fields ≡ true
    pub its_indicator : get_field "indicator" fields ≡ some (text (indicator_text c.indicator))
    pub its_variables : AreVariables p py (get_field "variables" fields) c.variables
    pub its_operator : get_field "operator" fields ≡ some (text (operator_text c.operator))
    pub its_value : get_field "value" fields ≡ some value
    pub a_float : py.as_float value ≡ some c.value

  pub data AreConditions : Items → List (Condition p) → Type 0 where
    no_condition : AreConditions nil []
    a_condition :
        (j : Json) (c : Condition p) (js : Items) (cs : List (Condition p))
        → IsCondition j c
        → AreConditions js cs
        → AreConditions (cons j js) (c ∷ cs)

  -- the object of a configuration: the key "conditions" alone, an array that is not empty
  pub record IsConfig (j : Json) (c : StrategyConfig p) : Type 0 where
    pub fields : Fields
    pub first : Json
    pub others : Items
    pub is_object : j ≡ object fields
    pub known : keys_within ("conditions" ∷ []) fields ≡ true
    pub its_conditions : get_field "conditions" fields ≡ some (array (cons first others))
    pub conditions : AreConditions (cons first others) c.conditions

  IsCondition-accepted :
      {j : Json} {c : Condition p} → IsCondition j c → validate_condition p py j ≡ some c
  unfolding validate_condition condition_fields
  IsCondition-accepted {j} {c} s =
      rw
        (
          s.is_object,
          s.known,
          s.its_indicator,
          indicator_of-text,
          AreVariables-accepted p py _ c.variables s.its_variables,
          s.its_operator,
          operator_of-text,
          s.its_value,
          s.a_float,
        )
        refl

  accepted-IsCondition :
      (j : Json) (c : Condition p) → validate_condition p py j ≡ some c → IsCondition j c
  unfolding validate_condition condition_fields
  accepted-IsCondition (object fs) c h =
      elim (Bool-cases (keys_within ("indicator" ∷ "variables" ∷ "operator" ∷ "value" ∷ []) fs)) [
        | inr unknown ↦ absurd (cc (rw unknown at h))
        | inl known ↦
            let h0 = rw known at h in
            let (i, at_i, h1) = bind-eq-some (bind (get_field "indicator" fs) indicator_of) _ h0 in
            let (ji, here_i, is_i) = bind-eq-some (get_field "indicator" fs) indicator_of at_i in
            let (xs, at_xs, h2) =
              bind-eq-some (variables_field p py (get_field "variables" fs)) _ h1 in
            let (o, at_o, h3) = bind-eq-some (bind (get_field "operator" fs) operator_of) _ h2 in
            let (jo, here_o, is_o) = bind-eq-some (get_field "operator" fs) operator_of at_o in
            let (x, at_x, made) = bind-eq-some (bind (get_field "value" fs) py.as_float) _ h3 in
            let (jx, here_x, is_x) = bind-eq-some (get_field "value" fs) py.as_float at_x in
            subst (IsCondition (object fs)) (some_same made) (record {
              fields = fs;
              value = jx;
              is_object = refl;
              known = known;
              its_indicator = here_i ∙ ap some (indicator_of-some ji i is_i);
              its_variables = accepted-AreVariables p py (get_field "variables" fs) xs at_xs;
              its_operator = here_o ∙ ap some (operator_of-some jo o is_o);
              its_value = here_x;
              a_float = is_x;
            })
      ]
  accepted-IsCondition null c h = cc h
  accepted-IsCondition (boolean b) c h = cc h
  accepted-IsCondition (integer n) c h = cc h
  accepted-IsCondition (real n) c h = cc h
  accepted-IsCondition (text s) c h = cc h
  accepted-IsCondition (array js) c h = cc h

  AreConditions-accepted :
      {js : Items} {cs : List (Condition p)}
      → AreConditions js cs
      → validate_items p py js ≡ some cs
  unfolding validate_items
  AreConditions-accepted no_condition = refl
  AreConditions-accepted (a_condition j c js cs one more) =
      rw (IsCondition-accepted one, AreConditions-accepted more) refl

  accepted-AreConditions :
      (js : Items) (cs : List (Condition p))
      → validate_items p py js ≡ some cs
      → AreConditions js cs
  unfolding validate_items
  accepted-AreConditions nil cs h = subst (AreConditions nil) (some_same h) no_condition
  accepted-AreConditions (cons j js) cs h =
      let (c, at, h') = bind-eq-some (validate_condition p py j) _ h in
      let (rest, here, made) = bind-eq-some (validate_items p py js) _ h' in
      subst (AreConditions (cons j js)) (some_same made) (
        a_condition j c js rest (accepted-IsCondition j c at) (accepted-AreConditions js rest here))

  accepted-conditions_field :
      (j : Json) (cs : List (Condition p))
      → conditions_field p py j ≡ some cs
      → (first : Json) × (others : Items) × (j ≡ array (cons first others))
        × AreConditions (cons first others) cs
  unfolding conditions_field
  accepted-conditions_field (array (cons j js)) cs h =
      (j, js, refl, accepted-AreConditions (cons j js) cs h)
  accepted-conditions_field (array nil) cs h = cc h
  accepted-conditions_field null cs h = cc h
  accepted-conditions_field (boolean b) cs h = cc h
  accepted-conditions_field (integer n) cs h = cc h
  accepted-conditions_field (real n) cs h = cc h
  accepted-conditions_field (text s) cs h = cc h
  accepted-conditions_field (object fs) cs h = cc h

  accepted-IsConfig :
      (j : Json) (c : StrategyConfig p) → model_validate p py j ≡ some c → IsConfig j c
  unfolding model_validate
  accepted-IsConfig (object fs) c h = elim (Bool-cases (keys_within ("conditions" ∷ []) fs)) [
    | inr unknown ↦ absurd (cc (rw unknown at h))
    | inl known ↦
        let h0 = rw known at h in
        let (cs, at, made) =
          bind-eq-some (bind (get_field "conditions" fs) (conditions_field p py)) _ h0 in
        let (listed, here, valid) =
          bind-eq-some (get_field "conditions" fs) (conditions_field p py) at in
        let (first, others, is, conditions) = accepted-conditions_field listed cs valid in
        subst (IsConfig (object fs)) (some_same made) (record {
          fields = fs;
          first = first;
          others = others;
          is_object = refl;
          known = known;
          its_conditions = here ∙ ap some is;
          conditions = conditions;
        })
  ]
  accepted-IsConfig null c h = cc h
  accepted-IsConfig (boolean b) c h = cc h
  accepted-IsConfig (integer n) c h = cc h
  accepted-IsConfig (real n) c h = cc h
  accepted-IsConfig (text s) c h = cc h
  accepted-IsConfig (array js) c h = cc h

  IsConfig-accepted :
      (j : Json) (c : StrategyConfig p) → IsConfig j c → model_validate p py j ≡ some c
  unfolding model_validate conditions_field
  IsConfig-accepted j c s =
      rw (s.is_object, s.known, s.its_conditions, AreConditions-accepted s.conditions) refl

  -- Validation gives a configuration for a JSON value exactly where the value has its declared
  -- types: an object with the key "conditions" alone, which is an array of one or more objects.
  -- Each has no key but the four declared ones: the literals of its indicator and its operator, a
  -- value that pydantic reads as that float, and, where "variables" is present, an object whose
  -- values pydantic reads as those integers, and no variables where it is absent.
  pub model_validate_iff :
      (j : Json) (c : StrategyConfig p) → (model_validate p py j ≡ some c) ↔ IsConfig j c
  model_validate_iff j c = (accepted-IsConfig j c, IsConfig-accepted j c)
