-- ===== src/Strategy/Schema.antt =====
-- apps/strategy/schema.py: the shape of `Strategy.config`, and its validation as pydantic documents
-- it for the declared models. How pydantic reads a number is a parameter.
pub mod Literals
pub mod Variables
pub mod Shape
pub mod Validate
use cryptovira.Prelude.{
  ℤ, String, ◌≡◌, ◌≢◌, refl, Bool, true, ◌&&◌, Option, none, some, List, [], ◌∷◌, any, str_eq,
  if◌then◌else◌, Bool-cases, inl, inr,
}
use cryptovira.Python.{Python}

pub data IndicatorName : Type 0 where
  sma ema rsi macd macd_signal macd_hist : IndicatorName

pub data OperatorName : Type 0 where
  gt lt eq crosses_above crosses_below : OperatorName

pub record Condition (p : Python) : Type 0 where
  pub indicator : IndicatorName
  pub variables : List (String × ℤ)
  pub operator : OperatorName
  pub value : p.Float

pub record StrategyConfig (p : Python) : Type 0 where
  pub conditions : List (Condition p)

-- The value of a JSON column. A number with a fraction is kept as its literal.
mutual
  pub data Json : Type 0 where
    null : Json
    boolean : Bool → Json
    integer : ℤ → Json
    real text : String → Json
    array : Items → Json
    object : Fields → Json

  pub data Items : Type 0 where
    nil : Items
    cons : Json → Items → Items

  pub data Fields : Type 0 where
    end : Fields
    field : String → Json → Fields → Fields

abbrev pub get_field : String → Fields → Option Json
get_field k end = none
get_field k (field j v fs) = if str_eq j k then some v else get_field k fs

-- `extra="forbid"`: every key is one of the declared fields
abbrev pub keys_within : List String → Fields → Bool
keys_within allowed end = true
keys_within allowed (field j v fs) = any (λ k. str_eq j k) allowed && keys_within allowed fs

abbrev pub bind : {A B : Type 0} → Option A → (A → Option B) → Option B
bind none f = none
bind (some a) f = f a

-- the `Literal` types
abbrev pub indicator_text : IndicatorName → String
indicator_text sma = "SMA"
indicator_text ema = "EMA"
indicator_text rsi = "RSI"
indicator_text macd = "MACD"
indicator_text macd_signal = "MACD_SIGNAL"
indicator_text macd_hist = "MACD_HIST"

abbrev pub operator_text : OperatorName → String
operator_text gt = "gt"
operator_text lt = "lt"
operator_text eq = "eq"
operator_text crosses_above = "crosses_above"
operator_text crosses_below = "crosses_below"

pub indicator_of : Json → Option IndicatorName
indicator_of (text s) =
    if str_eq s "SMA"
    then some sma
    else if str_eq s "EMA"
    then some ema
    else if str_eq s "RSI"
    then some rsi
    else if str_eq s "MACD"
    then some macd
    else if str_eq s "MACD_SIGNAL"
    then some macd_signal
    else if str_eq s "MACD_HIST"
    then some macd_hist
    else none
indicator_of _ = none

pub operator_of : Json → Option OperatorName
operator_of (text s) =
    if str_eq s "gt"
    then some gt
    else if str_eq s "lt"
    then some lt
    else if str_eq s "eq"
    then some eq
    else if str_eq s "crosses_above"
    then some crosses_above
    else if str_eq s "crosses_below"
    then some crosses_below
    else none
operator_of _ = none

-- pydantic's conversions of a JSON value to `float` and to `int`
pub record Pydantic (p : Python) : Type 0 where
  pub as_float : Json → Option p.Float
  pub as_int : Json → Option ℤ

module _ (p : Python) (py : Pydantic p) where
  open py use {as_float, as_int}

  variables_of : Fields → Option (List (String × ℤ))
  variables_of end = some []
  variables_of (field k v fs) =
      bind (as_int v) λ n. bind (variables_of fs) λ rest. some ((k, n) ∷ rest)

  -- `variables: dict[str, int] = Field(default_factory=dict)`
  pub variables_field : Option Json → Option (List (String × ℤ))
  variables_field none = some []
  variables_field (some (object fs)) = variables_of fs
  variables_field (some _) = none

  condition_fields : Fields → Option (Condition p)
  unfolding indicator_of operator_of variables_of variables_field
  condition_fields fs = bind (bind (get_field "indicator" fs) indicator_of) λ indicator.
      bind (variables_field (get_field "variables" fs)) λ variables.
        bind (bind (get_field "operator" fs) operator_of) λ operator.
          bind (bind (get_field "value" fs) as_float) λ value. some (record {
            indicator = indicator;
            variables = variables;
            operator = operator;
            value = value;
          })

  unfoldable pub validate_condition : Json → Option (Condition p)
  unfolding condition_fields
  validate_condition (object fs) =
      if keys_within ("indicator" ∷ "variables" ∷ "operator" ∷ "value" ∷ []) fs
      then condition_fields fs
      else none
  validate_condition _ = none

  validate_items : Items → Option (List (Condition p))
  unfolding validate_condition
  validate_items nil = some []
  validate_items (cons j js) =
      bind (validate_condition j) λ c. bind (validate_items js) λ cs. some (c ∷ cs)

  -- `conditions: list[Condition] = Field(min_length=1)`
  conditions_field : Json → Option (List (Condition p))
  unfolding validate_items
  conditions_field (array (cons j js)) = validate_items (cons j js)
  conditions_field _ = none

  -- `StrategyConfig.model_validate`; `none` stands for pydantic's `ValidationError`
  unfoldable pub model_validate : Json → Option (StrategyConfig p)
  unfolding conditions_field
  model_validate (object fs) =
      if keys_within ("conditions" ∷ []) fs
      then bind (bind (get_field "conditions" fs) conditions_field)
          (λ cs. some (record { conditions = cs }))
      else none
  model_validate _ = none
