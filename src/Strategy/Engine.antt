-- ===== src/Strategy/Engine.antt =====
-- apps/strategy/engine.py: whether every condition of a configuration holds for the closes.
pub mod Meaning
use Prim.Native.String.{◌++◌ as text_append}
use cryptovira.Prelude.{
  ℕ, String, Bool, true, false, ◌||◌, Option, none, some, List, [], ◌∷◌, length, ltb, ℤ,
  item_from_end, if◌then◌else◌,
}
use cryptovira.Python.{Python}
use cryptovira.Exec.{Result, ok, err, insufficient_data_error, index_error, or_raise, and_then}
use cryptovira.Strategy.Schema.{Condition, StrategyConfig, indicator_text}
use cryptovira.Strategy.Operators.{apply_operator}
use cryptovira.Strategy.Indicators.{Talib, compute}

-- `_MIN_SERIES_LENGTH`
abbrev pub min_series_length : ℕ
min_series_length = 2

module _ (p : Python) where
  -- `condition.variables or ''`
  abbrev variables_text : List (String × ℤ) → String
  variables_text [] = ""
  variables_text (v ∷ vs) = p.show_dict (v ∷ vs)

  -- the message of `InsufficientDataError`
  unfoldable pub needs_more : Condition p → ℕ → String
  needs_more c n = text_append (indicator_text c.indicator) (
      text_append (variables_text c.variables) (
        text_append " needs more historical candles than the "
          (text_append (p.show_int n) " supplied.")))

  abbrev nan_at : Option p.Float → Bool
  nan_at none = false
  nan_at (some x) = p.is_nan x

  -- `len(series) < _MIN_SERIES_LENGTH or math.isnan(series[-1])`
  abbrev pub unusable : List p.Float → Bool
  unusable series = ltb (length series) min_series_length || nan_at (item_from_end series 1)

  module _ (talib : Talib p) where
    -- the guard and the operator, once the series is there
    unfoldable pub judge : Condition p → List p.Float → List p.Float → Result Bool
    judge c close series =
        if unusable series
        then err (insufficient_data_error (needs_more c (length close)))
        else or_raise (apply_operator p c.operator series c.value) index_error

    -- `_evaluate_condition`
    unfoldable pub evaluate_condition : Condition p → List p.Float → Result Bool
    evaluate_condition c close =
        and_then (compute p talib c.indicator close c.variables) (judge c close)

    -- `all(...)` stops at the first condition that does not hold, or that raises
    unfoldable pub evaluate_all : List (Condition p) → List p.Float → Result Bool
    evaluate_all [] close = ok true
    evaluate_all (c ∷ cs) close =
        and_then (evaluate_condition c close) (λ b. if b then evaluate_all cs close else ok false)

    -- `evaluate`
    unfoldable pub evaluate : StrategyConfig p → List p.Float → Result Bool
    evaluate config close = evaluate_all config.conditions close
