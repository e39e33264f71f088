-- ===== src/Strategy/Indicators.antt =====
-- apps/strategy/indicators.py: the registry of indicators over TA-Lib. TA-Lib is a parameter: its
-- functions take the closes and their periods, and raise on a period that they do not accept.
use cryptovira.Prelude.{ℤ, pos, String, List, [], ◌∷◌, str_eq, if◌then◌else◌}
use cryptovira.Python.{Python}
use cryptovira.Exec.{Result, and_then, ok}
use cryptovira.Strategy.Schema.{IndicatorName, sma, ema, rsi, macd, macd_signal, macd_hist}

pub record Talib (p : Python) : Type 0 where
  pub talib_sma : List p.Float → ℤ → Result (List p.Float)
  pub talib_ema : List p.Float → ℤ → Result (List p.Float)
  pub talib_rsi : List p.Float → ℤ → Result (List p.Float)
  pub talib_macd : List p.Float → ℤ → ℤ → ℤ → Result (List p.Float × List p.Float × List p.Float)

-- `variables.get(name, default)`
unfoldable pub get_variable : List (String × ℤ) → String → ℤ → ℤ
get_variable [] k default = default
get_variable ((j, n) ∷ vs) k default = if str_eq j k then n else get_variable vs k default

module _ (p : Python) (talib : Talib p) where
  -- `_macd`, which the three entries of the registry share
  macd_all : List p.Float → List (String × ℤ) → Result (List p.Float × List p.Float × List p.Float)
  macd_all close vs =
      talib.talib_macd close (get_variable vs "fastperiod" (pos 12))
        (get_variable vs "slowperiod" (pos 26)) (get_variable vs "signalperiod" (pos 9))

  -- `INDICATORS[name](close, variables)`
  unfoldable pub compute : IndicatorName → List p.Float → List (String × ℤ) → Result (List p.Float)
  unfolding get_variable macd_all
  compute sma close vs = talib.talib_sma close (get_variable vs "timeperiod" (pos 20))
  compute ema close vs = talib.talib_ema close (get_variable vs "timeperiod" (pos 20))
  compute rsi close vs = talib.talib_rsi close (get_variable vs "timeperiod" (pos 14))
  compute macd close vs = and_then (macd_all close vs) (λ o. ok o.0)
  compute macd_signal close vs = and_then (macd_all close vs) (λ o. ok o.1)
  compute macd_hist close vs = and_then (macd_all close vs) (λ o. ok o.2)
