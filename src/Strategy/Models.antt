-- ===== src/Strategy/Models.antt =====
-- apps/strategy/models.py. Foreign keys are primary keys of the rows that they name; time stamps
-- that the database keeps for bookkeeping are left out.
use cryptovira.Prelude.{ℕ, String, ◌≡◌, Bool, true, ◌&&◌, ◌==◌, arith}
use cryptovira.Strategy.Schema.{Json}

pub record Strategy : Type 0 where
  pub user : ℕ
  pub currency : ℕ
  pub interval : String
  pub name : String
  pub config : Json
  pub is_active : Bool

pub record StrategyEvaluation : Type 0 where
  pub strategy : ℕ
  pub candle_open_time : ℕ
  pub triggered : Bool
  pub error : String

-- `unique_strategy_evaluation_per_candle`
abbrev pub same_candle : StrategyEvaluation → StrategyEvaluation → Bool
same_candle a b = a.strategy == b.strategy && a.candle_open_time == b.candle_open_time

pub same_candle_refl : (a : StrategyEvaluation) → same_candle a a ≡ true
same_candle_refl a = ground arith
