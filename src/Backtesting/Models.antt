-- ===== src/Backtesting/Models.antt =====
-- apps/backtesting/models.py.
use cryptovira.Prelude.{ℕ, String, Bool, false, Option}
use cryptovira.Python.{Python}

pub data BacktestStatus : Type 0 where
  pending running completed failed : BacktestStatus

pub record Backtest (p : Python) : Type 0 where
  pub strategy : ℕ
  pub start_time : ℕ
  pub end_time : ℕ
  pub horizon_candles : ℕ
  pub status : BacktestStatus
  pub progress : ℕ
  pub error : String
  pub trigger_count : Option ℕ
  pub scored_trigger_count : Option ℕ
  pub win_count : Option ℕ
  pub win_rate : Option p.Float
  pub total_forward_return : Option p.Float

-- the table has no unique constraint but its primary key
abbrev pub no_constraint : {p : Python} → Backtest p → Backtest p → Bool
no_constraint a b = false
