-- ===== src/World.antt =====
-- The state that the tasks share: the database's tables, and the messages published to the broker.
-- What the program runs on is one parameter, `Platform`.
pub mod Matches
pub mod Queries
pub mod Keys
use cryptovira.Prelude.{ℕ, String, ◌≡◌, Bool, false, List, [], ◌∷◌, ◌++◌, none}
use cryptovira.Python.{Python}
use cryptovira.Orm.{Orm}
use cryptovira.Market.Models.{Currency, same_symbol, Candle, same_bar}
use cryptovira.Strategy.Schema.{Pydantic}
use cryptovira.Strategy.Indicators.{Talib}
use cryptovira.Strategy.Models.{Strategy, StrategyEvaluation, same_candle}
use cryptovira.Signals.Models.{
  Signal, same_evaluation, NotificationRecipient, same_channel, NotificationDelivery, same_delivery,
}
use cryptovira.Backtesting.Models.{Backtest, no_constraint}

-- Python's values, Django's ORM, TA-Lib, pydantic and Celery's backoff function.
pub record Platform : Type 1 where
  pub python : Python
  pub orm : Orm
  pub talib : Talib python
  pub pydantic : Pydantic python
  -- `get_exponential_backoff_interval(factor=1, retries=..., maximum=600, full_jitter=True)`
  pub backoff : ℕ → ℕ

-- A strategy has no unique constraint.
abbrev pub no_clash : Strategy → Strategy → Bool
no_clash a b = false

-- A message of the task queue: the task and its arguments. A message of `send_notification` also
-- carries Celery's count of retries so far, and the delay in seconds before it runs.
pub data Message : Type 0 where
  ingest_candles : (symbol interval : String) → Message
  evaluate_strategy : (strategy_id : ℕ) → Message
  dispatch_notifications : (signal_id : ℕ) → Message
  send_notification : (delivery_id retries countdown : ℕ) → Message
  run_backtest : (backtest_id : ℕ) → Message

pub record World (pf : Platform) : Type 0 where
  pub currencies : pf.orm.Table Currency same_symbol
  pub candles : pf.orm.Table (Candle pf.python) same_bar
  pub strategies : pf.orm.Table Strategy no_clash
  pub evaluations : pf.orm.Table StrategyEvaluation same_candle
  pub signals : pf.orm.Table Signal same_evaluation
  pub recipients : pf.orm.Table NotificationRecipient same_channel
  pub deliveries : pf.orm.Table NotificationDelivery same_delivery
  pub backtests : pf.orm.Table (Backtest pf.python) no_constraint
  pub published : List Message

-- `task.delay(...)`, and each member of a `group(...)()`
abbrev pub publish : {pf : Platform} → List Message → World pf → World pf
publish ms w = record w { published = w.published ++ ms }
