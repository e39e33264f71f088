-- ===== src/System.antt =====
-- The whole program as a transition system: a step is a run of one task, of one admin action, or an
-- edit of the rows that no task creates. The task queue may run any task at any time, in any order
-- and more than once, so a step asks for no message. A task runs as one step. A deletion, which
-- cascades, is no step.
pub mod Growth
pub mod Judging
pub mod Sending
pub mod Arrival
pub mod FirstDispatch
pub mod Invariant
pub mod Reachable
pub mod NewSignal
pub mod EndToEnd
use cryptovira.Prelude.{ℕ, String, Option, List}
use cryptovira.Exec.{Result}
use cryptovira.Market.Models.{Interval, Currency, same_symbol}
use cryptovira.Market.Binance.{Kline}
use cryptovira.Market.Tasks.{ingest_candles, fan_out_ingest_candles}
use cryptovira.Strategy.Models.{Strategy}
use cryptovira.Strategy.Tasks.{
  evaluate_strategy, fan_out_evaluate_strategies, save_strategy, change_strategy,
}
use cryptovira.Signals.Models.{NotificationRecipient, same_channel}
use cryptovira.Signals.Channels.{Post}
use cryptovira.Signals.Tasks.{dispatch_notifications, send_notification, retry_now}
use cryptovira.Backtesting.Models.{Backtest, no_constraint}
use cryptovira.Backtesting.Tasks.{run_backtest, run_backtest_action}
use cryptovira.World.{Platform, World, Message}

module _ (pf : Platform) where
  pub data Step (w : World pf) : World pf → Type 0 where
    ingest :
        (source : String → Interval → Result (List (Kline pf.python))) (now : ℕ)
        (symbol interval : String)
        → Step w (ingest_candles pf source now symbol interval w).1
    ask_ingest : (interval : String) → Step w (fan_out_ingest_candles pf interval w).1
    assess : (strategy_id : ℕ) → Step w (evaluate_strategy pf strategy_id w).1
    ask_evaluate : (interval : String) → Step w (fan_out_evaluate_strategies pf interval w).1
    dispatch : (signal_id : ℕ) → Step w (dispatch_notifications pf signal_id w).1
    attempt_delivery :
        (token : Option String) (post : Post) (retries delivery_id : ℕ)
        → Step w (send_notification pf token post retries delivery_id w).1
    send_again : (ids : List ℕ) → Step w (retry_now pf ids w).1
    backtest : (backtest_id : ℕ) → Step w (run_backtest pf backtest_id w).1
    ask_backtest : (ids : List ℕ) → Step w (run_backtest_action pf ids w).1
    save :
        (clean_fields : Strategy → Result (Unit {0})) (s : Strategy)
        → Step w (save_strategy pf clean_fields s w).1
    change :
        (clean_fields : Strategy → Result (Unit {0})) (strategy_id : ℕ) (s : Strategy)
        → Step w (change_strategy pf clean_fields strategy_id s w).1
    -- the other rows that users and the admin site write, and the broker's queue
    edit :
        (currencies : pf.orm.Table Currency same_symbol)
        (recipients : pf.orm.Table NotificationRecipient same_channel)
        (backtests : pf.orm.Table (Backtest pf.python) no_constraint) (published : List Message)
        → Step w (record w {
          currencies = currencies;
          recipients = recipients;
          backtests = backtests;
          published = published;
        })

  -- any number of steps
  pub data Reach (w : World pf) : World pf → Type 0 where
    here : Reach w w
    later : {u v : World pf} → Reach w u → Step u v → Reach w v
