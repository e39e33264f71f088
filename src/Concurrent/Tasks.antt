-- ===== src/Concurrent/Tasks.antt =====
-- The tasks by name, with the program of each.
use cryptovira.Prelude.{ℕ, String, Option, List, [], ◌∷◌, map}
use cryptovira.Exec.{Exec, Result, modify}
use cryptovira.Market.Models.{Interval, Currency, same_symbol}
use cryptovira.Market.Binance.{Kline}
use cryptovira.Market.Tasks.{ingest_candles, fan_out_ingest_candles}
use cryptovira.Strategy.Models.{Strategy}
use cryptovira.Strategy.Tasks.{
  evaluate_strategy, fan_out_evaluate_strategies, save_strategy, change_strategy,
}
use cryptovira.Signals.Models.{NotificationRecipient, same_channel}
use cryptovira.Signals.Channels.{Post}
use cryptovira.Signals.Tasks.{dispatch_notifications, send_notification, retry_now}
use cryptovira.Backtesting.Models.{Backtest, no_constraint}
use cryptovira.Backtesting.Tasks.{run_backtest, run_backtest_action}
use cryptovira.World.{Platform, World}
use cryptovira.Concurrent.{Pool}
use cryptovira.Concurrent.Programs.{Program}
use cryptovira.Concurrent.Programs
use cryptovira.Concurrent.Backtests

module _ (pf : Platform) where
  -- a task with its arguments and what it is answered by the services, and the writes of users and
  -- of the admin site
  pub data Task : Type 0 where
    ingest : (String → Interval → Result (List (Kline pf.python))) → ℕ → String → String → Task
    ask_ingest ask_evaluate : String → Task
    assess dispatch backtest : ℕ → Task
    deliver : Option String → Post → ℕ → ℕ → Task
    send_again ask_backtest : List ℕ → Task
    save : (Strategy → Result (Unit {0})) → Strategy → Task
    change : (Strategy → Result (Unit {0})) → ℕ → Strategy → Task
    edit :
        (World pf → pf.orm.Table Currency same_symbol)
        → (World pf → pf.orm.Table NotificationRecipient same_channel)
        → (World pf → pf.orm.Table (Backtest pf.python) no_constraint)
        → Task

  unfoldable pub program : Task → Program pf
  program (ingest source now symbol interval) = Programs.ingest pf source now symbol interval
  program (ask_ingest interval) = Programs.ask_ingest pf interval
  program (ask_evaluate interval) = Programs.ask_evaluate pf interval
  program (assess i) = Programs.assess pf i
  program (dispatch i) = Programs.dispatch pf i
  program (backtest i) = Backtests.backtest pf i
  program (deliver token post retries i) = Programs.deliver pf token post retries i
  program (send_again ids) = Programs.send_again pf ids
  program (ask_backtest ids) = Programs.ask_backtest pf ids
  program (save clean_fields s) = Backtests.save pf clean_fields s
  program (change clean_fields i s) = Backtests.change pf clean_fields i s
  program (edit currencies recipients backtests) = Backtests.edit pf currencies recipients backtests

  -- the task as one function on the state
  unfoldable pub whole : Task → Exec (World pf) (Unit {0})
  whole (ingest source now symbol interval) = ingest_candles pf source now symbol interval
  whole (ask_ingest interval) = fan_out_ingest_candles pf interval
  whole (ask_evaluate interval) = fan_out_evaluate_strategies pf interval
  whole (assess i) = evaluate_strategy pf i
  whole (dispatch i) = dispatch_notifications pf i
  whole (backtest i) = run_backtest pf i
  whole (deliver token post retries i) = send_notification pf token post retries i
  whole (send_again ids) = retry_now pf ids
  whole (ask_backtest ids) = run_backtest_action pf ids
  whole (save clean_fields s) = save_strategy pf clean_fields s
  whole (change clean_fields i s) = change_strategy pf clean_fields i s
  whole (edit currencies recipients backtests) = modify λ w. record w {
    currencies = currencies w;
    recipients = recipients w;
    backtests = backtests w;
  }

  -- the tasks, each at its first statement
  abbrev pub started : List Task → World pf → Pool Task (World pf) (Unit {0})
  started ts w = record { state = w; threads = map (λ t. (t, program t)) ts }

  -- the state after the tasks, one after another
  unfoldable pub in_turn : List Task → World pf → World pf
  unfolding whole
  in_turn [] w = w
  in_turn (t ∷ ts) w = in_turn ts (whole t w).1
