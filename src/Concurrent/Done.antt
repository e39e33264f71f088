-- ===== src/Concurrent/Done.antt =====
-- What a task has done once it has ended without an exception.
pub mod Lasts
use mathlib.Core.List.{Memᴰ}
use mathlib.Core.List.Memᴰ
use cryptovira.Prelude.{
  ℕ, String, ◌≡◌, ◌∙◌, true, false, ◌⊎◌, inl, inr, some, List, [], map, any, All, All-imply,
  item_from_end, str_eq,
}
use cryptovira.Exec.{Result, ok}
use cryptovira.Orm.{Stored}
use cryptovira.Market.Models.{Currency, Interval, of_value, same_bar}
use cryptovira.Market.Binance.{Kline}
use cryptovira.Market.Tasks.{closed_candles}
use cryptovira.Strategy.Models.{Strategy, StrategyEvaluation}
use cryptovira.Strategy.Tasks.{is_due, history}
use cryptovira.Signals.Models.{
  Signal, NotificationRecipient, NotificationDelivery, new_delivery, same_delivery, is_pending,
}
use cryptovira.Signals.Tasks.{is_recipient, is_queued}
use cryptovira.Backtesting.Tasks.{Bar}
use cryptovira.World.{Platform, World, Message}
use cryptovira.World.Queries.{get, has_id}
use cryptovira.Concurrent.Growth.{
  Grows, Grows-trans, Tracks, Continues-any, Continues-matches, Continues-Memᴰ, Memᴰ-later,
}
use cryptovira.Concurrent.Tasks.{
  Task, ingest, ask_ingest, ask_evaluate, assess, dispatch, backtest, deliver, send_again,
  ask_backtest, save, change, edit,
}

module _ (pf : Platform) where
  -- All the messages were published.
  abbrev pub Sent : List Message → World pf → Type 0
  Sent ms w = All (λ m. Memᴰ m w.published) ms

  -- The evaluation has its signal, and the signal was announced.
  pub record Announced (evaluation : ℕ) (w : World pf) : Type 0 where
    pub signal : Stored Signal
    pub of : signal.row.evaluation ≡ evaluation
    pub kept : Memᴰ signal (pf.orm.rows w.signals)
    pub published : Memᴰ (Message.dispatch_notifications signal.id) w.published

  -- The strategy has an audit row at that time, and what that says was done.
  pub record Recorded (strategy time : ℕ) (w : World pf) : Type 0 where
    pub evaluation : Stored StrategyEvaluation
    pub of : evaluation.row.strategy ≡ strategy
    pub at : evaluation.row.candle_open_time ≡ time
    pub kept : Memᴰ evaluation (pf.orm.rows w.evaluations)
    pub fired : evaluation.row.triggered ≡ true → Announced evaluation.id w

  -- The delivery is not pending.
  pub record Closed (delivery_id : ℕ) (w : World pf) : Type 0 where
    pub delivery : Stored NotificationDelivery
    pub of : delivery.id ≡ delivery_id
    pub kept : Memᴰ delivery (pf.orm.rows w.deliveries)
    pub closed : is_pending delivery.row.status ≡ false

  -- `V` holds of the states that the run passes through.
  module _ (V : World pf → Type 0) where
    -- Every candle that had closed is stored, or one for the same bar, of the currency that had the
    -- symbol in some state of the run.
    pub record Ingested (source : String → Interval → Result (List (Kline pf.python))) (now : ℕ)
        (symbol interval : String) (w : World pf) : Type 0 where
      pub earlier : World pf
      pub seen : V earlier
      pub currency : Stored Currency
      pub found : get pf.orm (λ s. str_eq s.row.symbol symbol) earlier.currencies ≡ ok currency
      pub known : Interval
      pub klines : List (Kline pf.python)
      pub valid : of_value interval ≡ some known
      pub answered : source symbol known ≡ ok klines
      pub kept :
          All
            (λ c. any (λ s. same_bar c s.row) (pf.orm.rows w.candles) ≡ true)
            (closed_candles pf currency.id now klines)

    -- What an evaluation reads: the strategy in some state of the run, and the candles in a state
    -- of the run after that.
    pub record Reading (strategy_id : ℕ) (w : World pf) : Type 0 where
      pub earlier : World pf
      pub seen : V earlier
      pub strategy : Stored Strategy
      pub found : get pf.orm (has_id strategy_id) earlier.strategies ≡ ok strategy
      pub looked : World pf
      pub seen_later : V looked
      pub followed : Grows pf earlier looked
      pub since : Grows pf looked w

    -- There was no candle.
    pub record Idle (strategy_id : ℕ) (w : World pf) : Type 0 where
      pub reading : Reading strategy_id w
      pub empty : history pf reading.strategy.row reading.looked ≡ []

    -- The strategy has an audit row at the last candle that was read, and what that says was done.
    pub record Audited (strategy_id : ℕ) (w : World pf) : Type 0 where
      pub reading : Reading strategy_id w
      pub latest : Bar pf
      pub last : item_from_end (history pf reading.strategy.row reading.looked) 1 ≡ some latest
      pub recorded : Recorded strategy_id latest.row.open_time w

    -- Every recipient that the signal's owner had in some state of the run has a delivery of the
    -- signal, and every delivery that was pending in some later state a message.
    pub record Spread (signal_id : ℕ) (w : World pf) : Type 0 where
      pub signal : Stored Signal
      pub of : signal.id ≡ signal_id
      pub kept : Memᴰ signal (pf.orm.rows w.signals)
      pub evaluation : Stored StrategyEvaluation
      pub evaluated : evaluation.id ≡ signal.row.evaluation
      pub evaluation_kept : Memᴰ evaluation (pf.orm.rows w.evaluations)
      -- when the strategy was read
      pub owned : World pf
      pub seen : V owned
      pub strategy : Stored Strategy
      pub found : get pf.orm (has_id evaluation.row.strategy) owned.strategies ≡ ok strategy
      -- when the recipients were, after it
      pub earlier : World pf
      pub seen_later : V earlier
      pub followed : Grows pf owned earlier
      pub reached :
          All
            (λ r.
              any
                (λ d. same_delivery (new_delivery signal.id r.id) d.row)
                (pf.orm.rows w.deliveries)
              ≡ true)
            (pf.orm.filter (is_recipient strategy.row.user) earlier.recipients)
      -- when the pending deliveries were, after that
      pub written : World pf
      pub seen_last : V written
      pub after : Grows pf earlier written
      pub since : Grows pf written w
      pub published :
          Sent
            (map
              (λ d. Message.send_notification d.id 0 0)
              (pf.orm.filter (is_queued signal.id) written.deliveries))
            w

    -- A message for each row that matched in some state of the run.
    pub record Asked (messages : World pf → List Message) (w : World pf) : Type 0 where
      pub earlier : World pf
      pub seen : V earlier
      pub since : Grows pf earlier w
      pub published : Sent (messages earlier) w

    unfoldable pub Done : Task pf → World pf → Type 0
    Done (ingest source now symbol interval) w = Ingested source now symbol interval w
    Done (ask_ingest interval) w =
        Asked
          (λ u.
            map (λ s. Message.ingest_candles s.row.symbol interval)
              (pf.orm.filter (λ s. s.row.is_active) u.currencies))
          w
    Done (ask_evaluate interval) w =
        Asked
          (λ u.
            map (λ s. Message.evaluate_strategy s.id)
              (pf.orm.filter (is_due interval) u.strategies))
          w
    Done (assess i) w = Idle i w ⊎ Audited i w
    Done (dispatch i) w = Spread i w
    Done (backtest i) w = Unit
    Done (deliver token post retries i) w = Closed i w
    Done (send_again ids) w = Sent (map (λ i. Message.send_notification i 0 0) ids) w
    Done (ask_backtest ids) w = Sent (map (λ i. Message.run_backtest i) ids) w
    Done (save clean_fields s) w = Unit
    Done (change clean_fields i s) w = Unit
    Done (edit currencies recipients backtests) w = Unit
