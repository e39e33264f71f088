-- ===== src/Concurrent/Programs.antt =====
-- The tasks and the actions that publish them, statement by statement. A query that joins tables is
-- split into the queries of its tables, and a value that is computed without the database is read
-- like one, so that there are more interleavings than a run has, and none less.
use cryptovira.Prelude.{
  ℕ, ◌+◌, String, Bool, Option, none, some, List, [], ◌∷◌, map, leb, ◌==◌, str_eq, ◌&&◌,
  if◌then◌else◌, item_from_end,
}
use cryptovira.Exec.{
  Exec, Result, ok, err, or_raise, lift, gets, modify, value_error, index_error, validation_error,
  channel_delivery_error, retry, traverse,
}
use cryptovira.Orm.{Stored}
use cryptovira.Market.Models.{Interval, of_value}
use cryptovira.Market.Binance.{Kline}
use cryptovira.Market.Tasks.{closed_candles, in_columns}
use cryptovira.Strategy.Schema.{model_validate}
use cryptovira.Strategy.Engine.{evaluate}
use cryptovira.Strategy.Models.{Strategy}
use cryptovira.Strategy.Tasks.{is_due, of_candle, audit, history, closes, audit_row}
use cryptovira.Signals.Models.{Signal, NotificationDelivery, is_sent, channel_of}
use cryptovira.Signals.Messages.{render_signal_message}
use cryptovira.Signals.Services.{of_evaluation}
use cryptovira.Signals.Channels.{Post, send}
use cryptovira.Signals.Tasks.{
  is_recipient, is_queued, max_retries, deliveries_for, save_delivery, gave_up, missed, delivered,
}
use cryptovira.Backtesting.Tasks.{Bar}
use cryptovira.World.{Platform, World, Message, publish}
use cryptovira.World.Queries.{get, has_id}
use cryptovira.Concurrent.{Code, stop, done, ◌>>=◌, ◌>>◌}

module _ (pf : Platform) where
  abbrev pub Program : Type 1
  Program = Code (World pf) (Unit {0})

  -- `for ...: task.delay(...)`, and the members of a group
  unfoldable pub publish_each : List Message → Program
  publish_each [] = done tt
  publish_each (m ∷ ms) = do modify (publish (m ∷ [])); publish_each ms

  unfoldable pub ask_ingest : String → Program
  unfolding publish_each
  ask_ingest interval = do
    active ← gets (λ w. pf.orm.filter (λ s. s.row.is_active) w.currencies)
    publish_each (map (λ s. Message.ingest_candles s.row.symbol interval) active)

  unfoldable pub ask_evaluate : String → Program
  unfolding publish_each
  ask_evaluate interval = do
    strategies ← gets (λ w. pf.orm.filter (is_due interval) w.strategies)
    publish_each (map (λ s. Message.evaluate_strategy s.id) strategies)

  unfoldable pub ingest :
      (String → Interval → Result (List (Kline pf.python))) → ℕ → String → String → Program
  ingest source now symbol interval = do
    currency ← (λ w. (get pf.orm (λ s. str_eq s.row.symbol symbol) w.currencies, w))
    known ← lift (or_raise (of_value interval) value_error)
    klines ← lift (source symbol known)
    rows ← lift (traverse (in_columns pf) (closed_candles pf currency.id now klines))
    modify (λ w. record w { candles = pf.orm.bulk_create rows w.candles })
    done tt

  -- the `create` of `record_signal`: no row after `IntegrityError`
  unfoldable pub try_create : ℕ → Exec (World pf) (Option (Stored Signal))
  try_create evaluation w = elim (pf.orm.create (record { evaluation = evaluation }) w.signals) [
    | none ↦ (ok none, w)
    | some (signal, signals) ↦ (ok (some signal), record w { signals = signals })
  ]

  unfoldable pub announce : ℕ → Program
  announce signal = do modify (publish (Message.dispatch_notifications signal ∷ [])); done tt

  unfoldable pub after_create : ℕ → Option (Stored Signal) → Program
  unfolding announce
  after_create evaluation none = do
    signal ← (λ w. (get pf.orm (of_evaluation evaluation) w.signals, w))
    announce signal.id
  after_create evaluation (some signal) = announce signal.id

  -- `record_signal`, at the end of `evaluate_strategy`
  unfoldable pub record_new : ℕ → Program
  unfolding after_create
  record_new evaluation = do created ← try_create evaluation; after_create evaluation created

  unfoldable pub write_audit : ℕ → ℕ → Bool × String → Program
  unfolding record_new
  write_audit strategy time verdict = do
    modify (λ w. record w {
      evaluations = pf.orm.bulk_create (audit_row pf strategy time verdict ∷ []) w.evaluations;
    })
    evaluation ← (λ w. (get pf.orm (of_candle strategy time) w.evaluations, w))
    if evaluation.row.triggered then record_new evaluation.id else done tt

  unfoldable pub assess_candles : Stored Strategy → List (Bar pf) → Program
  unfolding write_audit
  assess_candles strategy [] = done tt
  assess_candles strategy (c ∷ cs) = do
    config ← lift (
        or_raise (model_validate pf.python pf.pydantic strategy.row.config)
          (validation_error "config"))
    verdict ← lift (audit (evaluate pf.python pf.talib config (closes pf (c ∷ cs))))
    latest ← lift (or_raise (item_from_end (c ∷ cs) 1) index_error)
    write_audit strategy.id latest.row.open_time verdict

  -- `evaluate_strategy`
  unfoldable pub assess : ℕ → Program
  unfolding assess_candles
  assess strategy_id = do
    strategy ← (λ w. (get pf.orm (has_id strategy_id) w.strategies, w))
    candles ← gets (history pf strategy.row)
    assess_candles strategy candles

  -- `dispatch_notifications`
  unfoldable pub dispatch : ℕ → Program
  unfolding publish_each
  dispatch signal_id = do
    signal ← (λ w. (get pf.orm (has_id signal_id) w.signals, w))
    evaluation ← (λ w. (get pf.orm (has_id signal.row.evaluation) w.evaluations, w))
    strategy ← (λ w. (get pf.orm (has_id evaluation.row.strategy) w.strategies, w))
    recipients ← gets (λ w. pf.orm.filter (is_recipient strategy.row.user) w.recipients)
    modify (λ w. record w {
      deliveries = pf.orm.bulk_create (deliveries_for pf signal.id recipients) w.deliveries;
    })
    queued ← gets (λ w. pf.orm.filter (is_queued signal.id) w.deliveries)
    publish_each (map (λ d. Message.send_notification d.id 0 0) queued)

  -- the end of `send_notification`, from what `channel.send` did: the row is saved, and then
  -- `self.retry` publishes and raises
  unfoldable pub conclude : ℕ → Stored NotificationDelivery → Result (Unit {0}) → Program
  conclude retries d (ok _) = do
    modify (save_delivery pf d.id (delivered pf d.row.attempts))
    done tt
  conclude retries d (err (channel_delivery_error text)) =
      if leb max_retries retries
      then (do modify (save_delivery pf d.id (gave_up pf d.row.attempts text)); done tt)
      else (do
        modify (save_delivery pf d.id (missed pf d.row.attempts text))
        modify (publish (Message.send_notification d.id (retries + 1) (pf.backoff retries) ∷ []))
        stop (err (retry (pf.backoff retries))))
  conclude retries d (err e) = stop (err e)

  module _ (token : Option String) (post : Post) where
    -- the attempt itself, with `build_message_context`
    unfoldable pub try_delivery : ℕ → Stored NotificationDelivery → Program
    unfolding conclude
    try_delivery retries d = do
      recipient ← (λ w. (get pf.orm (has_id d.row.recipient) w.recipients, w))
      signal ← (λ w. (get pf.orm (has_id d.row.signal) w.signals, w))
      evaluation ← (λ w. (get pf.orm (has_id signal.row.evaluation) w.evaluations, w))
      strategy ← (λ w. (get pf.orm (has_id evaluation.row.strategy) w.strategies, w))
      currency ← (λ w. (get pf.orm (has_id strategy.row.currency) w.currencies, w))
      candle ← (λ w. (
        get pf.orm
            (λ c.
              c.row.currency == currency.id
              && (str_eq c.row.interval strategy.row.interval
                  && c.row.open_time == evaluation.row.candle_open_time))
            w.candles,
        w,
      ))
      channel ← lift (or_raise (channel_of recipient.row.channel) value_error)
      outcome ← gets (λ w. send token post channel recipient.row.destination (
          render_signal_message pf.python (record {
            strategy_name = strategy.row.name;
            symbol = currency.row.symbol;
            interval = strategy.row.interval;
            candle_open_time = candle.row.open_time;
            close_price = candle.row.close;
          })))
      conclude retries d outcome

    -- `send_notification`
    unfoldable pub deliver : ℕ → ℕ → Program
    unfolding try_delivery
    deliver retries delivery_id = do
      d ← (λ w. (get pf.orm (has_id delivery_id) w.deliveries, w))
      if is_sent d.row.status then done tt else try_delivery retries d

  -- `retry_now` and `run_backtest_action`, on the rows that were chosen
  unfoldable pub send_again : List ℕ → Program
  unfolding publish_each
  send_again ids = publish_each (map (λ i. Message.send_notification i 0 0) ids)

  unfoldable pub ask_backtest : List ℕ → Program
  unfolding publish_each
  ask_backtest ids = publish_each (map (λ i. Message.run_backtest i) ids)
