-- ===== src/Strategy/Tasks.antt =====
-- apps/strategy/tasks.py, with the saving of a strategy of apps/strategy/models.py.
pub mod History
pub mod Evaluate
pub mod Rerun
pub mod Save
use cryptovira.Prelude.{
  ℕ, String, Bool, false, ◌&&◌, Option, none, some, List, [], ◌∷◌, map, reverse, take,
  item_from_end, ◌==◌, str_eq, if◌then◌else◌,
}
use cryptovira.Exec.{
  Exec, Result, ok, err, insufficient_data_error, index_error, validation_error, other_error,
  or_raise, pure, lift, gets, modify, ◌>>=◌, ◌>>◌,
}
use cryptovira.Orm.{Stored, descending}
use cryptovira.Market.Models.{Candle}
use cryptovira.Strategy.Schema.{model_validate}
use cryptovira.Strategy.Engine.{evaluate}
use cryptovira.Strategy.Models.{Strategy, StrategyEvaluation}
use cryptovira.Signals.Services.{record_signal}
use cryptovira.World.{Platform, World, Message, publish, no_clash}
use cryptovira.World.Queries.{get, has_id}

-- `HISTORY_CANDLE_COUNT`
abbrev pub history_candle_count : ℕ
history_candle_count = 200

-- `Strategy.objects.filter(is_active=True, interval=interval)`
abbrev pub is_due : String → Stored Strategy → Bool
is_due interval s = s.row.is_active && str_eq s.row.interval interval

abbrev pub of_candle : ℕ → ℕ → Stored StrategyEvaluation → Bool
of_candle strategy time e = strategy == e.row.strategy && time == e.row.candle_open_time

-- what the `try` around `evaluate` leaves in `triggered` and `error`
unfoldable pub audit : Result Bool → Result (Bool × String)
audit (ok triggered) = ok (triggered, "")
audit (err (insufficient_data_error message)) = ok (false, message)
audit (err e) = err e

module _ (pf : Platform) where
  -- `fan_out_evaluate_strategies`
  unfoldable pub fan_out_evaluate_strategies : String → Exec (World pf) Unit
  fan_out_evaluate_strategies interval = modify λ w.
      publish
        (map (λ s. Message.evaluate_strategy s.id) (pf.orm.filter (is_due interval) w.strategies)) w

  -- the candles of a strategy's currency and interval
  abbrev pub is_bar_of : Strategy → Stored (Candle pf.python) → Bool
  is_bar_of s c = c.row.currency == s.currency && str_eq c.row.interval s.interval

  -- the latest candles, oldest first
  unfoldable pub history : Strategy → World pf → List (Stored (Candle pf.python))
  history s w = reverse (
      take history_candle_count
        (pf.orm.order_by descending (λ c. c.open_time) (pf.orm.filter (is_bar_of s) w.candles)))

  -- `np.array([float(candle.close) for candle in candles])`
  abbrev pub closes : List (Stored (Candle pf.python)) → List pf.python.Float
  closes candles = map (λ c. pf.python.to_float c.row.close) candles

  abbrev pub audit_row : ℕ → ℕ → Bool × String → StrategyEvaluation
  audit_row strategy time verdict = record {
    strategy = strategy;
    candle_open_time = time;
    triggered = verdict.0;
    error = verdict.1;
  }

  -- the audit row, read back, and the signal if it says so
  unfoldable pub write_evaluation : ℕ → ℕ → Bool × String → Exec (World pf) Unit
  write_evaluation strategy time verdict = do
    modify (λ w. record w {
      evaluations = pf.orm.bulk_create (audit_row strategy time verdict ∷ []) w.evaluations;
    })
    evaluation ← (λ w. (get pf.orm (of_candle strategy time) w.evaluations, w))
    if evaluation.row.triggered then (record_signal pf evaluation >> pure tt) else pure tt

  -- the task, once the candles are there
  unfoldable pub evaluate_candles :
      Stored Strategy → List (Stored (Candle pf.python)) → Exec (World pf) Unit
  unfolding audit write_evaluation
  evaluate_candles strategy [] = pure tt
  evaluate_candles strategy (c ∷ cs) = do
    config ← lift (
        or_raise (model_validate pf.python pf.pydantic strategy.row.config)
          (validation_error "config"))
    verdict ← lift (audit (evaluate pf.python pf.talib config (closes (c ∷ cs))))
    latest ← lift (or_raise (item_from_end (c ∷ cs) 1) index_error)
    write_evaluation strategy.id latest.row.open_time verdict

  -- `evaluate_strategy`
  unfoldable pub evaluate_strategy : ℕ → Exec (World pf) Unit
  unfolding evaluate_candles history
  evaluate_strategy strategy_id = do
    strategy ← (λ w. (get pf.orm (has_id strategy_id) w.strategies, w))
    candles ← gets (history strategy.row)
    evaluate_candles strategy candles

  -- the insertion that ends `Strategy.save` for a new row
  unfoldable pub stored :
      Option (Stored Strategy × pf.orm.Table Strategy no_clash) → Exec (World pf) Unit
  stored none w = (err (other_error "IntegrityError"), w)
  stored (some (_, strategies)) w = (ok tt, record w { strategies = strategies })

  -- `Strategy.save` of a new row, by way of `full_clean` and `clean`. What `full_clean` checks of the
  -- fields beyond `clean` is a parameter.
  unfoldable pub save_strategy : (Strategy → Result (Unit {0})) → Strategy → Exec (World pf) Unit
  unfolding stored
  save_strategy clean_fields s = do
    lift (clean_fields s)
    config ←
        lift (or_raise (model_validate pf.python pf.pydantic s.config) (validation_error "config"))
    (λ w. stored (pf.orm.create s w.strategies) w)

  -- `Strategy.save` of a row that is there, with all its columns
  unfoldable pub change_strategy :
      (Strategy → Result (Unit {0})) → ℕ → Strategy → Exec (World pf) Unit
  change_strategy clean_fields id s = do
    lift (clean_fields s)
    config ←
        lift (or_raise (model_validate pf.python pf.pydantic s.config) (validation_error "config"))
    modify (λ w. record w { strategies = pf.orm.save id (λ _. s) w.strategies })
