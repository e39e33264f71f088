-- ===== src/Concurrent/Backtests.antt =====
-- `run_backtest` and the edits, statement by statement.
use cryptovira.Prelude.{ℕ, zero, suc, ◌+◌, List, [], ◌∷◌, ◌++◌, length, leb, if◌then◌else◌}
use cryptovira.Exec.{Result, or_raise, lift, gets, modify, validation_error}
use cryptovira.Orm.{Stored}
use cryptovira.Market.Models.{Currency, same_symbol}
use cryptovira.Strategy.Schema.{StrategyConfig, model_validate}
use cryptovira.Strategy.Models.{Strategy}
use cryptovira.Strategy.Tasks.{stored}
use cryptovira.Signals.Models.{NotificationRecipient, same_channel}
use cryptovira.Backtesting.Models.{Backtest, no_constraint}
use cryptovira.Backtesting.Tasks.{
  Bar, Score, warmup_of, range_of, tail_of, save_backtest, fail_with, start, judge_candle, report,
  no_score, complete, no_candles,
}
use cryptovira.World.{Platform, World}
use cryptovira.World.Queries.{get, has_id}
use cryptovira.Concurrent.{done, ◌>>=◌, ◌>>◌}
use cryptovira.Concurrent.Programs.{Program}

module _ (pf : Platform) where
  open pf use {python}
  open python use {Float}

  module _ (config : StrategyConfig python) (series : List (Bar pf))
      (horizon backtest_id first n : ℕ) (rest : Score Float → Program pf) where
    -- the loop, with that many candles left, and what follows it
    unfoldable pub judge_each : ℕ → ℕ → Score Float → Program pf
    judge_each zero offset s = rest s
    judge_each (suc left) offset s = do
      s' ← lift (judge_candle pf config series horizon (first + offset) s)
      modify (report pf config series horizon backtest_id first n (offset + 1))
      judge_each left (offset + 1) s'

  unfoldable pub backtest_series :
      Stored (Backtest python) → Strategy → List (Bar pf) → List (Bar pf) → Program pf
  unfolding judge_each
  backtest_series b s warmup in_range = do
    tail ← gets (tail_of pf s b.row)
    modify (save_backtest pf b.id (start pf))
    config ←
        lift (or_raise (model_validate python pf.pydantic s.config) (validation_error "config"))
    judge_each config (warmup ++ in_range ++ tail) b.row.horizon_candles b.id (length warmup)
        (length in_range) (λ score. do modify (save_backtest pf b.id (complete pf score)); done tt)
        (length in_range) 0 (no_score pf)

  unfoldable pub backtest_range :
      Stored (Backtest python)
      → Stored Strategy
      → Currency
      → List (Bar pf)
      → List (Bar pf)
      → Program pf
  unfolding backtest_series
  backtest_range b s c warmup [] = do
    modify (save_backtest pf b.id (fail_with pf (no_candles pf c s.row b.row)))
    done tt
  backtest_range b s c warmup (x ∷ in_range) = backtest_series b s.row warmup (x ∷ in_range)

  -- `run_backtest`
  unfoldable pub backtest : ℕ → Program pf
  unfolding backtest_range
  backtest backtest_id = do
    b ← (λ w. (get pf.orm (has_id backtest_id) w.backtests, w))
    s ← (λ w. (get pf.orm (has_id b.row.strategy) w.strategies, w))
    c ← (λ w. (get pf.orm (has_id s.row.currency) w.currencies, w))
    if leb b.row.end_time b.row.start_time
        then (do
          modify (save_backtest pf b.id (fail_with pf "end_time must be after start_time"))
          done tt)
        else (do
          warmup ← gets (warmup_of pf s.row b.row)
          in_range ← gets (range_of pf s.row b.row)
          backtest_range b s c.row warmup in_range)

  -- `Strategy.save` of a new row, which ends in its insertion, and of a row that is there
  unfoldable pub save : (Strategy → Result (Unit {0})) → Strategy → Program pf
  unfolding stored
  save clean_fields s = do
    lift (clean_fields s)
    config ←
        lift (or_raise (model_validate python pf.pydantic s.config) (validation_error "config"))
    (λ w. stored pf (pf.orm.create s w.strategies) w)
    done tt

  unfoldable pub change : (Strategy → Result (Unit {0})) → ℕ → Strategy → Program pf
  change clean_fields id s = do
    lift (clean_fields s)
    config ←
        lift (or_raise (model_validate python pf.pydantic s.config) (validation_error "config"))
    modify (λ w. record w { strategies = pf.orm.save id (λ _. s) w.strategies })
    done tt

  -- A write of users and of the admin site to the tables that no task creates rows of.
  unfoldable pub edit :
      (World pf → pf.orm.Table Currency same_symbol)
      → (World pf → pf.orm.Table NotificationRecipient same_channel)
      → (World pf → pf.orm.Table (Backtest python) no_constraint)
      → Program pf
  edit currencies recipients backtests = do
    modify (λ w. record w {
      currencies = currencies w;
      recipients = recipients w;
      backtests = backtests w;
    })
    done tt
