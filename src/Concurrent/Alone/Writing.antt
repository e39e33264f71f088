-- ===== src/Concurrent/Alone/Writing.antt =====
-- `ingest_candles`, `run_backtest` and the edits, run alone.
use cryptovira.Prelude.{ℕ, zero, suc, ◌+◌, String, ◌≡◌, refl, List, [], ◌∷◌, length, leb}
use cryptovira.Exec.{Exec, Result, ok, err, continue}
use cryptovira.Orm.{Stored}
use cryptovira.Market.Models.{Interval, Currency}
use cryptovira.Market.Binance.{Kline}
use cryptovira.Market.Tasks.{ingest_candles}
use cryptovira.Strategy.Schema.{StrategyConfig}
use cryptovira.Strategy.Models.{Strategy}
use cryptovira.Strategy.Tasks.{save_strategy, change_strategy, stored}
use cryptovira.Backtesting.Models.{Backtest}
use cryptovira.Backtesting.Tasks.{Bar, Score, run_backtest, run_range, run_series, loop, report}
use cryptovira.World.{Platform, World}
use cryptovira.Concurrent.{run}
use cryptovira.Concurrent.Programs
use cryptovira.Concurrent.Backtests
use cryptovira.Concurrent.Programs.{Program}
use cryptovira.Concurrent.Alone.{Alone, Alone-ask, Alone-if, Alone-nested}

module _ (pf : Platform) where
  pub ingest-Alone :
      (source : String → Interval → Result (List (Kline pf.python))) (now : ℕ)
      (symbol interval : String)
      → Alone pf
          (Programs.ingest pf source now symbol interval)
          (ingest_candles pf source now symbol interval)
  unfolding run Programs.ingest ingest_candles
  ingest-Alone source now symbol interval = record { at = λ w. refl }

  module _ (config : StrategyConfig pf.python) (series : List (Bar pf)) (horizon i first n : ℕ)
      (rest : Score pf.python.Float → Program pf)
      (rest' : Score pf.python.Float → Exec (World pf) (Unit {0}))
      (same : (s : Score pf.python.Float) → Alone pf (rest s) (rest' s)) where
    judge_each-Alone :
        (left offset : ℕ) (s : Score pf.python.Float)
        → Alone pf
            (Backtests.judge_each pf config series horizon i first n rest left offset s)
            (λ w. continue (loop pf config series horizon i first n left offset s w) rest')
    unfolding run Backtests.judge_each loop
    judge_each-Alone zero offset s = record { at = λ w. (same s).at w }
    judge_each-Alone (suc left) offset s = Alone-nested pf _ _ _ _ (λ s'. record {
      at = λ w.
          (judge_each-Alone left (offset + 1) s').at
            (report pf config series horizon i first n (offset + 1) w);
    })

  backtest_series-Alone :
      (b : Stored (Backtest pf.python)) (s : Strategy) (warmup in_range : List (Bar pf))
      → Alone pf
          (Backtests.backtest_series pf b s warmup in_range)
          (run_series pf b s warmup in_range)
  unfolding run Backtests.backtest_series run_series
  backtest_series-Alone b s warmup in_range = Alone-ask pf _ _ _ (λ tail. Alone-ask pf _ _ _ (λ _.
      Alone-ask pf _ _ _ (λ config.
        judge_each-Alone config _ b.row.horizon_candles b.id (length warmup) (length in_range) _ _
          (λ score. record { at = λ w. refl }) (length in_range) 0 _)))

  backtest_range-Alone :
      (b : Stored (Backtest pf.python)) (s : Stored Strategy) (c : Currency)
      (warmup in_range : List (Bar pf))
      → Alone pf
          (Backtests.backtest_range pf b s c warmup in_range)
          (run_range pf b s c warmup in_range)
  unfolding run Backtests.backtest_range run_range
  backtest_range-Alone b s c warmup [] = record { at = λ w. refl }
  backtest_range-Alone b s c warmup (x ∷ in_range) =
      backtest_series-Alone b s.row warmup (x ∷ in_range)

  pub backtest-Alone : (i : ℕ) → Alone pf (Backtests.backtest pf i) (run_backtest pf i)
  unfolding run Backtests.backtest run_backtest
  backtest-Alone i = Alone-ask pf _ _ _ (λ b. Alone-ask pf _ _ _ (λ s. Alone-ask pf _ _ _ (λ c.
      Alone-if pf (leb b.row.end_time b.row.start_time) _ _ _ _ (record { at = λ w. refl })
        (record { at = λ w. (backtest_range-Alone b s c.row _ _).at w }))))

  pub save-Alone :
      (clean : Strategy → Result (Unit {0})) (s : Strategy)
      → Alone pf (Backtests.save pf clean s) (save_strategy pf clean s)
  unfolding run Backtests.save save_strategy
  save-Alone clean s = Alone-ask pf _ _ _ (λ _.
      Alone-ask pf _ _ _
        (λ config. record { at = λ w. ended (stored pf (pf.orm.create s w.strategies) w) }))
    where
      ended : (out : Result (Unit {0}) × World pf) → continue out (λ _ w. (ok tt, w)) ≡ out
      ended (ok tt, w) = refl
      ended (err e, w) = refl

  pub change-Alone :
      (clean : Strategy → Result (Unit {0})) (i : ℕ) (s : Strategy)
      → Alone pf (Backtests.change pf clean i s) (change_strategy pf clean i s)
  unfolding run Backtests.change change_strategy
  change-Alone clean i s = record { at = λ w. refl }
