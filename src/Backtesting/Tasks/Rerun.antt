-- ===== src/Backtesting/Tasks/Rerun.antt =====
-- Two runs of `run_backtest` on the same candles.
use cryptovira.Prelude.{
  ℕ, ◌≡◌, refl, sym, ◌∙◌, ap, subst, List, ◌++◌, All-selected, length, inl, inr, arith, some_same,
  ◌==◌, true,
}
use cryptovira.Exec.{ok}
use cryptovira.Orm.{Stored}
use cryptovira.Strategy.Schema.{StrategyConfig, model_validate}
use cryptovira.Strategy.Models.{Strategy}
use cryptovira.Backtesting.Models.{Backtest, completed}
use cryptovira.Backtesting.Tasks.{Score, no_score, run_backtest, range_of, tail_of, warmup_of, Bar}
use cryptovira.Backtesting.Tasks.Outcome.{
  Loaded, Outcome, Completed, Counted, in_range, empty_period, no_data, scored,
  run_backtest-Outcome,
}
use cryptovira.Backtesting.Tasks.Totals.{added, hits}
use cryptovira.World.{Platform, World}
use cryptovira.World.Queries.{get, has_id, get-ok, get-select}

module _ (pf : Platform) where
  open pf use {python}

  -- the columns of the results but for the error, which a completed run does not write
  pub record SameResults (x y : Backtest python) : Type 0 where
    pub status : y.status ≡ x.status
    pub progress : y.progress ≡ x.progress
    pub trigger_count : y.trigger_count ≡ x.trigger_count
    pub scored_trigger_count : y.scored_trigger_count ≡ x.scored_trigger_count
    pub win_count : y.win_count ≡ x.win_count
    pub win_rate : y.win_rate ≡ x.win_rate
    pub total_forward_return : y.total_forward_return ≡ x.total_forward_return

  Completed-SameResults :
      (s : Score python.Float) (x y : Backtest python)
      → Completed pf s x
      → Completed pf s y
      → SameResults x y
  Completed-SameResults s x y c d =
      let rates : (y.win_rate ≡ x.win_rate) × (y.total_forward_return ≡ x.total_forward_return) =
        elim c.rates [
          | inl (zero, rate, sum) ↦ elim d.rates [
            | inl (_, rate', sum') ↦ (rate' ∙ sym rate, sum' ∙ sym sum)
            | inr (one, _, _) ↦ absurd (omega (arith, zero, one))
          ]
          | inr (one, rate, sum) ↦ elim d.rates [
            | inl (zero, _, _) ↦ absurd (omega (arith, zero, one))
            | inr (_, rate', sum') ↦ (rate' ∙ sym rate, sum' ∙ sym sum)
          ]
        ] in
      record {
        status = d.is_completed ∙ sym c.is_completed;
        progress = d.done ∙ sym c.done;
        trigger_count = d.triggers_told ∙ sym c.triggers_told;
        scored_trigger_count = d.scored_told ∙ sym c.scored_told;
        win_count = d.wins_told ∙ sym c.wins_told;
        win_rate = rates.0;
        total_forward_return = rates.1;
      }

  -- the counters that a run comes to
  abbrev score_of :
      StrategyConfig python → List (Bar pf) → List (Bar pf) → List (Bar pf) → ℕ → Score python.Float
  score_of config warmup candles tail horizon =
      added pf config (warmup ++ candles ++ tail) horizon
        (hits pf config (warmup ++ candles ++ tail) horizon (length warmup) (length candles))
        (no_score pf)

  module _ (s : Strategy) (b b' : Backtest python) (w v : World pf)
      (candles : v.candles ≡ w.candles) (start_time : b'.start_time ≡ b.start_time)
      (end_time : b'.end_time ≡ b.end_time) (horizon : b'.horizon_candles ≡ b.horizon_candles) where
    same_warmup : warmup_of pf s b' v ≡ warmup_of pf s b w
    unfolding warmup_of
    same_warmup = rw (start_time, candles) refl

    same_range : range_of pf s b' v ≡ range_of pf s b w
    unfolding range_of
    same_range = rw (start_time, end_time, candles) refl

    same_tail : tail_of pf s b' v ≡ tail_of pf s b w
    unfolding tail_of
    same_tail = rw (horizon, end_time, candles) refl

    same_score :
        (config : StrategyConfig python)
        → score_of config
            (warmup_of pf s b' v)
            (range_of pf s b' v)
            (tail_of pf s b' v)
            b'.horizon_candles
          ≡ score_of config
              (warmup_of pf s b w)
              (range_of pf s b w)
              (tail_of pf s b w)
              b.horizon_candles
    same_score config = rw (same_warmup, same_range, same_tail, horizon) refl

  reported :
      (i : ℕ) (w : World pf) (l : Loaded pf i w)
      → (run_backtest pf i w).0 ≡ ok tt
      → (x : Stored (Backtest python))
      → get pf.orm (has_id i) (run_backtest pf i w).1.backtests ≡ ok x
      → Outcome pf l x.row
  reported i w l ended x found =
      let table = (run_backtest pf i w).1.backtests in
      All-selected (λ x. (x.id == i) ≡ true → Outcome pf l x.row) (has_id i) (pf.orm.rows table)
        (get-select pf.orm (has_id i) table x found) (run_backtest-Outcome pf i w l ended)
        (get-ok pf.orm (has_id i) table x found).0

  module _ (i j : ℕ) (w v : World pf) (l : Loaded pf i w) (m : Loaded pf j v)
      (candles : v.candles ≡ w.candles) (strategy : m.strategy.row ≡ l.strategy.row)
      (start_time : m.backtest.row.start_time ≡ l.backtest.row.start_time)
      (end_time : m.backtest.row.end_time ≡ l.backtest.row.end_time)
      (horizon : m.backtest.row.horizon_candles ≡ l.backtest.row.horizon_candles) where
    same_candles : in_range pf m ≡ in_range pf l
    same_candles =
        ap (λ t. range_of pf t m.backtest.row v) strategy
        ∙ same_range l.strategy.row l.backtest.row m.backtest.row w v candles start_time end_time
            horizon

    same_count :
        (config config' : StrategyConfig python) (s s' : Score python.Float)
        → config' ≡ config
        → Counted pf l (in_range pf l) config s
        → Counted pf m (in_range pf m) config' s'
        → s' ≡ s
    same_count config config' s s' same counted counted' =
        counted'.0
        ∙ ap
            (λ t.
              score_of config' (warmup_of pf t m.backtest.row v) (range_of pf t m.backtest.row v)
                (tail_of pf t m.backtest.row v) m.backtest.row.horizon_candles)
            strategy
        ∙ same_score l.strategy.row l.backtest.row m.backtest.row w v candles start_time end_time
            horizon config'
        ∙ ap
            (λ c.
              score_of c (warmup_of pf l.strategy.row l.backtest.row w) (in_range pf l)
                (tail_of pf l.strategy.row l.backtest.row w) l.backtest.row.horizon_candles)
            same
        ∙ sym counted.0

    same_results :
        (x y : Backtest python)
        → Outcome pf l x
        → Outcome pf m y
        → x.status ≡ completed
        → SameResults x y
    same_results x y (empty_period _ ends _) o done = absurd (cc (ends, done))
    same_results x y (no_data _ _ ends _) o done = absurd (cc (ends, done))
    same_results x y (scored p some_c c valid s counted told) (empty_period q _ _) done =
        absurd (omega (arith, p, q, start_time, end_time))
    same_results x y (scored p some_c c valid s counted told) (no_data _ none_c _ _) done =
        absurd (some_c (sym same_candles ∙ none_c))
    same_results x y (scored p some_c c valid s counted told)
          (scored p' some_c' c' valid' s' counted' told') done =
        let same : c' ≡ c =
          some_same
            (sym valid' ∙ ap (λ t. model_validate python pf.pydantic t.config) strategy ∙ valid) in
        Completed-SameResults s x y told
          (subst (λ t. Completed pf t y) (same_count c c' s s' same counted counted') told')

    -- Two backtests, or two runs of one, whose strategies, periods and horizons are the same and
    -- which find the same stored candles: if both runs end without an exception and the first leaves
    -- its row completed, the second leaves its row completed with the same results.
    pub run_backtest-SameResults :
        (run_backtest pf i w).0 ≡ ok tt
        → (run_backtest pf j v).0 ≡ ok tt
        → (x y : Stored (Backtest python))
        → get pf.orm (has_id i) (run_backtest pf i w).1.backtests ≡ ok x
        → get pf.orm (has_id j) (run_backtest pf j v).1.backtests ≡ ok y
        → x.row.status ≡ completed
        → SameResults x.row y.row
    run_backtest-SameResults ended ended' x y found found' done =
        same_results x.row y.row (reported i w l ended x found) (reported j v m ended' y found')
          done
