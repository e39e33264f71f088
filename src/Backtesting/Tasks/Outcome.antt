-- ===== src/Backtesting/Tasks/Outcome.antt =====
-- What a run of `run_backtest` that ends without an exception reports.
use cryptovira.Prelude.{
  ℕ, ◌+◌, ◌≤◌, ◌<◌, ◌≡◌, ◌≢◌, refl, sym, subst, true, List, [], ◌∷◌, ◌++◌, length, All, leb, ◌==◌,
  eq_of_==, Bool-cases, ◌⊎◌, inl, inr, none, some, arith,
}
use cryptovira.Exec.{
  Result, ok, err, continue, modify, continue_lem, validation_error, or_raise, or_raise-eq-ok,
}
use cryptovira.Orm.{Stored}
use cryptovira.Market.Models.{Currency}
use cryptovira.Strategy.Schema.{StrategyConfig, model_validate}
use cryptovira.Strategy.Models.{Strategy}
use cryptovira.Backtesting.Models.{Backtest, completed, failed}
use cryptovira.Backtesting.Tasks.{
  Score, Bar, save_backtest, start, complete, no_candles, no_score, run_series, run_range,
  run_backtest, range_of, tail_of, warmup_of,
}
use cryptovira.Backtesting.Tasks.Counts.{Consistent, loop-Consistent}
use cryptovira.Backtesting.Tasks.Totals.{added, hits, loop-added}
use cryptovira.World.{Platform, World}
use cryptovira.World.Queries.{get, has_id, get-ok, saved-All}

module _ (pf : Platform) where
  open pf use {python}

  -- The row and what it refers to are stored.
  pub record Loaded (i : ℕ) (w : World pf) : Type 0 where
    pub backtest : Stored (Backtest python)
    pub strategy : Stored Strategy
    pub currency : Stored Currency
    pub backtest_found : get pf.orm (has_id i) w.backtests ≡ ok backtest
    pub strategy_found : get pf.orm (has_id backtest.row.strategy) w.strategies ≡ ok strategy
    pub currency_found : get pf.orm (has_id strategy.row.currency) w.currencies ≡ ok currency

  -- The candles of the period.
  abbrev pub in_range : {i : ℕ} {w : World pf} → Loaded i w → List (Bar pf)
  in_range {w = w} l = range_of pf l.strategy.row l.backtest.row w

  -- The counters, by an independent description: the triggers on those candles, each judged on what
  -- the candles before the period and those after it make of the series.
  abbrev pub Counted :
      {i : ℕ} {w : World pf}
      → Loaded i w
      → List (Bar pf)
      → StrategyConfig python
      → Score python.Float
      → Type 0
  Counted {w = w} l candles config s =
      let warmup = warmup_of pf l.strategy.row l.backtest.row w in
      let series = warmup ++ candles ++ tail_of pf l.strategy.row l.backtest.row w in
      let horizon = l.backtest.row.horizon_candles in
      (s
        ≡ added pf config series horizon
            (hits pf config series horizon (length warmup) (length candles)) (no_score pf))
      × Consistent pf (length candles) s

  -- A completed row: its counters, and rates exactly if a trigger was scored.
  pub record Completed (s : Score python.Float) (x : Backtest python) : Type 0 where
    pub is_completed : x.status ≡ completed
    pub done : x.progress ≡ 100
    pub triggers_told : x.trigger_count ≡ some s.trigger_count
    pub scored_told : x.scored_trigger_count ≡ some s.scored_trigger_count
    pub wins_told : x.win_count ≡ some s.win_count
    pub rates :
        (s.scored_trigger_count ≡ 0) × (x.win_rate ≡ none) × (x.total_forward_return ≡ none)
        ⊎ (1 ≤ s.scored_trigger_count)
          × (x.win_rate
              ≡ some (python.times_100 (python.int_div s.win_count s.scored_trigger_count)))
          × (x.total_forward_return ≡ some s.total_forward_return)

  complete-Completed :
      (s : Score python.Float) (y : Backtest python) → Completed s (complete pf s y)
  complete-Completed s y = record {
    is_completed = refl;
    done = refl;
    triggers_told = refl;
    scored_told = refl;
    wins_told = refl;
    rates = elim (Bool-cases (s.scored_trigger_count == 0)) [
      | inl e ↦ inl (eq_of_== s.scored_trigger_count 0 e, rw e refl, rw e refl)
      | inr e ↦ inr (ground arith, rw e refl, rw e refl)
    ];
  }

  -- What the row says then: that the period is empty, that no candle of it is stored, or how the
  -- triggers on those candles scored.
  pub data Outcome {i : ℕ} {w : World pf} (l : Loaded i w) (x : Backtest python) : Type 0 where
    empty_period :
        l.backtest.row.end_time ≤ l.backtest.row.start_time
        → x.status ≡ failed
        → x.error ≡ "end_time must be after start_time"
        → Outcome l x
    no_data :
        l.backtest.row.start_time < l.backtest.row.end_time
        → in_range l ≡ []
        → x.status ≡ failed
        → x.error ≡ no_candles pf l.currency.row l.strategy.row l.backtest.row
        → Outcome l x
    scored :
        l.backtest.row.start_time < l.backtest.row.end_time
        → in_range l ≢ []
        → (config : StrategyConfig python)
        → model_validate python pf.pydantic l.strategy.row.config ≡ some config
        → (s : Score python.Float) → Counted l (in_range l) config s
        → Completed s x
        → Outcome l x

  abbrev pub Reports : (i : ℕ) → (Backtest python → Type 0) → Result (Unit {0}) × World pf → Type 0
  Reports i Q out =
      out.0 ≡ ok tt → All (λ x. (x.id == i) ≡ true → Q x.row) (pf.orm.rows out.1.backtests)

  saved-Reports :
      (i : ℕ) (Q : Backtest python → Type 0) (f : Backtest python → Backtest python) (w : World pf)
      → ((y : Backtest python) → Q (f y))
      → Reports i Q (ok tt, save_backtest pf i f w)
  saved-Reports i Q f w wrote _ = saved-All pf.orm i f Q w.backtests (λ a b. (refl, refl)) wrote

  finished-Reports :
      (i : ℕ) (C : Score python.Float → Type 0) (Q : Backtest python → Type 0)
      (out : Result (Score python.Float) × World pf)
      → ((s : Score python.Float) → C s → (y : Backtest python) → Q (complete pf s y))
      → ((s : Score python.Float) → out.0 ≡ ok s → C s)
      → Reports i Q (continue out (λ s. modify (save_backtest pf i (complete pf s))))
  finished-Reports i C Q (ok s, w) wrote counts k =
      saved-Reports i Q (complete pf s) w (wrote s (counts s refl)) k
  finished-Reports i C Q (err e, w) wrote counts k = absurd (cc k)

  run_series-Reports :
      {i : ℕ} {w : World pf} (l : Loaded i w) (candles : List (Bar pf))
      (Q : Backtest python → Type 0)
      → ((config : StrategyConfig python)
          → model_validate python pf.pydantic l.strategy.row.config ≡ some config
          → (t : Score python.Float) → Counted l candles config t
          → (y : Backtest python) → Q (complete pf t y))
      → Reports l.backtest.id Q (
          run_series pf l.backtest l.strategy.row
            (warmup_of pf l.strategy.row l.backtest.row w)
            candles
            w)
  unfolding run_series
  run_series-Reports {w = w} l candles Q wrote =
      let b = l.backtest in
      let s = l.strategy.row in
      let warmup = warmup_of pf s b.row w in
      let series = warmup ++ candles ++ tail_of pf s b.row w in
      let begun = save_backtest pf b.id (start pf) w in
      let n = length candles in
      let from = length warmup in
      continue_lem (Reports b.id Q)
        (or_raise (model_validate python pf.pydantic s.config) (validation_error "config")) begun _
        (λ e _ k. absurd (cc k))
        (λ config valid.
          finished-Reports b.id (Counted l candles config) Q _
            (wrote config (or_raise-eq-ok _ _ valid))
            (λ t done. (
              rw⁻¹ (from_zero from) (
                  loop-added pf config series b.row.horizon_candles b.id from n n 0 (no_score pf)
                    begun t done),
              from_none n t (
                  loop-Consistent pf config series b.row.horizon_candles b.id from n n 0
                    (no_score pf) begun t (omega arith, omega arith, omega arith) done),
            )))
    where
      from_zero : (n : ℕ) → n + 0 ≡ n
      from_zero n = omega arith

      from_none : (n : ℕ) (t : Score python.Float) → Consistent pf (0 + n) t → Consistent pf n t
      from_none n t h = (h.0, h.1, omega (arith, h.2))

  run_range-Reports :
      {i : ℕ} {w : World pf} (l : Loaded i w) (candles : List (Bar pf))
      → l.backtest.row.start_time < l.backtest.row.end_time
      → in_range l ≡ candles
      → Reports l.backtest.id (Outcome l) (
          run_range pf l.backtest l.strategy l.currency.row
            (warmup_of pf l.strategy.row l.backtest.row w)
            candles
            w)
  unfolding run_range
  run_range-Reports {w = w} l [] period none_stored =
      saved-Reports l.backtest.id (Outcome l) _ w (λ y. no_data period none_stored refl refl)
  run_range-Reports {w = w} l (x ∷ candles) period stored =
      run_series-Reports l (x ∷ candles) (Outcome l) (λ config valid t counted y.
        scored period (λ e. cc (e, stored)) config valid t
          (subst (λ k. Counted l k config t) (sym stored) counted) (complete-Completed t y))

  -- Where a backtest, its strategy and its currency are stored, a run that ends without an exception
  -- leaves its row completed or failed, never pending or running: failed with the reason, or
  -- completed with progress 100 and counters of the candles of the period at which the valid
  -- configuration triggers, of those with a forward return, and of those that gain, with the sum of
  -- the returns; the rates are empty if nothing was scored, and computed from the counters
  -- otherwise.
  pub run_backtest-Outcome :
      (i : ℕ) (w : World pf) (l : Loaded i w)
      → (run_backtest pf i w).0 ≡ ok tt
      → All
          (λ x. (x.id == i) ≡ true → Outcome l x.row)
          (pf.orm.rows (run_backtest pf i w).1.backtests)
  unfolding run_backtest
  run_backtest-Outcome i w l =
      let here : l.backtest.id ≡ i =
        eq_of_== l.backtest.id i
          (get-ok pf.orm (has_id i) w.backtests l.backtest l.backtest_found).0 in
      subst (λ k. Reports k (Outcome l) (run_backtest pf i w)) here
        (rw (l.backtest_found, l.strategy_found, l.currency_found)
          (elim (Bool-cases (leb l.backtest.row.end_time l.backtest.row.start_time)) [
            | inl e ↦ rw e (
                saved-Reports l.backtest.id (Outcome l) _ w
                  (λ y. empty_period (ground arith) refl refl))
            | inr e ↦ rw e (run_range-Reports l _ (ground arith) refl)
          ]))
