-- ===== src/Backtesting/Tasks/Run.antt =====
-- A whole run of `run_backtest`: what it may write, and what it reports.
use cryptovira.Prelude.{
  ℕ, zero, suc, ◌+◌, ◌≡◌, refl, sym, ap, ◌∙◌, subst, List, [], ◌∷◌, ◌++◌, map, length, leb, ◌==◌,
  eq_of_==, Bool-cases, inl, inr,
}
use cryptovira.Python.{Python}
use cryptovira.Exec.{Result, ok, err, continue, modify, continue_lem, validation_error, or_raise}
use cryptovira.Orm.{Stored, written}
use cryptovira.Market.Models.{Currency}
use cryptovira.Strategy.Schema.{StrategyConfig, model_validate}
use cryptovira.Strategy.Models.{Strategy}
use cryptovira.Backtesting.Models.{Backtest, no_constraint}
use cryptovira.Backtesting.Tasks.{
  Score, Bar, Score, save_backtest, fail_with, start, with_progress, complete, no_candles, no_score,
  is_reported, percent, judge_candle, loop, run_series, run_range, run_backtest, warmup_of,
  range_of, tail_of,
}
use cryptovira.World.{Platform, World}
use cryptovira.World.Queries.{get, has_id, get-ok}

module _ {Row : Type 0} (i : ℕ) where
  written_id : (l : List (Stored Row)) → map (written i (λ x. x)) l ≡ l
  written_id [] = refl
  written_id (x ∷ l) = elim (Bool-cases (x.id == i)) [
    | inl e ↦ rw e (ap (λ m. x ∷ m) (written_id l))
    | inr e ↦ rw e (ap (λ m. x ∷ m) (written_id l))
  ]

  written_twice :
      (f g : Row → Row) (x : Stored Row) → written i g (written i f x) ≡ written i (λ y. g (f y)) x
  written_twice f g x = elim (Bool-cases (x.id == i)) [
    | inl e ↦ rw (e, e) refl
    | inr e ↦ rw (e, e) refl
  ]

  map-written :
      (f g : Row → Row) (l : List (Stored Row))
      → map (written i g) (map (written i f) l) ≡ map (written i (λ y. g (f y))) l
  map-written f g [] = refl
  map-written f g (x ∷ l) = rw (written_twice f g x, map-written f g l) refl

-- The configuration of a backtest.
abbrev config_of : {p : Python} → Backtest p → ℕ × ℕ × ℕ × ℕ
config_of b = (b.strategy, b.start_time, b.end_time, b.horizon_candles)

module _ (pf : Platform) where
  open pf use {python}

  abbrev with_table : pf.orm.Table (Backtest python) no_constraint → World pf → World pf
  with_table t w = record w { backtests = t }

  -- Nothing of the world changed but the row of one backtest, and of that only the columns of its
  -- results.
  pub record Touched (i : ℕ) (w w' : World pf) : Type 0 where
    pub change : Backtest python → Backtest python
    pub config_kept : (b : Backtest python) → config_of (change b) ≡ config_of b
    pub table : pf.orm.Table (Backtest python) no_constraint
    pub world : w' ≡ with_table table w
    pub changed : pf.orm.rows table ≡ map (written i change) (pf.orm.rows w.backtests)

  Touched-refl : (i : ℕ) (w : World pf) → Touched i w w
  Touched-refl i w = record {
    change = λ b. b;
    config_kept = λ b. refl;
    table = w.backtests;
    world = refl;
    changed = sym (written_id i (pf.orm.rows w.backtests));
  }

  Touched-trans : (i : ℕ) (u v w : World pf) → Touched i u v → Touched i v w → Touched i u w
  Touched-trans i u v w s t = record {
    change = λ b. t.change (s.change b);
    config_kept = λ b. t.config_kept (s.change b) ∙ s.config_kept b;
    table = t.table;
    world = t.world ∙ ap (with_table t.table) s.world;
    changed =
        t.changed
        ∙ ap (λ x. map (written i t.change) (pf.orm.rows x.backtests)) s.world
        ∙ ap (map (written i t.change)) s.changed
        ∙ map-written i s.change t.change (pf.orm.rows u.backtests);
  }

  Touched-save :
      (i : ℕ) (f : Backtest python → Backtest python) (w : World pf)
      → ((b : Backtest python) → config_of (f b) ≡ config_of b)
      → Touched i w (save_backtest pf i f w)
  Touched-save i f w kept = record {
    change = f;
    config_kept = kept;
    table = pf.orm.save i f w.backtests;
    world = refl;
    changed = pf.orm.save_law i f w.backtests (λ a b. (refl, refl));
  }

  module _ (config : StrategyConfig python) (series : List (Bar pf)) (horizon i first n : ℕ) where
    loop-Touched :
        (left offset : ℕ) (s : Score python.Float) (w : World pf)
        → Touched i w (loop pf config series horizon i first n left offset s w).1
    unfolding loop
    loop-Touched zero offset s w = Touched-refl i w
    loop-Touched (suc left) offset s w =
        continue_lem (λ out. Touched i w out.1)
          (judge_candle pf config series horizon (first + offset) s) w _ (λ e _. Touched-refl i w)
          (λ s' _. elim (Bool-cases (is_reported n (offset + 1))) [
            | inl e ↦ rw e (
                Touched-trans i w _ _
                  (Touched-save i (with_progress pf (percent n (offset + 1))) w (λ b. refl))
                  (loop-Touched left (offset + 1) s' _))
            | inr e ↦ rw e (loop-Touched left (offset + 1) s' w)
          ])

  run_series-Touched :
      (b : Stored (Backtest python)) (s : Strategy) (warmup in_range : List (Bar pf)) (w : World pf)
      → Touched b.id w (run_series pf b s warmup in_range w).1
  unfolding run_series
  run_series-Touched b s warmup in_range w =
      let begun = save_backtest pf b.id (start pf) w in
      let first = Touched-save b.id (start pf) w (λ x. refl) in
      continue_lem (λ out. Touched b.id w out.1)
        (or_raise (model_validate python pf.pydantic s.config) (validation_error "config")) begun _
        (λ e _. first)
        (λ config _.
          let looped =
            loop-Touched config (warmup ++ in_range ++ tail_of pf s b.row w) b.row.horizon_candles
              b.id (length warmup) (length in_range) (length in_range) 0 (no_score pf) begun in
          ended_by b.id w begun first _ looped)
    where
      ended_by :
          (i : ℕ) (w begun : World pf)
          → Touched i w begun
          → (out : Result (Score python.Float) × World pf) → Touched i begun out.1
          → Touched i w (continue out (λ s. modify (save_backtest pf i (complete pf s)))).1
      ended_by i w begun first (ok s, w') looped =
          Touched-trans i w begun _ first
            (Touched-trans i begun w' _ looped (Touched-save i (complete pf s) w' (λ x. refl)))
      ended_by i w begun first (err e, w') looped = Touched-trans i w begun w' first looped

  run_range-Touched :
      (b : Stored (Backtest python)) (s : Stored Strategy) (c : Currency)
      (warmup in_range : List (Bar pf)) (w : World pf)
      → Touched b.id w (run_range pf b s c warmup in_range w).1
  unfolding run_range
  run_range-Touched b s c warmup [] w =
      Touched-save b.id (fail_with pf (no_candles pf c s.row b.row)) w (λ x. refl)
  run_range-Touched b s c warmup (x ∷ in_range) w =
      run_series-Touched b s.row warmup (x ∷ in_range) w

  -- A run of `run_backtest`, whatever it does and wherever it raises, changes no table but that
  -- of the backtests and publishes nothing, and of the backtests it changes the row with that
  -- primary key only, whose strategy, period and horizon it keeps.
  pub run_backtest-Touched : (i : ℕ) (w : World pf) → Touched i w (run_backtest pf i w).1
  unfolding run_backtest
  run_backtest-Touched i w =
      continue_lem (λ out. Touched i w out.1) (get pf.orm (has_id i) w.backtests) w _
        (λ e _. Touched-refl i w)
        λ b found.
          continue_lem (λ out. Touched i w out.1) (get pf.orm (has_id b.row.strategy) w.strategies)
            w _ (λ e _. Touched-refl i w)
            λ s _.
              continue_lem (λ out. Touched i w out.1)
                (get pf.orm (has_id s.row.currency) w.currencies) w _ (λ e _. Touched-refl i w)
                λ c _.
                  let here : b.id ≡ i =
                    eq_of_== b.id i (get-ok pf.orm (has_id i) w.backtests b found).0 in
                  elim (Bool-cases (leb b.row.end_time b.row.start_time)) [
                    | inl e ↦ rw e (
                        subst
                          (λ k. Touched k w (
                            save_backtest pf b.id (fail_with pf "end_time must be after start_time")
                              w))
                          here
                          (Touched-save b.id (fail_with pf "end_time must be after start_time") w
                            (λ x. refl)))
                    | inr e ↦ rw e (
                        subst
                          (λ k.
                            Touched k w
                              (run_range pf b s c.row (warmup_of pf s.row b.row w)
                                (range_of pf s.row b.row w) w).1)
                          here (run_range-Touched b s c.row _ _ w))
                  ]
