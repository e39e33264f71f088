-- ===== src/Concurrent/Edits.antt =====
-- `run_backtest` and the writes of users among other tasks.
use cryptovira.Prelude.{
  ℕ, zero, suc, ◌+◌, refl, List, [], ◌∷◌, length, All-append, Bool-cases, inl, inr, leb,
}
use cryptovira.Exec.{Result, or_raise-eq-ok, modify}
use cryptovira.Orm.{Stored}
use cryptovira.Market.Models.{Currency, same_symbol}
use cryptovira.Strategy.Schema.{StrategyConfig}
use cryptovira.Strategy.Models.{Strategy}
use cryptovira.Strategy.Tasks.{stored}
use cryptovira.Strategy.Tasks.Save.{any-false}
use cryptovira.Signals.Models.{NotificationRecipient, same_channel}
use cryptovira.Backtesting.Models.{Backtest, no_constraint}
use cryptovira.Backtesting.Tasks.{
  Bar, Score, save_backtest, is_reported, report, complete, start, fail_with, no_candles,
}
use cryptovira.World.{Platform, World}
use cryptovira.System.Invariant.{Sound, IsConfigured}
use cryptovira.System.Reachable.{save-IsConfigured}
use cryptovira.Concurrent.{done, ◌>>◌}
use cryptovira.Concurrent.Growth.{Grows-refl}
use cryptovira.Concurrent.Statements.{Keeps, aside_kept}
use cryptovira.Concurrent.Programs.{Program}
use cryptovira.Concurrent.Backtests.{
  judge_each, backtest_series, backtest_range, backtest, save, change, edit,
}
use cryptovira.Concurrent.Assess.{IsSafe}

-- What these have done is not told.
abbrev pub Any : {A : Type 0} → A → Type 0
Any a = Unit {0}

module _ (pf : Platform) (V : World pf → Type 0) where
  -- a write of a backtest
  backtest_kept :
      (i : ℕ) (f : Backtest pf.python → Backtest pf.python) (w : World pf)
      → Sound pf w
      → Keeps pf w (save_backtest pf i f w)
  backtest_kept i f w s = aside_kept pf w _ refl refl refl refl refl s.configured s

  -- a write of a backtest, and then the rest
  written-IsSafe :
      (i : ℕ) (f : Backtest pf.python → Backtest pf.python) (rest : Program pf) (w : World pf)
      → ((v : World pf) → IsSafe pf V Any rest v)
      → IsSafe pf V Any (do modify (save_backtest pf i f); rest) w
  written-IsSafe i f rest w safe = λ u sound g _.
      let (sound', grown) = backtest_kept i f u sound in (sound', grown, λ _ _. safe _)

  module _ (config : StrategyConfig pf.python) (series : List (Bar pf)) (horizon i first n : ℕ)
      (rest : Score pf.python.Float → Program pf)
      (safe : (s : Score pf.python.Float) (w : World pf) → IsSafe pf V Any (rest s) w) where
    report_kept :
        (n' : ℕ) (w : World pf)
        → Sound pf w
        → Keeps pf w (report pf config series horizon i first n n' w)
    report_kept n' w s = elim (Bool-cases (is_reported n n')) [
      | inl e ↦ rw e (backtest_kept i _ w s)
      | inr e ↦ rw e (s, Grows-refl pf w)
    ]

    judge_each-IsSafe :
        (left offset : ℕ) (s : Score pf.python.Float) (w : World pf)
        → IsSafe pf V Any (judge_each pf config series horizon i first n rest left offset s) w
    unfolding judge_each
    judge_each-IsSafe zero offset s w = safe s w
    judge_each-IsSafe (suc left) offset s w = λ u sound g _. (
      sound,
      Grows-refl pf u,
      λ s' _. λ v sound h _.
          let (sound', grown) = report_kept (offset + 1) v sound in
          (sound', grown, λ _ _. judge_each-IsSafe left (offset + 1) s' _),
    )

  backtest_series-IsSafe :
      (b : Stored (Backtest pf.python)) (s : Strategy) (warmup in_range : List (Bar pf))
      (w : World pf)
      → IsSafe pf V Any (backtest_series pf b s warmup in_range) w
  unfolding backtest_series
  backtest_series-IsSafe b s warmup in_range w = λ u sound g _. (
    sound,
    Grows-refl pf u,
    λ tail _. λ v sound h _.
        let (sound', grown) = backtest_kept b.id (start pf) v sound in
        (
          sound',
          grown,
          λ _ _. λ x sound k _. (
            sound,
            Grows-refl pf x,
            λ config _.
                judge_each-IsSafe config _ b.row.horizon_candles b.id (length warmup)
                  (length in_range) _
                  (λ score y. written-IsSafe b.id (complete pf score) (done tt) y (λ z. tt))
                  (length in_range) 0 _ x,
          ),
        ),
  )

  backtest_range-IsSafe :
      (b : Stored (Backtest pf.python)) (s : Stored Strategy) (c : Currency)
      (warmup in_range : List (Bar pf)) (w : World pf)
      → IsSafe pf V Any (backtest_range pf b s c warmup in_range) w
  unfolding backtest_range
  backtest_range-IsSafe b s c warmup [] w =
      written-IsSafe b.id (fail_with pf (no_candles pf c s.row b.row)) (done tt) w (λ z. tt)
  backtest_range-IsSafe b s c warmup (x ∷ in_range) w =
      backtest_series-IsSafe b s.row warmup (x ∷ in_range) w

  pub backtest-IsSafe : (i : ℕ) (w : World pf) → IsSafe pf V Any (backtest pf i) w
  unfolding backtest
  backtest-IsSafe i w = λ u sound g _. (
    sound,
    Grows-refl pf u,
    λ b _. λ v sound h _. (
      sound,
      Grows-refl pf v,
      λ s _. λ x sound k _. (
        sound,
        Grows-refl pf x,
        λ c _. elim (Bool-cases (leb b.row.end_time b.row.start_time)) [
          | inl e ↦ rw e (
              written-IsSafe b.id (fail_with pf "end_time must be after start_time") (done tt) x
                (λ z. tt))
          | inr e ↦ rw e λ y sound l _. (
            sound,
            Grows-refl pf y,
            λ warmup _. λ z sound m _. (
              sound,
              Grows-refl pf z,
              λ in_range _. backtest_range-IsSafe b s c.row warmup in_range z,
            ),
          )
        ],
      ),
    ),
  )

  pub save-IsSafe :
      (clean : Strategy → Result (Unit {0})) (s : Strategy) (w : World pf)
      → IsSafe pf V Any (save pf clean s) w
  unfolding save stored
  save-IsSafe clean s w = λ u sound g _. (
    sound,
    Grows-refl pf u,
    λ _ _. λ v sound h _. (
      sound,
      Grows-refl pf v,
      λ config valid. λ x sound k _.
          let (i, t, made, at) =
            pf.orm.create_free_law s x.strategies (any-false (pf.orm.rows x.strategies)) in
          let (sound', grown) =
            aside_kept pf x (record x { strategies = t }) refl refl refl refl refl
              (rw at (
                All-append (IsConfigured pf) (pf.orm.rows x.strategies)
                  (record { id = i; row = s } ∷ []) sound.configured
                  ((config, or_raise-eq-ok _ _ valid), tt)))
              sound in
          rw (made, stored) (sound', grown, λ _ _. tt),
    ),
  )

  pub change-IsSafe :
      (clean : Strategy → Result (Unit {0})) (i : ℕ) (s : Strategy) (w : World pf)
      → IsSafe pf V Any (change pf clean i s) w
  unfolding change
  change-IsSafe clean i s w = λ u sound g _. (
    sound,
    Grows-refl pf u,
    λ _ _. λ v sound h _. (
      sound,
      Grows-refl pf v,
      λ config valid. λ x sound k _.
          let (sound', grown) =
            aside_kept pf x _ refl refl refl refl refl
              (save-IsConfigured pf x i s config (or_raise-eq-ok _ _ valid) sound.configured)
              sound in
          (sound', grown, λ _ _. tt),
    ),
  )

  pub edit-IsSafe :
      (currencies : World pf → pf.orm.Table Currency same_symbol)
      (recipients : World pf → pf.orm.Table NotificationRecipient same_channel)
      (backtests : World pf → pf.orm.Table (Backtest pf.python) no_constraint) (w : World pf)
      → IsSafe pf V Any (edit pf currencies recipients backtests) w
  unfolding edit
  edit-IsSafe currencies recipients backtests w = λ u sound g _.
      let (sound', grown) = aside_kept pf u _ refl refl refl refl refl sound.configured sound in
      (sound', grown, λ _ _. tt)
