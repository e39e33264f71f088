-- ===== src/System/Reachable.antt =====
-- The invariant over any number of steps.
use cryptovira.Prelude.{
  ℕ, String, ◌≡◌, refl, List, All-trivial, Each, Each-imply, inl, inr, some, [], ◌∷◌, All,
  All-append, All-map, Bool-cases, ◌==◌,
}
use cryptovira.Exec.{Result, continue_lem, or_raise, or_raise-eq-ok, validation_error}
use cryptovira.Market.Models.{Interval, Candle}
use cryptovira.Market.Binance.{Kline}
use cryptovira.Market.Tasks.{ingest_candles, fan_out_ingest_candles}
use cryptovira.Market.Tasks.Ingest.{ingest_candles_cases, ingest_candles-Answered}
use cryptovira.Strategy.Tasks.{fan_out_evaluate_strategies, change_strategy}
use cryptovira.Strategy.Tasks.Save.{Saved, save_strategy_cases}
use cryptovira.Strategy.Models.{Strategy}
use cryptovira.Strategy.Schema.{StrategyConfig, model_validate}
use cryptovira.Orm.{written}
use cryptovira.Signals.Models.{same_delivery}
use cryptovira.Signals.Tasks.{retry_now}
use cryptovira.Signals.Tasks.Delivery.{Advanced, send_notification-Advanced}
use cryptovira.Backtesting.Tasks.{run_backtest_action}
use cryptovira.Backtesting.Tasks.Run.{run_backtest-Touched}
use cryptovira.World.{Platform, World}
use cryptovira.World.Queries.{bulk_create-IsUnique, bulk_create-append}
use cryptovira.System.{
  Step, ingest, ask_ingest, assess, ask_evaluate, dispatch, attempt_delivery, send_again, backtest,
  ask_backtest, save, change, edit, Reach, here, later,
}
use cryptovira.System.Growth.{
  Each-Continues, Continues-kept, Continues-refl, Each-All, Each-IsUnique,
}
use cryptovira.System.Judging.{evaluate_strategy-Judged}
use cryptovira.System.Sending.{
  HasSignal, Posted, dispatch_notifications-Dispatched, send_notification-Posted,
}
use cryptovira.System.Invariant.{
  Progressed, Progressed-refl, Advanced-Progressed, Sound, IsConfigured, Grown, Grown-refl,
  Grown-trans, Kept, Judged-Kept, Dispatched-Kept,
}

module _ (pf : Platform) where
  -- A change of tables that the invariant does not speak of.
  pub aside :
      (w w' : World pf)
      → w'.candles ≡ w.candles
      → w'.evaluations ≡ w.evaluations
      → w'.signals ≡ w.signals
      → w'.deliveries ≡ w.deliveries
      → All (IsConfigured pf) (pf.orm.rows w'.strategies)
      → Sound pf w
      → Kept pf w w'
  aside w w' c e g d configured s = (
    record {
      candles_unique = rw c s.candles_unique;
      evaluations_unique = rw e s.evaluations_unique;
      signals_unique = rw g s.signals_unique;
      deliveries_unique = rw d s.deliveries_unique;
      backed = rw (e, g) s.backed;
      signalled = rw (g, d) s.signalled;
      configured = configured;
    },
    record {
      candles = rw c (Continues-refl _ (λ x. refl) _);
      evaluations = rw e (Continues-refl _ (λ x. refl) _);
      signals = rw g (Continues-refl _ (λ x. refl) _);
      deliveries = rw d (Continues-refl Progressed Progressed-refl _);
    },
  )

  Posted-Kept :
      (i : ℕ) (w w' : World pf)
      → Sound pf w
      → Posted pf w w'
      → Each (Advanced i) (pf.orm.rows w.deliveries) (pf.orm.rows w'.deliveries)
      → Kept pf w w'
  Posted-Kept i w w' s p steps =
      let advanced : Each (Advanced i) (pf.orm.rows w.deliveries) (pf.orm.rows p.deliveries) =
        rw p.world at steps in
      rw p.world (
        record {
          candles_unique = s.candles_unique;
          evaluations_unique = s.evaluations_unique;
          signals_unique = s.signals_unique;
          deliveries_unique =
              Each-IsUnique same_delivery (Advanced i)
                (λ a b a' b' h k.
                  rw (h.same_signal, h.same_recipient, k.same_signal, k.same_recipient) refl)
                (pf.orm.rows w.deliveries) (pf.orm.rows p.deliveries) advanced s.deliveries_unique;
          backed = s.backed;
          signalled =
              Each-All (Advanced i) (HasSignal pf w) (λ x y a h. rw a.same_signal h)
                (pf.orm.rows w.deliveries) (pf.orm.rows p.deliveries) advanced s.signalled;
          configured = s.configured;
        },
        record {
          candles = Continues-refl _ (λ x. refl) _;
          evaluations = Continues-refl _ (λ x. refl) _;
          signals = Continues-refl _ (λ x. refl) _;
          deliveries =
              Each-Continues Progressed _ _
                (Each-imply (Advanced i) Progressed (Advanced-Progressed i) _ _ advanced);
        },
      )

  pub candles-Kept :
      (new : List (Candle pf.python)) (w : World pf)
      → Sound pf w
      → Kept pf w (record w { candles = pf.orm.bulk_create new w.candles })
  candles-Kept new w s =
      let (more, at, _) =
        bulk_create-append pf.orm (λ b. Unit {0}) new w.candles (All-trivial new) in
      (
        record {
          candles_unique = bulk_create-IsUnique pf.orm new w.candles s.candles_unique;
          evaluations_unique = s.evaluations_unique;
          signals_unique = s.signals_unique;
          deliveries_unique = s.deliveries_unique;
          backed = s.backed;
          signalled = s.signalled;
          configured = s.configured;
        },
        record {
          candles = Continues-kept _ (λ x. refl) _ _ more at;
          evaluations = Continues-refl _ (λ x. refl) _;
          signals = Continues-refl _ (λ x. refl) _;
          deliveries = Continues-refl Progressed Progressed-refl _;
        },
      )

  ingest-Kept :
      (source : String → Interval → Result (List (Kline pf.python))) (now : ℕ)
      (symbol interval : String) (w : World pf)
      → Sound pf w
      → Kept pf w (ingest_candles pf source now symbol interval w).1
  ingest-Kept source now symbol interval w s =
      elim (ingest_candles_cases pf source now symbol interval w) [
        | inl (e, is) ↦ rw is (s, Grown-refl pf w)
        | inr a ↦
            rw (ingest_candles-Answered pf source now symbol interval w a) (candles-Kept a.rows w s)
      ]

  pub save-IsConfigured :
      (w : World pf) (i : ℕ) (s : Strategy) (config : StrategyConfig pf.python)
      → model_validate pf.python pf.pydantic s.config ≡ some config
      → All (IsConfigured pf) (pf.orm.rows w.strategies)
      → All (IsConfigured pf) (pf.orm.rows (pf.orm.save i (λ _. s) w.strategies))
  save-IsConfigured w i s config valid all =
      rw (pf.orm.save_law i (λ _. s) w.strategies (λ a b. (refl, refl))) (
        All-map (written i (λ _. s)) (IsConfigured pf) (IsConfigured pf)
          (λ x h. elim (Bool-cases (x.id == i)) [ inl e ↦ rw e (config, valid) | inr e ↦ rw e h ])
          (pf.orm.rows w.strategies) all)

  Saved-IsConfigured :
      (s : Strategy) (w : World pf) (out : Result (Unit {0}) × World pf) (saved : Saved pf s w out)
      → All (IsConfigured pf) (pf.orm.rows w.strategies)
      → All (IsConfigured pf) (pf.orm.rows out.1.strategies)
  Saved-IsConfigured s w out saved all = rw saved.appended (
      All-append (IsConfigured pf) (pf.orm.rows w.strategies) (saved.strategy ∷ []) all
        ((saved.config, rw saved.same saved.valid), tt))

  Step-Kept : (w w' : World pf) → Step pf w w' → Sound pf w → Kept pf w w'
  unfolding fan_out_ingest_candles fan_out_evaluate_strategies retry_now run_backtest_action
      change_strategy
  Step-Kept w _ (ingest source now symbol interval) s = ingest-Kept source now symbol interval w s
  Step-Kept w _ (ask_ingest interval) s = aside w _ refl refl refl refl s.configured s
  Step-Kept w _ (assess i) s =
      Judged-Kept pf w _ s (evaluate_strategy-Judged pf w s.evaluations_unique s.signals_unique i)
  Step-Kept w _ (ask_evaluate interval) s = aside w _ refl refl refl refl s.configured s
  Step-Kept w _ (dispatch i) s =
      Dispatched-Kept pf w _ s (dispatch_notifications-Dispatched pf w s.deliveries_unique i)
  Step-Kept w _ (attempt_delivery token post retries i) s =
      Posted-Kept i w _ s (send_notification-Posted pf token post retries w i)
        (send_notification-Advanced pf token post retries i w)
  Step-Kept w _ (send_again ids) s = aside w _ refl refl refl refl s.configured s
  Step-Kept w _ (backtest i) s =
      let t = run_backtest-Touched pf i w in
      rw t.world (aside w _ refl refl refl refl s.configured s)
  Step-Kept w _ (ask_backtest ids) s = aside w _ refl refl refl refl s.configured s
  Step-Kept w _ (save clean_fields strategy) s =
      elim (save_strategy_cases pf clean_fields strategy w) [
        | inl (e, is, _) ↦ rw is (s, Grown-refl pf w)
        | inr saved ↦ rw saved.world (
            aside w _ refl refl refl refl
              (rw saved.world at (Saved-IsConfigured strategy w _ saved s.configured)) s)
      ]
  Step-Kept w _ (change clean_fields i strategy) s =
      continue_lem (λ out. Kept pf w out.1) (clean_fields strategy) w _
        (λ e _. (s, Grown-refl pf w))
        λ _ _.
          continue_lem (λ out. Kept pf w out.1)
            (or_raise (model_validate pf.python pf.pydantic strategy.config)
              (validation_error "config"))
            w _ (λ e _. (s, Grown-refl pf w))
            λ config valid.
              aside w _ refl refl refl refl
                (save-IsConfigured w i strategy config (or_raise-eq-ok _ _ valid) s.configured) s
  Step-Kept w _ (edit currencies recipients backtests published) s =
      aside w _ refl refl refl refl s.configured s

  -- Any number of steps, in any order, with any answers of the services and any edits of currencies,
  -- recipients and backtests between them, lead from a sound state to a sound one: the unique constraints hold, every signal has
  -- its evaluation, which triggered, every delivery has its signal, and every strategy a valid
  -- configuration. No candle, evaluation or
  -- signal that was stored is changed or lost, and the deliveries that were there keep their
  -- signals and recipients, lose no attempt, stay as they are once sent, and are not pending again
  -- once closed.
  pub Reach-Sound : (w w' : World pf) → Reach pf w w' → Sound pf w → Sound pf w' × Grown pf w w'
  Reach-Sound w _ here s = (s, Grown-refl pf w)
  Reach-Sound w w' (later {u} r step) s =
      let (sound, grown) = Reach-Sound w u r s in
      let (sound', grown') = Step-Kept u w' step sound in
      (sound', Grown-trans pf w u w' grown grown')
