-- ===== src/Admin/Audit.antt =====
-- What no form of the admin site can do.
use cryptovira.Prelude.{
  String, Option, ◌==◌, Each-map, All-imply, All-trivial, true, Bool-cases, ℕ, false, ◌≡◌, refl,
  ◌∙◌, List, [], ◌∷◌, inl, inr,
}
use cryptovira.Exec.{Result, continue_lem, or_raise, validation_error}
use cryptovira.Strategy.Schema.{model_validate}
use cryptovira.Strategy.Models.{Strategy}
use cryptovira.Strategy.Tasks.{save_strategy, change_strategy}
use cryptovira.Strategy.Tasks.Save.{save_strategy_cases, any-false}
use cryptovira.Market.Models.{Currency, same_symbol}
use cryptovira.Signals.Models.{NotificationRecipient, same_channel}
use cryptovira.Backtesting.Models.{Backtest, BacktestStatus, no_constraint}
use cryptovira.World.{Platform, World}
use cryptovira.Orm.{Stored, written}
use cryptovira.Python.{Python}
use cryptovira.System.Growth.{
  Continues, Continues-refl, Continues-trans, Continues-kept, Each-Continues,
}
use cryptovira.System.{Step, Reach, here, later}
use cryptovira.System.Invariant.{Sound}
use cryptovira.System.Reachable.{Reach-Sound}
use cryptovira.Admin.{
  Deed, AdminSite, post_all, deed, page, saved, has_permission, candle_permission,
  evaluation_permission, signal_permission, delivery_permission, add, change, delete, Form,
  write_user, write_currencies, write_candles, write_evaluations, write_signals, write_recipients,
  write_deliveries, add_backtest, change_backtest, BacktestForm, is_accepted, new_backtest,
  authored, add_strategy, alter_strategy,
}

-- the columns in `readonly_fields` of `BacktestAdmin`, but for the time stamps
abbrev pub results :
    {p : Python}
    → Backtest p
    → BacktestStatus × ℕ × String × Option ℕ × Option ℕ × Option ℕ × Option p.Float × Option p.Float
results b = (
  b.status, b.progress, b.error, b.trigger_count, b.scored_trigger_count, b.win_count, b.win_rate,
  b.total_forward_return,
)

module _ {p : Python} where
  -- a backtest and what it is later
  abbrev pub SameResults : Stored (Backtest p) → Stored (Backtest p) → Type 0
  SameResults x y = (y.id ≡ x.id) × (results y.row ≡ results x.row)

  SameResults-refl : (x : Stored (Backtest p)) → SameResults x x
  SameResults-refl x = (refl, refl)

  authored-SameResults :
      (i : ℕ) (f : BacktestForm) (x : Stored (Backtest p))
      → SameResults x (written i (authored f) x)
  authored-SameResults i f x = elim (Bool-cases (x.id == i)) [
    | inl e ↦ rw e (refl, refl)
    | inr e ↦ rw e (refl, refl)
  ]

module _ (pf : Platform) where
  -- the tables and columns that only the tasks write
  pub record AuditKept (w w' : World pf) : Type 0 where
    pub candles : w'.candles ≡ w.candles
    pub evaluations : w'.evaluations ≡ w.evaluations
    pub signals : w'.signals ≡ w.signals
    pub deliveries : w'.deliveries ≡ w.deliveries
    pub backtests : Continues SameResults (pf.orm.rows w.backtests) (pf.orm.rows w'.backtests)

  AuditKept-refl : (w : World pf) → AuditKept w w
  AuditKept-refl w = record {
    candles = refl;
    evaluations = refl;
    signals = refl;
    deliveries = refl;
    backtests = Continues-refl SameResults SameResults-refl _;
  }

  AuditKept-trans : (u v w : World pf) → AuditKept u v → AuditKept v w → AuditKept u w
  AuditKept-trans u v w s t = record {
    candles = t.candles ∙ s.candles;
    evaluations = t.evaluations ∙ s.evaluations;
    signals = t.signals ∙ s.signals;
    deliveries = t.deliveries ∙ s.deliveries;
    backtests =
        Continues-trans SameResults (λ x y z h k. (k.0 ∙ h.0, k.1 ∙ h.1)) _ _ _ s.backtests
          t.backtests;
  }

  -- A write of tables that users may write.
  beside :
      (w w' : World pf)
      → w'.candles ≡ w.candles
      → w'.evaluations ≡ w.evaluations
      → w'.signals ≡ w.signals
      → w'.deliveries ≡ w.deliveries
      → w'.backtests ≡ w.backtests
      → AuditKept w w'
  beside w w' c e s d b = record {
    candles = c;
    evaluations = e;
    signals = s;
    deliveries = d;
    backtests = rw b (Continues-refl SameResults SameResults-refl _);
  }

  saved_kept :
      (clean : Strategy → Result (Unit {0})) (s : Strategy) (w : World pf)
      → AuditKept w (save_strategy pf clean s w).1
  saved_kept clean s w = elim (save_strategy_cases pf clean s w) [
    | inl (e, is, _) ↦ rw is (AuditKept-refl w)
    | inr saved ↦ rw saved.world (beside w _ refl refl refl refl refl)
  ]

  altered_kept :
      (clean : Strategy → Result (Unit {0})) (i : ℕ) (s : Strategy) (w : World pf)
      → AuditKept w (change_strategy pf clean i s w).1
  unfolding change_strategy
  altered_kept clean i s w =
      continue_lem (λ out. AuditKept w out.1) (clean s) w _ (λ e _. AuditKept-refl w)
        λ _ _.
          continue_lem (λ out. AuditKept w out.1)
            (or_raise (model_validate pf.python pf.pydantic s.config) (validation_error "config")) w
            _ (λ e _. AuditKept-refl w) λ config valid. beside w _ refl refl refl refl refl

  module _ (site : AdminSite pf) where
    candle_denied : (d : Deed) → candle_permission d ≡ false
    unfolding candle_permission
    candle_denied add = refl
    candle_denied change = refl
    candle_denied delete = refl

    evaluation_denied : (d : Deed) → evaluation_permission d ≡ false
    unfolding evaluation_permission
    evaluation_denied add = refl
    evaluation_denied change = refl
    evaluation_denied delete = refl

    signal_denied : (d : Deed) → signal_permission d ≡ false
    unfolding signal_permission
    signal_denied add = refl
    signal_denied change = refl
    signal_denied delete = refl

    delivery_denied : (d : Deed) → delivery_permission d ≡ false
    unfolding delivery_permission
    delivery_denied add = refl
    delivery_denied change = refl
    delivery_denied delete = refl

    -- A form keeps those tables, and is a step, if anything.
    abbrev Harmless : World pf → World pf → Type 0
    Harmless w w' = AuditKept w w' × Reach pf w w'

    edited :
        (w : World pf) (currencies : pf.orm.Table Currency same_symbol)
        (recipients : pf.orm.Table NotificationRecipient same_channel)
        → Harmless w (record w { currencies = currencies; recipients = recipients })
    edited w currencies recipients = (
      beside w _ refl refl refl refl refl,
      later here (Step.edit currencies recipients w.backtests w.published),
    )

    backtested :
        (w : World pf) (t : pf.orm.Table (Backtest pf.python) no_constraint)
        → Continues SameResults (pf.orm.rows w.backtests) (pf.orm.rows t)
        → Harmless w (record w { backtests = t })
    backtested w t kept = (
      record {
        candles = refl;
        evaluations = refl;
        signals = refl;
        deliveries = refl;
        backtests = kept;
      },
      later here (Step.edit w.currencies w.recipients t w.published),
    )

    unsaved : (w : World pf) → Harmless w w
    unsaved w = (AuditKept-refl w, here)

    added-Harmless : (b : BacktestForm) (w : World pf) → Harmless w (saved pf (add_backtest b) w)
    added-Harmless b w = elim (Bool-cases (is_accepted b)) [
      | inr e ↦ rw e (unsaved w)
      | inl e ↦
          let (i, t, made, at) =
            pf.orm.create_free_law (new_backtest b) w.backtests
              (any-false (pf.orm.rows w.backtests)) in
          rw (e, made)
            (backtested w t (Continues-kept SameResults SameResults-refl _ _ (_ ∷ []) at))
    ]

    changed-Harmless :
        (i : ℕ) (b : BacktestForm) (w : World pf) → Harmless w (saved pf (change_backtest i b) w)
    changed-Harmless i b w = elim (Bool-cases (is_accepted b)) [
      | inr e ↦ rw e (unsaved w)
      | inl e ↦
          let after = pf.orm.save i (authored b) w.backtests in
          let rows = pf.orm.rows w.backtests in
          rw e (
            backtested w after (
              rw (pf.orm.save_law i (authored b) w.backtests (λ a b. (refl, refl))) (
                Each-Continues SameResults rows _ (
                  Each-map SameResults (written i (authored b)) rows
                    (All-imply _ _ (λ x _. authored-SameResults i b x) rows (All-trivial rows))))))
    ]

    saved-Harmless :
        (f : Form pf) (w : World pf)
        → has_permission site.granted (deed pf f) (page pf f) ≡ true
        → Harmless w (saved pf f w)
    unfolding has_permission
    saved-Harmless (write_user e) w may = unsaved w
    saved-Harmless (write_currencies e t) w may = edited w t w.recipients
    saved-Harmless (write_candles d t) w may = absurd (cc (may, candle_denied d))
    saved-Harmless (write_evaluations d t) w may = absurd (cc (may, evaluation_denied d))
    saved-Harmless (write_signals d t) w may = absurd (cc (may, signal_denied d))
    saved-Harmless (write_recipients e t) w may = edited w w.currencies t
    saved-Harmless (write_deliveries d t) w may = absurd (cc (may, delivery_denied d))
    saved-Harmless (add_backtest b) w may = added-Harmless b w
    saved-Harmless (change_backtest i b) w may = changed-Harmless i b w
    saved-Harmless (add_strategy clean s) w may =
        (saved_kept clean s w, later here (Step.save clean s))
    saved-Harmless (alter_strategy clean i s) w may =
        (altered_kept clean i s w, later here (Step.change clean i s))

    post-Harmless : (f : Form pf) (w : World pf) → Harmless w (site.post f w)
    post-Harmless f w = elim (Bool-cases (has_permission site.granted (deed pf f) (page pf f))) [
      | inl e ↦ rw (site.permitted f w e) (saved-Harmless f w e)
      | inr e ↦ rw (site.denied f w e) (AuditKept-refl w, here)
    ]

    -- Any forms that a user posts to the pages that the program registers on the admin site, deletions
    -- of users, currencies, strategies, recipients and backtests excepted, and whatever Django grants
    -- the user, leave the candles, evaluations, signals and deliveries as they are, every backtest that
    -- was stored in its place with the status, the progress, the error and the results that it had,
    -- and a sound state sound: one that keeps the unique constraints, the references of signals and
    -- deliveries, and the validity of every strategy's configuration.
    pub post_all-Sound :
        (fs : List (Form pf)) (w : World pf)
        → Sound pf w
        → AuditKept w (post_all pf site fs w) × Sound pf (post_all pf site fs w)
    post_all-Sound [] w s = (AuditKept-refl w, s)
    post_all-Sound (f ∷ fs) w s =
        let (kept, step) = post-Harmless f w in
        let sound = (Reach-Sound pf w (site.post f w) step s).0 in
        let (rest, end) = post_all-Sound fs (site.post f w) sound in
        (AuditKept-trans w _ _ kept rest, end)
