-- ===== src/System/NewSignal.antt =====
-- The signal of an evaluation that triggers: it is found with what it refers to, and it is new.
use cryptovira.Prelude.{
  ℕ, ◌≡◌, refl, sym, ◌∙◌, ap, subst, Bool, true, false, some, List, ◌∷◌, ◌++◌, any, any_found,
  any_none, All, All-imply, All-pair, All-of_select, All-select, All-selected, All-get_elem?,
  perm-All, item_from_end, leb, length, ◌==◌, eq_of_==, Bool-cases, inl, inr, arith,
}
use cryptovira.Exec.{ok, ok_same}
use cryptovira.Orm.{Orm, Stored}
use cryptovira.Orm.Sorted.{All-prefix, All-suffix}
use cryptovira.Market.Models.{Candle}
use cryptovira.Strategy.Tasks.{of_candle, is_bar_of, history, evaluate_strategy}
use cryptovira.Strategy.Tasks.History.{history-latest}
use cryptovira.Strategy.Tasks.Evaluate.{Ready, Evaluated, evaluate_strategy-Evaluated}
use cryptovira.Signals.Models.{Signal}
use cryptovira.Signals.Services.{of_evaluation}
use cryptovira.Signals.Tasks.Dispatch.{Owned}
use cryptovira.World.{Platform, World}
use cryptovira.World.Queries.{get, has_id, get-ok}
use cryptovira.World.Keys.{get_self}
use cryptovira.System.Judging.{Judged, evaluate_strategy-Judged, backs}
use cryptovira.System.Invariant.{Sound}
use mathlib.Core.List.Permᴰ

last_All :
    {A : Type 0} (P : A → Type 0) (xs : List A) {x : A}
    → item_from_end xs 1 ≡ some x
    → All P xs
    → P x
last_All P xs h all = elim (Bool-cases (leb 1 (length xs))) [
  | inl e ↦ All-get_elem? P xs _ (rw e at h) all
  | inr e ↦ absurd (cc (rw e at h))
]

-- A primary key finds one row.
same_row :
    (orm : Orm) {Row : Type 0} {clash : Row → Row → Bool} (i j : ℕ) (t : orm.Table Row clash)
    (x y : Stored Row)
    → (i == j) ≡ true
    → get orm (has_id i) t ≡ ok x
    → get orm (has_id j) t ≡ ok y
    → x ≡ y
same_row orm i j t x y e h k = ok_same (sym h ∙ ap (λ n. get orm (has_id n) t) (eq_of_== i j e) ∙ k)

module _ (pf : Platform) (strategy_id : ℕ) (w : World pf) (s : Sound pf w)
    (r : Ready pf strategy_id w) where
  -- The latest candle is a stored one of the strategy.
  pub latest_law :
      (P : Stored (Candle pf.python) → Type 0)
      → All P (pf.orm.rows w.candles)
      → (is_bar_of pf r.strategy.row r.latest ≡ true) × P r.latest
  latest_law P all =
      let (older, perm, _, _) = history-latest pf r.strategy.row w in
      let bar = is_bar_of pf r.strategy.row in
      let rows = pf.orm.rows w.candles in
      let seen : All (λ c. (bar c ≡ true) × P c) (history pf r.strategy.row w) =
        All-suffix _ older _ (
          perm-All _ (Permᴰ.symm perm)
            (All-pair _ _ _ (All-select bar rows) (All-of_select P bar rows all))) in
      last_All (λ c. (bar c ≡ true) × P c) (r.first ∷ r.others) r.is_latest (rw r.seen at seen)

  module _ (fired : r.verdict.0 ≡ true)
      (fresh : any (of_candle r.strategy.id r.latest.row.open_time) (pf.orm.rows w.evaluations)
        ≡ false) where
    abbrev pub judged : World pf
    judged = (evaluate_strategy pf strategy_id w).1

    pub left : Evaluated pf r.strategy.id r.latest.row.open_time r.verdict w judged
    left = (evaluate_strategy-Evaluated pf strategy_id w r s.evaluations_unique s.signals_unique).1

    pub changed : Judged pf w judged
    changed = evaluate_strategy-Judged pf w s.evaluations_unique s.signals_unique strategy_id

    pub triggered : left.evaluation.row.triggered ≡ true
    triggered = rw (left.fresh fresh) fired

    abbrev pub signal : Stored Signal
    signal = (left.signalled triggered).0

    pub evaluation_found :
        get pf.orm (has_id left.evaluation.id) judged.evaluations ≡ ok left.evaluation
    evaluation_found =
        All-selected (λ e. get pf.orm (has_id e.id) judged.evaluations ≡ ok e)
          (of_candle r.strategy.id r.latest.row.open_time) (pf.orm.rows judged.evaluations)
          left.only (get_self pf.orm judged.evaluations)

    pub signal_law :
        (get pf.orm (has_id signal.id) judged.signals ≡ ok signal)
        × (of_evaluation left.evaluation.id signal ≡ true)
    signal_law =
        let rows = pf.orm.rows judged.signals in
        let mine = of_evaluation left.evaluation.id in
        let only = (left.signalled triggered).1 in
        (
          All-selected (λ x. get pf.orm (has_id x.id) judged.signals ≡ ok x) mine rows only
              (get_self pf.orm judged.signals),
          (subst (All (λ x. mine x ≡ true)) only (All-select mine rows)).0,
        )

    pub belongs : signal.row.evaluation ≡ left.evaluation.id
    belongs = sym (eq_of_== _ _ signal_law.1)

    same_strategy : left.evaluation.row.strategy ≡ r.strategy.id
    same_strategy = rw (left.fresh fresh) refl

    pub same_time : left.evaluation.row.candle_open_time ≡ r.latest.row.open_time
    same_time = rw (left.fresh fresh) refl

    pub strategy_stored :
        get pf.orm (has_id left.evaluation.row.strategy) judged.strategies ≡ ok r.strategy
    strategy_stored =
        let here : r.strategy.id ≡ strategy_id =
          eq_of_== _ _ (get-ok pf.orm (has_id strategy_id) w.strategies r.strategy r.found).0 in
        ap (λ k. get pf.orm (has_id k) judged.strategies) (same_strategy ∙ here)
        ∙ ap (λ v. get pf.orm (has_id strategy_id) v.strategies) changed.world
        ∙ r.found

    abbrev pub owned : Owned pf signal.id judged
    owned = record {
      signal = signal;
      evaluation = left.evaluation;
      strategy = r.strategy;
      signal_found = signal_law.0;
      evaluation_found = rw belongs evaluation_found;
      strategy_found = strategy_stored;
    }

    -- No evaluation that was stored before has the new one's key.
    no_old_evaluation : All (λ y. (y.id == left.evaluation.id) ≡ false) (pf.orm.rows w.evaluations)
    no_old_evaluation =
        let here = of_candle r.strategy.id r.latest.row.open_time in
        let found =
          All-prefix (λ y. get pf.orm (has_id y.id) judged.evaluations ≡ ok y) _ left.more
            (subst (All (λ y. get pf.orm (has_id y.id) judged.evaluations ≡ ok y)) left.kept
              (get_self pf.orm judged.evaluations)) in
        let mine : here left.evaluation ≡ true =
          (subst (All (λ x. here x ≡ true)) left.only (All-select here _)).0 in
        All-imply _ _
          (λ y (at, other). elim (Bool-cases (y.id == left.evaluation.id)) [
            | inr e ↦ e
            | inl e ↦
                let same : y ≡ left.evaluation =
                  same_row pf.orm y.id _ judged.evaluations y _ e at evaluation_found in
                absurd (cc (mine, rw same at other))
          ])
          _ (All-pair _ _ _ found (any_none here _ fresh))

    -- So no signal that was stored has the new one's.
    no_old_signal : All (λ x. (x.id == signal.id) ≡ false) (pf.orm.rows w.signals)
    no_old_signal =
        let kept : pf.orm.rows judged.signals ≡ pf.orm.rows w.signals ++ changed.new =
          ap (λ v. pf.orm.rows v.signals) changed.world ∙ changed.signals_kept in
        let found =
          All-prefix (λ x. get pf.orm (has_id x.id) judged.signals ≡ ok x) _ changed.new
            (subst (All (λ x. get pf.orm (has_id x.id) judged.signals ≡ ok x)) kept
              (get_self pf.orm judged.signals)) in
        All-imply _ _
          (λ x (at, backed). elim (Bool-cases (x.id == signal.id)) [
            | inr e ↦ e
            | inl e ↦
                let same : x ≡ signal =
                  same_row pf.orm x.id _ judged.signals x _ e at signal_law.0 in
                let its : x.row.evaluation ≡ left.evaluation.id =
                  ap (λ z. z.row.evaluation) same ∙ belongs in
                let (y, backs_x, other) =
                  any_found _ (backs x) (pf.orm.rows w.evaluations) no_old_evaluation backed in
                absurd (ground (arith, backs_x, other, its))
          ])
          _ (All-pair _ _ _ found s.backed)

    pub none_yet : All (λ d. (d.row.signal == signal.id) ≡ false) (pf.orm.rows judged.deliveries)
    none_yet =
        subst (λ v. All (λ d. (d.row.signal == signal.id) ≡ false) (pf.orm.rows v.deliveries))
          (sym changed.world)
          (All-imply _ _
            (λ d stored.
              let (x, its, other) =
                any_found _ (has_id d.row.signal) (pf.orm.rows w.signals) no_old_signal stored in
              ground (arith, its, other))
            _ s.signalled)
