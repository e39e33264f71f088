-- ===== src/Strategy/Tasks/Evaluate.antt =====
-- `evaluate_strategy`: one audit row for a candle, and one signal if it triggered.
use cryptovira.Prelude.{
  ℕ, String, ◌≡◌, refl, sym, ap, ◌∙◌, subst, Bool, true, false, some, List, [], ◌∷◌, ◌++◌, select,
  any, any-map, select-append, select_of_none, All, All-of_map, All-of_select, Bool-cases, inl, inr,
  item_from_end, arith,
}
use cryptovira.Exec.{ok}
use cryptovira.Orm.{Stored}
use cryptovira.Orm.Merge.{IsUnique}
use cryptovira.Market.Models.{Candle}
use cryptovira.Strategy.Schema.{StrategyConfig, model_validate}
use cryptovira.Strategy.Engine.{evaluate}
use cryptovira.Strategy.Models.{Strategy, StrategyEvaluation, same_candle, same_candle_refl}
use cryptovira.Strategy.Tasks.{
  of_candle, audit, audit_row, is_bar_of, history, closes, write_evaluation, evaluate_candles,
  evaluate_strategy,
}
use cryptovira.Strategy.Tasks.History.{history_nil}
use cryptovira.Signals.Models.{Signal, same_evaluation}
use cryptovira.Signals.Services.{of_evaluation, record_signal}
use cryptovira.Signals.Services.Record.{Recorded, record_signal-Recorded}
use cryptovira.World.{Platform, World, Message}
use cryptovira.World.Matches.{contents}
use cryptovira.World.Queries.{
  get, has_id, get_unique, bulk_create-IsUnique, bulk_create-append, bulk_create-present,
}

-- two evaluations of one strategy at one candle clash
of_candle_clash :
    (strategy time : ℕ) (a b : Stored StrategyEvaluation)
    → of_candle strategy time a ≡ true
    → of_candle strategy time b ≡ true
    → same_candle b.row a.row ≡ true
of_candle_clash strategy time a b h k = ground arith

module _ (pf : Platform) where
  -- What an evaluation of a strategy at a candle leaves behind.
  pub record Evaluated (strategy time : ℕ) (verdict : Bool × String) (w w' : World pf)
      : Type 0 where
    pub evaluation : Stored StrategyEvaluation
    -- the audit row is the only one of the strategy at that candle
    pub only : select (of_candle strategy time) (pf.orm.rows w'.evaluations) ≡ evaluation ∷ []
    pub unique : IsUnique same_candle (contents (pf.orm.rows w'.evaluations))
    pub signals_unique : IsUnique same_evaluation (contents (pf.orm.rows w'.signals))
    -- no audit row is lost
    pub more : List (Stored StrategyEvaluation)
    pub kept : pf.orm.rows w'.evaluations ≡ pf.orm.rows w.evaluations ++ more
    -- it states this verdict, if the candle had not been evaluated before
    pub fresh :
        any (of_candle strategy time) (pf.orm.rows w.evaluations) ≡ false
        → evaluation.row ≡ audit_row pf strategy time verdict
    -- its signal is the only one of it, and its dispatch is published
    pub signalled :
        evaluation.row.triggered ≡ true
        → (signal : Stored Signal) × (select (of_evaluation evaluation.id) (pf.orm.rows w'.signals)
            ≡ signal ∷ [])
          × (w'.published ≡ w.published ++ Message.dispatch_notifications signal.id ∷ [])
    pub quiet :
        evaluation.row.triggered ≡ false → (w'.signals ≡ w.signals) × (w'.published ≡ w.published)

  module _ (strategy time : ℕ) (verdict : Bool × String) (w : World pf) where
    abbrev new_row : StrategyEvaluation
    new_row = audit_row pf strategy time verdict

    abbrev evaluations_after : pf.orm.Table StrategyEvaluation same_candle
    evaluations_after = pf.orm.bulk_create (new_row ∷ []) w.evaluations

    abbrev audited : World pf
    audited = record w { evaluations = evaluations_after }

    present : any (of_candle strategy time) (pf.orm.rows evaluations_after) ≡ true
    present =
        sym (any-map (λ s. s.row) (same_candle new_row) (pf.orm.rows evaluations_after))
        ∙ (bulk_create-present pf.orm same_candle_refl (new_row ∷ []) w.evaluations).0

    fresh_row :
        (evaluation : Stored StrategyEvaluation)
        → select (of_candle strategy time) (pf.orm.rows evaluations_after) ≡ evaluation ∷ []
        → any (of_candle strategy time) (pf.orm.rows w.evaluations) ≡ false
        → evaluation.row ≡ new_row
    fresh_row evaluation only none_yet =
        let (more, at, all) =
          bulk_create-append pf.orm (λ r. r ≡ new_row) (new_row ∷ []) w.evaluations (refl, tt) in
        let behind : select (of_candle strategy time) more ≡ evaluation ∷ [] =
          ap (λ l. l ++ select (of_candle strategy time) more)
            (sym (select_of_none (of_candle strategy time) (pf.orm.rows w.evaluations) none_yet))
          ∙ sym (select-append (of_candle strategy time) (pf.orm.rows w.evaluations) more)
          ∙ ap (select (of_candle strategy time)) (sym at)
          ∙ only in
        (subst (All (λ s. s.row ≡ new_row)) behind (
          All-of_select (λ s. s.row ≡ new_row) (of_candle strategy time) more
            (All-of_map (λ s. s.row) (λ r. r ≡ new_row) more all))).0

    module _ (u : IsUnique same_candle (contents (pf.orm.rows w.evaluations)))
        (v : IsUnique same_evaluation (contents (pf.orm.rows w.signals)))
        (e : Stored StrategyEvaluation)
        (only : select (of_candle strategy time) (pf.orm.rows evaluations_after) ≡ e ∷ []) where
      quiet_after : e.row.triggered ≡ false → Evaluated strategy time verdict w audited
      quiet_after idle =
          let (more, at, _) =
            bulk_create-append pf.orm (λ r. r ≡ new_row) (new_row ∷ []) w.evaluations (refl, tt) in
          record {
            evaluation = e;
            only = only;
            unique = bulk_create-IsUnique pf.orm (new_row ∷ []) w.evaluations u;
            signals_unique = v;
            more = more;
            kept = at;
            fresh = fresh_row e only;
            signalled = λ fired. cc (fired, idle);
            quiet = λ _. (refl, refl);
          }

      signalled_after :
          e.row.triggered ≡ true
          → (r : Recorded pf e audited)
          → Evaluated strategy time verdict w (record_signal pf e audited).1
      signalled_after fired r =
          let (more, at, _) =
            bulk_create-append pf.orm (λ r. r ≡ new_row) (new_row ∷ []) w.evaluations (refl, tt) in
          rw r.returned (record {
            evaluation = e;
            only = only;
            unique = bulk_create-IsUnique pf.orm (new_row ∷ []) w.evaluations u;
            signals_unique = r.unique;
            more = more;
            kept = at;
            fresh = fresh_row e only;
            signalled = λ _. (r.signal, r.only, refl);
            quiet = λ idle. absurd (cc (fired, idle));
          })

    -- Where both tables keep their constraints, the writes succeed, whether or not the candle was
    -- evaluated before.
    write_evaluation-Evaluated :
        IsUnique same_candle (contents (pf.orm.rows w.evaluations))
        → IsUnique same_evaluation (contents (pf.orm.rows w.signals))
        → ((write_evaluation pf strategy time verdict w).0 ≡ ok tt)
          × Evaluated strategy time verdict w (write_evaluation pf strategy time verdict w).1
    unfolding write_evaluation
    write_evaluation-Evaluated u v =
        let (e, found, only, _) =
          get_unique pf.orm (of_candle strategy time) (of_candle_clash strategy time)
            evaluations_after (bulk_create-IsUnique pf.orm (new_row ∷ []) w.evaluations u)
            present in
        elim (Bool-cases e.row.triggered) [
          | inr idle ↦ rw (found, idle) (refl, quiet_after u v e only idle)
          | inl fired ↦
              let r = record_signal-Recorded pf e audited v in
              let done = signalled_after u v e only fired r in
              rw (found, fired) (rw r.returned refl, rw r.returned (rw r.returned at done))
        ]

  -- What the reads of a run return when nothing raises before its writes.
  pub record Ready (strategy_id : ℕ) (w : World pf) : Type 0 where
    pub strategy : Stored Strategy
    pub first : Stored (Candle pf.python)
    pub others : List (Stored (Candle pf.python))
    pub latest : Stored (Candle pf.python)
    pub config : StrategyConfig pf.python
    pub verdict : Bool × String
    pub found : get pf.orm (has_id strategy_id) w.strategies ≡ ok strategy
    pub seen : history pf strategy.row w ≡ first ∷ others
    pub is_latest : item_from_end (first ∷ others) 1 ≡ some latest
    pub valid : model_validate pf.python pf.pydantic strategy.row.config ≡ some config
    pub judged :
        audit (evaluate pf.python pf.talib config (closes pf (first ∷ others))) ≡ ok verdict

  -- With a stored strategy, a candle in its history, a valid configuration and an evaluation that
  -- raises nothing but `InsufficientDataError`, a run ends without an exception, and leaves one
  -- audit row for the strategy at its latest candle, with one signal and its dispatch published
  -- if the row says triggered, and no signal and no message more if not. The tables of
  -- evaluations and signals keep their constraints before the run.
  pub evaluate_strategy-Evaluated :
      (strategy_id : ℕ) (w : World pf) (r : Ready strategy_id w)
      → IsUnique same_candle (contents (pf.orm.rows w.evaluations))
      → IsUnique same_evaluation (contents (pf.orm.rows w.signals))
      → ((evaluate_strategy pf strategy_id w).0 ≡ ok tt)
        × Evaluated r.strategy.id r.latest.row.open_time r.verdict w
            (evaluate_strategy pf strategy_id w).1
  unfolding evaluate_strategy evaluate_candles
  evaluate_strategy-Evaluated strategy_id w r u v =
      rw (r.found, r.seen, r.valid, r.judged, r.is_latest)
        (write_evaluation-Evaluated r.strategy.id r.latest.row.open_time r.verdict w u v)

  -- A run for a stored strategy none of whose candles is stored ends at once and changes nothing.
  evaluate_strategy-no_candle :
      (strategy_id : ℕ) (w : World pf) (s : Stored Strategy)
      → get pf.orm (has_id strategy_id) w.strategies ≡ ok s
      → select (is_bar_of pf s.row) (pf.orm.rows w.candles) ≡ []
      → evaluate_strategy pf strategy_id w ≡ (ok tt, w)
  unfolding evaluate_strategy evaluate_candles
  evaluate_strategy-no_candle strategy_id w s found missing =
      rw (found, history_nil pf s.row w missing) refl
