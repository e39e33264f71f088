-- ===== src/System/Judging.antt =====
-- What a run of `evaluate_strategy` may do to the world, however it ends.
use cryptovira.Prelude.{
  ℕ, String, ◌≡◌, refl, sym, Bool, true, ◌&&◌, List, [], ◌∷◌, ◌++◌, append-nil, any, All, All-imply,
  ◌==◌, Bool-cases, inl, inr, item_from_end, arith,
}
use cryptovira.Exec.{ok, continue_lem, validation_error, index_error, or_raise}
use cryptovira.Orm.{Stored}
use cryptovira.Orm.Merge.{IsUnique}
use cryptovira.Market.Models.{Candle}
use cryptovira.Strategy.Schema.{model_validate}
use cryptovira.Strategy.Engine.{evaluate}
use cryptovira.Strategy.Models.{Strategy, StrategyEvaluation, same_candle}
use cryptovira.Strategy.Tasks.{
  of_candle, audit, audit_row, history, closes, write_evaluation, evaluate_candles,
  evaluate_strategy,
}
use cryptovira.Signals.Models.{Signal, same_evaluation}
use cryptovira.Signals.Services.{record_signal}
use cryptovira.Signals.Services.Record.{record_signal-Recorded}
use cryptovira.World.{Platform, World, Message}
use cryptovira.World.Matches.{contents}
use cryptovira.World.Queries.{get, has_id, get-stored, bulk_create-IsUnique, bulk_create-append}

-- the evaluation of a signal, which has triggered
abbrev pub backs : Stored Signal → Stored StrategyEvaluation → Bool
backs s e = e.id == s.row.evaluation && e.row.triggered

module _ (pf : Platform) where
  abbrev pub HasEvaluation : World pf → Stored Signal → Type 0
  HasEvaluation w s = any (backs s) (pf.orm.rows w.evaluations) ≡ true

  -- Evaluations and signals were added and messages published, and nothing else has changed. The
  -- new signals have evaluations that triggered, and both tables keep their constraints.
  pub record Judged (w w' : World pf) : Type 0 where
    pub evaluations : pf.orm.Table StrategyEvaluation same_candle
    pub signals : pf.orm.Table Signal same_evaluation
    pub published : List Message
    pub world :
        w' ≡ record w { evaluations = evaluations; signals = signals; published = published }
    pub more : List (Stored StrategyEvaluation)
    pub kept : pf.orm.rows evaluations ≡ pf.orm.rows w.evaluations ++ more
    pub unique : IsUnique same_candle (contents (pf.orm.rows evaluations))
    pub new : List (Stored Signal)
    pub signals_kept : pf.orm.rows signals ≡ pf.orm.rows w.signals ++ new
    pub signals_unique : IsUnique same_evaluation (contents (pf.orm.rows signals))
    pub new_backed : All (λ s. any (backs s) (pf.orm.rows evaluations) ≡ true) new

  module _ (w : World pf) (u : IsUnique same_candle (contents (pf.orm.rows w.evaluations)))
      (v : IsUnique same_evaluation (contents (pf.orm.rows w.signals))) where
    unjudged : Judged w w
    unjudged = record {
      evaluations = w.evaluations;
      signals = w.signals;
      published = w.published;
      world = refl;
      more = [];
      kept = sym (append-nil _);
      unique = u;
      new = [];
      signals_kept = sym (append-nil _);
      signals_unique = v;
      new_backed = tt;
    }

    module _ (strategy time : ℕ) (verdict : Bool × String) where
      abbrev pub audited : World pf
      audited = record w {
        evaluations = pf.orm.bulk_create (audit_row pf strategy time verdict ∷ []) w.evaluations;
      }

      pub audited-Judged : Judged w audited
      audited-Judged =
          let (more, at, _) =
            bulk_create-append pf.orm (λ r. Unit {0}) (audit_row pf strategy time verdict ∷ [])
              w.evaluations (tt, tt) in
          record {
            evaluations = audited.evaluations;
            signals = w.signals;
            published = w.published;
            world = refl;
            more = more;
            kept = at;
            unique = bulk_create-IsUnique pf.orm _ w.evaluations u;
            new = [];
            signals_kept = sym (append-nil _);
            signals_unique = v;
            new_backed = tt;
          }

      recorded-Judged :
          (e : Stored StrategyEvaluation)
          → get pf.orm (of_candle strategy time) audited.evaluations ≡ ok e
          → e.row.triggered ≡ true
          → Judged w (record_signal pf e audited).1
      unfolding audited-Judged
      recorded-Judged e found fired =
          let r = record_signal-Recorded pf e audited v in
          let j = audited-Judged in
          rw r.returned (record {
            evaluations = audited.evaluations;
            signals = r.signals;
            published = _;
            world = refl;
            more = j.more;
            kept = j.kept;
            unique = j.unique;
            new = r.more;
            signals_kept = r.kept;
            signals_unique = r.unique;
            new_backed =
                All-imply _ _
                  (λ s is.
                    get-stored pf.orm (of_candle strategy time) audited.evaluations e (backs s)
                      found (rw is (ground (arith, fired))))
                  r.more r.new;
          })

      write_evaluation-Judged : Judged w (write_evaluation pf strategy time verdict w).1
      unfolding write_evaluation record_signal
      write_evaluation-Judged =
          continue_lem (λ out. Judged w out.1)
            (get pf.orm (of_candle strategy time) audited.evaluations) audited _
            (λ e _. audited-Judged)
            λ e found. elim (Bool-cases e.row.triggered) [
              | inr idle ↦ rw idle audited-Judged
              | inl fired ↦
                  let r = record_signal-Recorded pf e audited v in
                  let j = recorded-Judged e found fired in
                  rw fired (rw r.returned (rw r.returned at j))
            ]

    evaluate_candles-Judged :
        (s : Stored Strategy) (candles : List (Stored (Candle pf.python)))
        → Judged w (evaluate_candles pf s candles w).1
    unfolding evaluate_candles
    evaluate_candles-Judged s [] = unjudged
    evaluate_candles-Judged s (c ∷ cs) =
        continue_lem (λ out. Judged w out.1)
          (or_raise (model_validate pf.python pf.pydantic s.row.config) (validation_error "config"))
          w _ (λ e _. unjudged)
          λ config _.
            continue_lem (λ out. Judged w out.1)
              (audit (evaluate pf.python pf.talib config (closes pf (c ∷ cs)))) w _
              (λ e _. unjudged)
              λ verdict _.
                continue_lem (λ out. Judged w out.1)
                  (or_raise (item_from_end (c ∷ cs) 1) index_error) w _ (λ e _. unjudged)
                  λ latest _. write_evaluation-Judged s.id latest.row.open_time verdict

    -- A run, whether or not it raises, adds evaluations and signals only, and publishes; a signal
    -- that it adds has a stored evaluation that triggered.
    pub evaluate_strategy-Judged :
        (strategy_id : ℕ) → Judged w (evaluate_strategy pf strategy_id w).1
    unfolding evaluate_strategy
    evaluate_strategy-Judged strategy_id =
        continue_lem (λ out. Judged w out.1) (get pf.orm (has_id strategy_id) w.strategies) w _
          (λ e _. unjudged) λ s _. evaluate_candles-Judged s (history pf s.row w)
