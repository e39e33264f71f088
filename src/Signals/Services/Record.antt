-- ===== src/Signals/Services/Record.antt =====
-- `record_signal` gives an evaluation one signal, however often it is called.
use cryptovira.Prelude.{
  ℕ, ◌≡◌, refl, sym, true, false, List, [], ◌∷◌, ◌++◌, append-nil, select, any, All, select-append,
  select_of_none, arith, ==_refl, eq_of_==, Bool-cases, inl, inr,
}
use cryptovira.Exec.{ok}
use cryptovira.Orm.{Stored}
use cryptovira.Orm.Merge.{IsUnique}
use cryptovira.Strategy.Models.{StrategyEvaluation}
use cryptovira.Signals.Models.{Signal, same_evaluation}
use cryptovira.Signals.Services.{of_evaluation, record_signal}
use cryptovira.World.{Platform, World, Message, publish}
use cryptovira.World.Matches.{contents}
use cryptovira.World.Queries.{get_unique, append-IsUnique}

-- two signals of one evaluation clash
of_evaluation_clash :
    (i : ℕ) (a b : Stored Signal)
    → of_evaluation i a ≡ true
    → of_evaluation i b ≡ true
    → same_evaluation b.row a.row ≡ true
of_evaluation_clash i a b h k = ground arith

module _ (pf : Platform) where
  -- What a call of `record_signal` did: it returned a signal of the evaluation and published its
  -- dispatch; that signal is the only one of the evaluation; no signal is lost.
  pub record Recorded (evaluation : Stored StrategyEvaluation) (w : World pf) : Type 0 where
    pub signal : Stored Signal
    pub signals : pf.orm.Table Signal same_evaluation
    pub returned : record_signal pf evaluation w ≡ (
      ok signal,
      publish (Message.dispatch_notifications signal.id ∷ []) (record w { signals = signals }),
    )
    pub belongs : signal.row.evaluation ≡ evaluation.id
    pub only : select (of_evaluation evaluation.id) (pf.orm.rows signals) ≡ signal ∷ []
    pub unique : IsUnique same_evaluation (contents (pf.orm.rows signals))
    pub more : List (Stored Signal)
    pub kept : pf.orm.rows signals ≡ pf.orm.rows w.signals ++ more
    pub new : All (λ s. s.row.evaluation ≡ evaluation.id) more

  taken :
      (evaluation : Stored StrategyEvaluation) (w : World pf)
      → IsUnique same_evaluation (contents (pf.orm.rows w.signals))
      → any (of_evaluation evaluation.id) (pf.orm.rows w.signals) ≡ true
      → Recorded evaluation w
  unfolding record_signal
  taken evaluation w u h =
      let (s, found, only, e) =
        get_unique pf.orm (of_evaluation evaluation.id) (of_evaluation_clash evaluation.id)
          w.signals u h in
      record {
        signal = s;
        signals = w.signals;
        returned =
            rw (pf.orm.create_taken_law (record { evaluation = evaluation.id }) w.signals h, found)
              refl;
        belongs = sym (eq_of_== _ _ e);
        only = only;
        unique = u;
        more = [];
        kept = sym (append-nil _);
        new = tt;
      }

  free :
      (evaluation : Stored StrategyEvaluation) (w : World pf)
      → IsUnique same_evaluation (contents (pf.orm.rows w.signals))
      → any (of_evaluation evaluation.id) (pf.orm.rows w.signals) ≡ false
      → Recorded evaluation w
  unfolding record_signal
  free evaluation w u h =
      let r : Signal = record { evaluation = evaluation.id } in
      let (i, t, made, at) = pf.orm.create_free_law r w.signals h in
      record {
        signal = record { id = i; row = r };
        signals = t;
        returned = rw made refl;
        belongs = refl;
        only =
            rw
              (
                at,
                select-append,
                select_of_none (of_evaluation evaluation.id) (pf.orm.rows w.signals) h,
                ==_refl evaluation.id,
              )
              refl;
        unique = rw at (
            append-IsUnique same_evaluation (pf.orm.rows w.signals) (record { id = i; row = r }) u
              h);
        more = record { id = i; row = r } ∷ [];
        kept = at;
        new = (refl, tt);
      }

  -- Where the signals keep their constraint, a call of `record_signal` returns a signal of the
  -- evaluation and publishes its dispatch, whether or not there was one before. That signal is
  -- the only one of the evaluation afterwards, the constraint still holds, and no signal is lost.
  pub record_signal-Recorded :
      (evaluation : Stored StrategyEvaluation) (w : World pf)
      → IsUnique same_evaluation (contents (pf.orm.rows w.signals))
      → Recorded evaluation w
  record_signal-Recorded evaluation w u =
      elim (Bool-cases (any (of_evaluation evaluation.id) (pf.orm.rows w.signals))) [
        | inl h ↦ taken evaluation w u h
        | inr h ↦ free evaluation w u h
      ]
