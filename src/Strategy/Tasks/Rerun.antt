-- ===== src/Strategy/Tasks/Rerun.antt =====
-- `evaluate_strategy` a second time at the same candle.
use cryptovira.Prelude.{ℕ, ◌≡◌, sym, ap, ◌∙◌, Bool, List, [], ◌∷◌, ◌++◌, select, select-append}
use cryptovira.Orm.Merge.{IsUnique}
use cryptovira.Strategy.Models.{same_candle}
use cryptovira.Strategy.Tasks.{of_candle, evaluate_strategy}
use cryptovira.Signals.Models.{same_evaluation}
use cryptovira.World.{Platform, World}
use cryptovira.World.Matches.{contents}
use cryptovira.Strategy.Tasks.Evaluate.{Ready, evaluate_strategy-Evaluated}

-- A query with one match that still has one after rows were added has the same.
still_one :
    {A : Type 0} (p : A → Bool) (l m : List A) {n : List A} {x y : A}
    → n ≡ l ++ m
    → select p l ≡ x ∷ []
    → select p n ≡ y ∷ []
    → select p n ≡ select p l
still_one p l m {x = x} {y = y} added h k =
    let e : x ∷ select p m ≡ y ∷ [] =
      ap (λ n. n ++ select p m) (sym h)
      ∙ sym (select-append p l m)
      ∙ ap (select p) (sym added)
      ∙ k in
    cc (e, h, k)

module _ (pf : Platform) where
  -- A second run at the same candle leaves the audit row of the first as the only one of the strategy
  -- at that candle, whatever happened to the other tables between them: other candles and another
  -- configuration, with which it may come to another verdict, are among that. Nothing raises before
  -- the writes of either run, the tables of evaluations and signals keep their constraints before
  -- the first, and are between the runs as the first left them.
  pub evaluate_strategy_again :
      (strategy_id : ℕ) (w v : World pf) (r : Ready pf strategy_id w) (r' : Ready pf strategy_id v)
      → IsUnique same_candle (contents (pf.orm.rows w.evaluations))
      → IsUnique same_evaluation (contents (pf.orm.rows w.signals))
      → let w' = (evaluate_strategy pf strategy_id w).1 in
        v.evaluations ≡ w'.evaluations
        → v.signals ≡ w'.signals
        → r'.strategy.id ≡ r.strategy.id
        → r'.latest.row.open_time ≡ r.latest.row.open_time
        → let here = of_candle r.strategy.id r.latest.row.open_time in
          select here (pf.orm.rows (evaluate_strategy pf strategy_id v).1.evaluations)
          ≡ select here (pf.orm.rows w'.evaluations)
  evaluate_strategy_again strategy_id w v r r' unique signals_unique kept kept' same_strategy
        same_time =
      let w' = (evaluate_strategy pf strategy_id w).1 in
      let one = (evaluate_strategy-Evaluated pf strategy_id w r unique signals_unique).1 in
      let two =
        (evaluate_strategy-Evaluated pf strategy_id v r' (rw kept one.unique)
          (rw kept' one.signals_unique)).1 in
      let only_two : select (of_candle r.strategy.id r.latest.row.open_time)
            (pf.orm.rows (evaluate_strategy pf strategy_id v).1.evaluations)
          ≡ two.evaluation ∷ [] =
        rw (sym same_strategy, sym same_time) two.only in
      still_one (of_candle r.strategy.id r.latest.row.open_time) (pf.orm.rows w'.evaluations)
        two.more (two.kept ∙ ap (λ t. pf.orm.rows t ++ two.more) kept) one.only only_two
