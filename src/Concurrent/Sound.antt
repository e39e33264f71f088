-- ===== src/Concurrent/Sound.antt =====
-- The invariant under every interleaving of tasks.
use cryptovira.Prelude.{ℕ, ◌≡◌, refl, ap, ◌∙◌, List, [], ◌∷◌, map, take, All}
use cryptovira.Strategy.Tasks.{is_due}
use cryptovira.World.{Platform, World, Message}
use cryptovira.System.Invariant.{Sound}
use cryptovira.Concurrent.{interleave, interleave-labels, WhenDone}
use cryptovira.Concurrent.Safe.{AllSafe, passed, interleave-Safe, AllSafe-WhenDone}
use cryptovira.Concurrent.Growth.{Grows, Grows-refl, Grows-trans}
use cryptovira.Concurrent.Tasks.{
  Task, program, started, ingest, ask_ingest, ask_evaluate, assess, dispatch, backtest, deliver,
  send_again, ask_backtest, save, change, edit,
}
use cryptovira.Concurrent.Programs
use cryptovira.Concurrent.Programs.{Program}
use cryptovira.Concurrent.Done.{Done}
use cryptovira.Concurrent.Done.Lasts.{Done-lasts}
use cryptovira.Concurrent.Assess.{IsSafe, assess-IsSafe}
use cryptovira.Concurrent.Deliver.{dispatch-IsSafe, publish_each-IsSafe}
use cryptovira.Concurrent.Attempt.{deliver-IsSafe}
use cryptovira.Concurrent.Ingest.{ingest-IsSafe, ask-IsSafe}
use cryptovira.Concurrent.Edits.{backtest-IsSafe, save-IsSafe, change-IsSafe, edit-IsSafe}

module _ (pf : Platform) (V : World pf → Type 0) where
  -- Every task is safe, from any state.
  program-IsSafe : (t : Task pf) (w : World pf) → IsSafe pf V (Done pf V t) (program pf t) w
  unfolding program Done Programs.ask_ingest Programs.ask_evaluate Programs.send_again
      Programs.ask_backtest
  program-IsSafe (ingest source now symbol interval) w =
      ingest-IsSafe pf V source now symbol interval w
  program-IsSafe (ask_ingest interval) w =
      ask-IsSafe pf V (λ u. pf.orm.filter (λ s. s.row.is_active) u.currencies)
        (λ s. Message.ingest_candles s.row.symbol interval) w
  program-IsSafe (ask_evaluate interval) w =
      ask-IsSafe pf V (λ u. pf.orm.filter (is_due interval) u.strategies)
        (λ s. Message.evaluate_strategy s.id) w
  program-IsSafe (assess i) w = assess-IsSafe pf V i w
  program-IsSafe (dispatch i) w = dispatch-IsSafe pf V i w
  program-IsSafe (backtest i) w = backtest-IsSafe pf V i w
  program-IsSafe (deliver token post retries i) w = deliver-IsSafe pf V token post retries i w
  program-IsSafe (send_again ids) w = publish_each-IsSafe pf V _ _ w (λ v _ sent. sent)
  program-IsSafe (ask_backtest ids) w = publish_each-IsSafe pf V _ _ w (λ v _ sent. sent)
  program-IsSafe (save clean s) w = save-IsSafe pf V clean s w
  program-IsSafe (change clean i s) w = change-IsSafe pf V clean i s w
  program-IsSafe (edit currencies recipients backtests) w =
      edit-IsSafe pf V currencies recipients backtests w

  started-AllSafe :
      (ts : List (Task pf)) (w : World pf)
      → AllSafe
          (Sound pf)
          (Grows pf)
          V
          (Grows-refl pf)
          (Grows-trans pf)
          (Done pf V)
          (Done-lasts pf V)
          (map (λ t. (t, program pf t)) ts)
          w
  started-AllSafe [] w = tt
  started-AllSafe (t ∷ ts) w = (program-IsSafe t w, started-AllSafe ts w)

module _ (pf : Platform) where
  -- The run passes through that state: it is there after some of the statements.
  unfoldable pub Visited : List (Task pf) → List ℕ → World pf → World pf → Type 0
  Visited ts is w u = (k : ℕ) × (u ≡ (interleave (take k is) (started pf ts w)).state)

  -- Whichever tasks and writes of users run at the same time, and however their statements
  -- interleave, a sound state stays sound: the unique constraints hold, every signal has its
  -- evaluation, which triggered, every delivery has its signal, and every strategy a valid
  -- configuration. No candle, evaluation or signal that was stored is changed or lost, the deliveries
  -- that were there keep their signals and recipients and are not pending again once closed, and no
  -- message is taken back. No task leaves the pool, and each that has ended without an exception
  -- has done its work, whatever the others did meanwhile, where what it read is the content of a state
  -- that the run passed through: the closed candles that the source answered with are stored, or others
  -- for the same bars, for the currency that had the symbol; there is a message for each active currency, each strategy that was
  -- due, and each delivery or backtest that was chosen; the strategy has an audit row at the last of
  -- the candles that it had, and if that triggered a signal that was announced, unless it had no
  -- candles; each active recipient of the signal's owner has a delivery of the signal, and each of
  -- its pending deliveries a message; the delivery is not pending. Of a task that saves a strategy,
  -- changes rows or runs a backtest it is not said what it has done.
  pub interleave-Sound :
      (ts : List (Task pf)) (is : List ℕ) (w : World pf)
      → Sound pf w
      → Sound pf (interleave is (started pf ts w)).state
        × Grows pf w (interleave is (started pf ts w)).state
        × (map (λ (t : Task pf × Program pf). t.0) (interleave is (started pf ts w)).threads ≡ ts)
        × All
            (WhenDone (λ t. Done pf (Visited ts is w) t (interleave is (started pf ts w)).state))
            (interleave is (started pf ts w)).threads
  unfolding Visited
  interleave-Sound ts is w sound =
      let V = Visited ts is w in
      let ((sound', grown), safe) =
        interleave-Safe (Sound pf) (Grows pf) V (Grows-refl pf) (Grows-trans pf) (Done pf V)
          (Done-lasts pf V) is (started pf ts w) sound
          (passed (Sound pf) (Grows pf) V (Grows-refl pf) (Grows-trans pf) (Done pf V)
            (Done-lasts pf V) is (started pf ts w) (λ k. (k, refl)))
          (started-AllSafe pf V ts w) in
      (
        sound',
        grown,
        interleave-labels is (started pf ts w) ∙ labels ts,
        AllSafe-WhenDone (Sound pf) (Grows pf) V (Grows-refl pf) (Grows-trans pf) (Done pf V)
            (Done-lasts pf V) _ _ safe,
      )
    where
      labels :
          (ts : List (Task pf))
          → map (λ (t : Task pf × Program pf). t.0) (map (λ t. (t, program pf t)) ts) ≡ ts
      labels [] = refl
      labels (t ∷ ts) = ap (λ l. t ∷ l) (labels ts)
