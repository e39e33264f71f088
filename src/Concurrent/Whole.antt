-- ===== src/Concurrent/Whole.antt =====
-- The tasks as one function each, and one after another.
use cryptovira.Prelude.{ℕ, ◌≡◌, refl, ap, ◌∙◌, List, [], ◌∷◌, map}
use cryptovira.Market.Tasks.{fan_out_ingest_candles}
use cryptovira.Strategy.Tasks.{fan_out_evaluate_strategies}
use cryptovira.Signals.Tasks.{retry_now}
use cryptovira.Backtesting.Tasks.{run_backtest_action}
use cryptovira.World.{Platform, World, Message}
use cryptovira.Concurrent.{run}
use cryptovira.Concurrent.Programs
use cryptovira.Concurrent.Backtests
use cryptovira.Concurrent.Programs.{Program}
use cryptovira.Concurrent.Tasks.{
  Task, program, whole, ingest, ask_ingest, ask_evaluate, assess, dispatch, backtest, deliver,
  send_again, ask_backtest, save, change, edit,
}
use cryptovira.Concurrent.{interleave, HasEnded}
use cryptovira.Concurrent.Serial.{one_by_one, serial}
use cryptovira.Strategy.Tasks.{is_due}
use cryptovira.Prelude.{All}
use cryptovira.Concurrent.Alone.{publish_each-run, assess-Alone}
use cryptovira.Concurrent.Alone.Sending.{dispatch-Alone, deliver-Alone}
use cryptovira.Concurrent.Alone.Writing.{ingest-Alone, backtest-Alone, save-Alone, change-Alone}
use cryptovira.Concurrent.Tasks.{started, in_turn}

module _ (pf : Platform) where
  -- A task whose statements run with nothing between them does what the task does as one function.
  program-run : (t : Task pf) (w : World pf) → run (program pf t) w ≡ whole pf t w
  unfolding program whole run Programs.ask_ingest Programs.ask_evaluate Programs.send_again
      Programs.ask_backtest fan_out_ingest_candles fan_out_evaluate_strategies retry_now
      run_backtest_action Backtests.edit
  program-run (ingest source now symbol interval) w =
      (ingest-Alone pf source now symbol interval).at w
  program-run (ask_ingest interval) w =
      publish_each-run pf
        (map (λ s. Message.ingest_candles s.row.symbol interval)
          (pf.orm.filter (λ s. s.row.is_active) w.currencies))
        w
  program-run (ask_evaluate interval) w =
      publish_each-run pf
        (map (λ s. Message.evaluate_strategy s.id) (pf.orm.filter (is_due interval) w.strategies)) w
  program-run (assess i) w = (assess-Alone pf i).at w
  program-run (dispatch i) w = (dispatch-Alone pf i).at w
  program-run (backtest i) w = (backtest-Alone pf i).at w
  program-run (deliver token post retries i) w = (deliver-Alone pf token post retries i).at w
  program-run (send_again ids) w =
      publish_each-run pf (map (λ i. Message.send_notification i 0 0) ids) w
  program-run (ask_backtest ids) w = publish_each-run pf (map (λ i. Message.run_backtest i) ids) w
  program-run (save clean s) w = (save-Alone pf clean s).at w
  program-run (change clean i s) w = (change-Alone pf clean i s).at w
  program-run (edit currencies recipients backtests) w = refl

  one_by_one-eq-in_turn :
      (ts : List (Task pf)) (w : World pf)
      → one_by_one (map (λ t. (t, program pf t)) ts) w ≡ in_turn pf ts w
  unfolding one_by_one in_turn
  one_by_one-eq-in_turn [] w = refl
  one_by_one-eq-in_turn (t ∷ ts) w =
      ap (λ out. one_by_one (map (λ t. (t, program pf t)) ts) out.1) (program-run t w)
      ∙ one_by_one-eq-in_turn ts (whole pf t w).1

  -- For any tasks and writes of users, and any state, some interleaving of their statements ends
  -- them all, and leaves the state that the tasks leave one after another, each as one function.
  started-serial :
      (ts : List (Task pf)) (w : World pf)
      → (is : List ℕ) × ((interleave is (started pf ts w)).state ≡ in_turn pf ts w)
        × All HasEnded (interleave is (started pf ts w)).threads
  started-serial ts w =
      let (is, left, ended) = serial (map (λ t. (t, program pf t)) ts) w in
      (is, left ∙ one_by_one-eq-in_turn ts w, ended)
