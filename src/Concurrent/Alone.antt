-- ===== src/Concurrent/Alone.antt =====
-- A program that runs alone does what the task does.
pub mod Sending
pub mod Writing
use cryptovira.Prelude.{
  ℕ, zero, suc, ◌+◌, String, ◌≡◌, refl, sym, ap, ◌∙◌, Bool, true, false, Option, none, some, List,
  [], ◌∷◌, ◌++◌, append-nil, append_assoc, length, map, leb, Bool-cases, inl, inr, if◌then◌else◌,
}
use cryptovira.Exec.{
  Exec, Result, ok, err, and_then, continue, modify, Error, channel_delivery_error, or_raise,
  validation_error, value_error,
}
use cryptovira.Orm.{Stored}
use cryptovira.Market.Models.{Interval, Currency}
use cryptovira.Market.Binance.{Kline}
use cryptovira.Market.Tasks.{ingest_candles, fan_out_ingest_candles}
use cryptovira.Strategy.Schema.{StrategyConfig, model_validate}
use cryptovira.Strategy.Models.{Strategy, StrategyEvaluation}
use cryptovira.Strategy.Tasks.{
  evaluate_strategy, evaluate_candles, write_evaluation, fan_out_evaluate_strategies, save_strategy,
  change_strategy, stored,
}
use cryptovira.Signals.Models.{same_evaluation, Signal, NotificationDelivery, is_sent, channel_of}
use cryptovira.Signals.Channels.{Post}
use cryptovira.Signals.Services.{
  record_signal, create_or_get, created, of_evaluation, build_message_context,
}
use cryptovira.Signals.Tasks.{
  is_recipient, is_queued, deliveries_for, dispatch_notifications, fan_out_deliveries,
  send_notification, attempt, settle, max_retries, retry_now,
}
use cryptovira.Backtesting.Models.{Backtest}
use cryptovira.Backtesting.Tasks.{
  Bar, Score, run_backtest, run_range, run_series, loop, judge_candle, report, run_backtest_action,
  complete, save_backtest,
}
use cryptovira.World.{Platform, World, Message, publish}
use cryptovira.World.Queries.{get, has_id}
use cryptovira.Concurrent.{Code, stop, ask, run}
use cryptovira.Concurrent.Programs
use cryptovira.Concurrent.Backtests
use cryptovira.Concurrent.Programs.{Program}
use cryptovira.Concurrent.Tasks.{
  Task, program, whole, ingest, ask_ingest, ask_evaluate, assess, dispatch, backtest, deliver,
  send_again, ask_backtest, save, change, edit,
}

module _ (pf : Platform) where
  pub publish_each-run :
      (ms : List Message) (w : World pf)
      → run (Programs.publish_each pf ms) w ≡ (ok tt, publish ms w)
  unfolding run Programs.publish_each
  publish_each-run [] w =
      ap (λ l. (ok tt, record w { published = l })) (sym (append-nil w.published))
  publish_each-run (m ∷ ms) w =
      publish_each-run ms (publish (m ∷ []) w)
      ∙ ap (λ l. (ok tt, record w { published = l })) (append_assoc w.published (m ∷ []) ms)

  record_new-run :
      (e : Stored StrategyEvaluation) (w : World pf)
      → run (Programs.record_new pf e.id) w ≡ continue (record_signal pf e w) (λ _ v. (ok tt, v))
  unfolding run Programs.record_new Programs.try_create Programs.after_create Programs.announce
      record_signal create_or_get created
  record_new-run e w = of_create (pf.orm.create (record { evaluation = e.id }) w.signals)
    where
      of_get :
          (r : Result (Stored Signal))
          → continue
              (r, w)
              (λ signal v. (ok tt, publish (Message.dispatch_notifications signal.id ∷ []) v))
            ≡ continue
                (continue
                  (r, w)
                  (λ signal v.
                    (ok signal, publish (Message.dispatch_notifications signal.id ∷ []) v)))
                (λ _ v. (ok tt, v))
      of_get (ok signal) = refl
      of_get (err x) = refl

      of_create :
          (o : Option (Stored Signal × pf.orm.Table Signal same_evaluation))
          → continue
              (elim o [
                | none ↦ (ok none, w)
                | some (signal, signals) ↦ (ok (some signal), record w { signals = signals })
              ])
              (λ c. run (Programs.after_create pf e.id c))
            ≡ continue
                (continue (created pf e.id o w) (λ signal v.
                  (ok signal, publish (Message.dispatch_notifications signal.id ∷ []) v)))
                (λ _ v. (ok tt, v))
      of_create none = of_get (get pf.orm (of_evaluation e.id) w.signals)
      of_create (some (signal, signals)) = refl

  pub record Alone {A : Type 0} (c : Code (World pf) A) (f : Exec (World pf) A) : Type 0 where
    pub at : (w : World pf) → run c w ≡ f w

  -- one statement, the same in both
  pub Alone-ask :
      {A B : Type 0} (m : Exec (World pf) B) (k : B → Code (World pf) A) (f : B → Exec (World pf) A)
      → ((b : B) → Alone (k b) (f b))
      → Alone (ask m k) (λ w. continue (m w) f)
  unfolding run
  Alone-ask {B = B} m k f rest = record { at = λ w. same (m w) }
    where
      same : (out : Result B × World pf) → continue out (λ b. run (k b)) ≡ continue out f
      same (ok b, w) = (rest b).at w
      same (err e, w) = refl

  pub Alone-if :
      {A : Type 0} (b : Bool) (c d : Code (World pf) A) (f g : Exec (World pf) A)
      → Alone c f
      → Alone d g
      → Alone (if b then c else d) (if b then f else g)
  Alone-if true c d f g h k = h
  Alone-if false c d f g h k = k

  -- a statement that a function of the model makes among others
  pub Alone-and_then :
      {A B C : Type 0} (f : World pf → Result B) (g : World pf → B → Result C)
      (k : B → Code (World pf) A) (h : C → Exec (World pf) A)
      → ((b : B) → Alone (k b) (λ w. continue (g w b, w) h))
      → Alone (ask (λ w. (f w, w)) k) (λ w. continue (and_then (f w) (g w), w) h)
  unfolding run
  Alone-and_then {B = B} f g k h rest = record { at = λ w. same w (f w) }
    where
      same :
          (w : World pf) (r : Result B)
          → continue (r, w) (λ b. run (k b)) ≡ continue (and_then r (g w), w) h
      same w (ok b) = (rest b).at w
      same w (err e) = refl

  -- a statement at the start of a part of the task
  pub Alone-nested :
      {A B C : Type 0} (m : Exec (World pf) B) (k : B → Code (World pf) A)
      (f : B → Exec (World pf) C) (h : C → Exec (World pf) A)
      → ((b : B) → Alone (k b) (λ w. continue (f b w) h))
      → Alone (ask m k) (λ w. continue (continue (m w) f) h)
  unfolding run
  Alone-nested {B = B} m k f h rest = record { at = λ w. same (m w) }
    where
      same :
          (out : Result B × World pf) → continue out (λ b. run (k b)) ≡ continue (continue out f) h
      same (ok b, w) = (rest b).at w
      same (err e, w) = refl

  publish_each-Alone :
      (ms : List Message) → Alone (Programs.publish_each pf ms) (modify (publish ms))
  publish_each-Alone ms = record { at = publish_each-run ms }

  write_audit-Alone :
      (strategy time : ℕ) (verdict : Bool × String)
      → Alone
          (Programs.write_audit pf strategy time verdict)
          (write_evaluation pf strategy time verdict)
  unfolding Programs.write_audit write_evaluation run
  write_audit-Alone strategy time verdict = Alone-ask _ _ _ (λ _. Alone-ask _ _ _ (λ e.
      Alone-if e.row.triggered _ _ _ _ (record { at = record_new-run e })
        (record { at = λ w. refl })))

  assess_candles-Alone :
      (s : Stored Strategy) (candles : List (Bar pf))
      → Alone (Programs.assess_candles pf s candles) (evaluate_candles pf s candles)
  unfolding Programs.assess_candles evaluate_candles run
  assess_candles-Alone s [] = record { at = λ w. refl }
  assess_candles-Alone s (c ∷ cs) = Alone-ask _ _ _ (λ config.
      Alone-ask _ _ _ (λ verdict.
        Alone-ask _ _ _ (λ latest. write_audit-Alone s.id latest.row.open_time verdict)))

  pub assess-Alone : (i : ℕ) → Alone (Programs.assess pf i) (evaluate_strategy pf i)
  unfolding Programs.assess evaluate_strategy
  assess-Alone i =
      Alone-ask _ _ _ (λ s. Alone-ask _ _ _ (λ candles. assess_candles-Alone s candles))
