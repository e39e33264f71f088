-- ===== src/Signals/Services.antt =====
-- apps/signals/services.py. Outside an atomic block `transaction.on_commit` runs its callback at
-- once, and the block around `create` has ended where it is called.
pub mod Record
use cryptovira.Prelude.{ℕ, Bool, ◌&&◌, Option, none, some, List, [], ◌∷◌, ◌==◌, str_eq}
use cryptovira.Exec.{Exec, Result, ok, and_then, lift, pure, modify, ◌>>=◌, ◌>>◌}
use cryptovira.Orm.{Stored}
use cryptovira.Strategy.Models.{StrategyEvaluation}
use cryptovira.Signals.Models.{Signal, same_evaluation}
use cryptovira.Signals.Messages.{SignalMessageContext}
use cryptovira.World.{Platform, World, Message, publish}
use cryptovira.World.Queries.{get, has_id}

abbrev pub of_evaluation : ℕ → Stored Signal → Bool
of_evaluation i s = i == s.row.evaluation

module _ (pf : Platform) where
  -- the outcome of `create`: the new row, or after `IntegrityError` the row that is there
  unfoldable pub created :
      ℕ
      → Option (Stored Signal × pf.orm.Table Signal same_evaluation)
      → Exec (World pf) (Stored Signal)
  created evaluation none w = (get pf.orm (of_evaluation evaluation) w.signals, w)
  created evaluation (some (signal, signals)) w = (ok signal, record w { signals = signals })

  -- the `try` block
  unfoldable pub create_or_get : ℕ → Exec (World pf) (Stored Signal)
  unfolding created
  create_or_get evaluation w =
      created evaluation (pf.orm.create (record { evaluation = evaluation }) w.signals) w

  -- `record_signal`
  unfoldable pub record_signal : Stored StrategyEvaluation → Exec (World pf) (Stored Signal)
  unfolding create_or_get
  record_signal evaluation = do
    signal ← create_or_get evaluation.id
    modify (publish (Message.dispatch_notifications signal.id ∷ []))
    pure signal

  -- `build_message_context`; a foreign key is followed by `get`
  unfoldable pub build_message_context :
      Stored Signal → World pf → Result (SignalMessageContext pf.python)
  build_message_context signal w =
      and_then (get pf.orm (has_id signal.row.evaluation) w.evaluations) λ evaluation.
        and_then (get pf.orm (has_id evaluation.row.strategy) w.strategies) λ strategy.
          and_then (get pf.orm (has_id strategy.row.currency) w.currencies) λ currency.
            and_then
              (get pf.orm
                (λ c.
                  c.row.currency == currency.id
                  && (str_eq c.row.interval strategy.row.interval
                      && c.row.open_time == evaluation.row.candle_open_time))
                w.candles)
              λ candle. ok (record {
                strategy_name = strategy.row.name;
                symbol = currency.row.symbol;
                interval = strategy.row.interval;
                candle_open_time = candle.row.open_time;
                close_price = candle.row.close;
              })
