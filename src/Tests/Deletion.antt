-- ===== src/Tests/Deletion.antt =====
-- The migrated constraints, and the deletion of the sample's user.
use cryptovira.Prelude.{ℕ, Bool, ◌≡◌, refl, false, [], ◌==◌}
use cryptovira.Python.{whole}
use cryptovira.Market.Models.{Currency, same_symbol, Candle, same_bar}
use cryptovira.Strategy.Models.{Strategy, StrategyEvaluation, same_candle}
use cryptovira.Signals.Models.{
  Signal, same_evaluation, NotificationRecipient, same_channel, NotificationDelivery, same_delivery,
}
use cryptovira.Backtesting.Models.{Backtest, no_constraint}
use cryptovira.Accounts.{User, same_email}
use cryptovira.Strategy.Schema.{model_validate}
use cryptovira.World.{World, no_clash}
use cryptovira.System.Invariant.{Sound}
use cryptovira.Migrations.{accounts, market, strategy, signals, backtesting}
use cryptovira.Migrations.Constraints.{
  violate, unique_sets, user_cell, currency_cell, candle_cell, strategy_cell, evaluation_cell,
  signal_cell, recipient_cell, delivery_cell, backtest_cell, violate-eq-same,
}
use cryptovira.Deletion.{Chosen, Deleted, Linked, users_left}
use cryptovira.Deletion.Cascade.{Deleted-Sound}
use cryptovira.Tests.Sample.{platform, signalled, rule}

violate-eq-same_example :
    ((a b : User)
      → violate user_cell ("u", a) ("v", b) (unique_sets "User" "user" accounts) ≡ same_email a b)
    × ((a b : Currency)
        → violate currency_cell a b (unique_sets "Currency" "currency" market) ≡ same_symbol a b)
    × ((a b : Candle whole)
        → violate candle_cell a b (unique_sets "Candle" "candle" market) ≡ same_bar a b)
    × ((a b : Strategy)
        → violate strategy_cell a b (unique_sets "Strategy" "strategy" strategy) ≡ no_clash a b)
    × ((a b : StrategyEvaluation)
        → violate evaluation_cell a b
            (unique_sets "StrategyEvaluation" "strategyevaluation" strategy)
          ≡ same_candle a b)
    × ((a b : Signal)
        → violate signal_cell a b (unique_sets "Signal" "signal" signals) ≡ same_evaluation a b)
    × ((a b : NotificationRecipient)
        → violate recipient_cell a b
            (unique_sets "NotificationRecipient" "notificationrecipient" signals)
          ≡ same_channel a b)
    × ((a b : NotificationDelivery)
        → violate delivery_cell a b
            (unique_sets "NotificationDelivery" "notificationdelivery" signals)
          ≡ same_delivery a b)
    × ((a b : Backtest whole)
        → violate backtest_cell a b (unique_sets "Backtest" "backtest" backtesting)
          ≡ no_constraint a b)
violate-eq-same_example = violate-eq-same "u" "v" refl

abbrev the_user : Chosen platform
the_user = record {
  user = λ i. i == 7;
  currency = λ x. false;
  candle = λ x. false;
  strategy = λ x. false;
  evaluation = λ x. false;
  signal = λ x. false;
  recipient = λ x. false;
  delivery = λ x. false;
  backtest = λ x. false;
}

abbrev bare : World platform
bare = record signalled {
  strategies = record { contents = [] };
  recipients = record { contents = [] };
  evaluations = record { contents = [] };
  signals = record { contents = [] };
  deliveries = record { contents = [] };
  backtests = record { contents = [] };
}

deleted : Deleted platform the_user signalled bare
deleted = record {
  allowed = refl;
  currencies = refl;
  candles = refl;
  strategies = refl;
  evaluations = refl;
  signals = refl;
  recipients = refl;
  deliveries = refl;
  backtests = refl;
  published = refl;
}

signalled-Sound : Sound platform signalled
unfolding model_validate
signalled-Sound = record {
  candles_unique = ((refl, (refl, (refl, tt))), ((refl, (refl, tt)), ((refl, tt), (tt, tt))));
  evaluations_unique = (tt, tt);
  signals_unique = (tt, tt);
  deliveries_unique = ((refl, tt), (tt, tt));
  backed = (refl, tt);
  signalled = (refl, (refl, tt));
  configured = ((rule, refl), tt);
}

abbrev users : ℕ → Bool
users i = i == 7

signalled-Linked : Linked platform users signalled
signalled-Linked = record {
  owners = (refl, tt);
  addressees = (refl, (refl, tt));
  candles = (refl, (refl, (refl, (refl, tt))));
  strategies = (refl, tt);
  evaluations = (refl, tt);
  backtests = (refl, tt);
  signals = (refl, tt);
  delivered_signals = (refl, (refl, tt));
  delivered_recipients = (refl, (refl, tt));
}

Deleted-Sound_example :
    Sound platform bare × Linked platform (users_left platform the_user users) bare
Deleted-Sound_example =
    Deleted-Sound platform users the_user signalled bare deleted signalled-Sound signalled-Linked
