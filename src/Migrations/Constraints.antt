-- ===== src/Migrations/Constraints.antt =====
-- What the migrated tables keep unique, against what the tables of the model do.
use cryptovira.Prelude.{
  ℕ, String, ◌≡◌, refl, Bool, true, false, ◌&&◌, ◌||◌, Option, none, some, List, [], ◌∷◌, ◌++◌, any,
  ◌==◌, str_eq, if◌then◌else◌, arith,
}
use cryptovira.Python.{Python}
use cryptovira.Market.Models.{Currency, same_symbol, Candle, same_bar}
use cryptovira.Strategy.Models.{Strategy, StrategyEvaluation, same_candle}
use cryptovira.Signals.Models.{
  Signal, same_evaluation, NotificationRecipient, same_channel, NotificationDelivery, same_delivery,
}
use cryptovira.Backtesting.Models.{Backtest, no_constraint}
use cryptovira.Accounts.{User, same_email}
use cryptovira.World.{no_clash}
use cryptovira.Migrations.{
  Kind, one_to_one_field, Column, Operation, create_model, add_constraint, accounts, market,
  strategy, signals, backtesting,
}

abbrev pub is_one_to_one : Kind → Bool
is_one_to_one (one_to_one_field on_delete to) = true
is_one_to_one kind = false

-- the columns that are unique by themselves
abbrev pub unique_columns : List Column → List (List String)
unique_columns [] = []
unique_columns (c ∷ cs) =
    if c.unique || is_one_to_one c.kind
    then (c.name ∷ []) ∷ unique_columns cs
    else unique_columns cs

-- The sets of columns that a model's table keeps unique, beside its primary key. A constraint that is
-- added later names the model in lower case.
abbrev pub unique_sets : (name model_name : String) → List Operation → List (List String)
unique_sets name model_name [] = []
unique_sets name model_name (create_model n columns ordering constraints ∷ ops) =
    if str_eq n name
    then unique_columns columns ++ constraints ++ unique_sets name model_name ops
    else unique_sets name model_name ops
unique_sets name model_name (add_constraint n fields ∷ ops) =
    if str_eq n model_name
    then fields ∷ unique_sets name model_name ops
    else unique_sets name model_name ops

-- the content of a column, for the columns that a constraint can name
pub data Content : Type 0 where
  number : ℕ → Content
  text : String → Content

abbrev pub agree : Option Content → Option Content → Bool
agree (some (number m)) (some (number n)) = m == n
agree (some (text s)) (some (text t)) = str_eq s t
agree _ _ = false

module _ {Row : Type 0} (cell : Row → String → Option Content) (a b : Row) where
  abbrev pub agree_on : List String → Bool
  agree_on [] = true
  agree_on (c ∷ cs) = agree (cell a c) (cell b c) && agree_on cs

  -- Two rows that some unique set forbids.
  abbrev pub violate : List (List String) → Bool
  violate sets = any agree_on sets

-- A user's `uuid` is made when the user is, and is no column of the model.
abbrev pub user_cell : String × User → String → Option Content
user_cell (uuid, u) c =
    if str_eq c "uuid"
    then some (text uuid)
    else if str_eq c "email"
    then some (text u.email)
    else none

abbrev pub currency_cell : Currency → String → Option Content
currency_cell x c =
    if str_eq c "symbol"
    then some (text x.symbol)
    else if str_eq c "name"
    then some (text x.name)
    else none

abbrev pub candle_cell : {p : Python} → Candle p → String → Option Content
candle_cell x c =
    if str_eq c "currency"
    then some (number x.currency)
    else if str_eq c "interval"
    then some (text x.interval)
    else if str_eq c "open_time"
    then some (number x.open_time)
    else if str_eq c "close_time"
    then some (number x.close_time)
    else none

abbrev pub strategy_cell : Strategy → String → Option Content
strategy_cell x c =
    if str_eq c "user"
    then some (number x.user)
    else if str_eq c "currency"
    then some (number x.currency)
    else if str_eq c "interval"
    then some (text x.interval)
    else if str_eq c "name"
    then some (text x.name)
    else none

abbrev pub evaluation_cell : StrategyEvaluation → String → Option Content
evaluation_cell x c =
    if str_eq c "strategy"
    then some (number x.strategy)
    else if str_eq c "candle_open_time"
    then some (number x.candle_open_time)
    else none

abbrev pub signal_cell : Signal → String → Option Content
signal_cell x c = if str_eq c "evaluation" then some (number x.evaluation) else none

abbrev pub recipient_cell : NotificationRecipient → String → Option Content
recipient_cell x c =
    if str_eq c "user"
    then some (number x.user)
    else if str_eq c "channel"
    then some (text x.channel)
    else if str_eq c "destination"
    then some (text x.destination)
    else none

abbrev pub delivery_cell : NotificationDelivery → String → Option Content
delivery_cell x c =
    if str_eq c "signal"
    then some (number x.signal)
    else if str_eq c "recipient"
    then some (number x.recipient)
    else none

abbrev pub backtest_cell : {p : Python} → Backtest p → String → Option Content
backtest_cell x c = if str_eq c "strategy" then some (number x.strategy) else none

-- For each table, two rows violate what the migrations make unique exactly where the constraint of the
-- model's table says so: users with different `uuid`s, currencies, candles, strategies, evaluations,
-- signals, recipients, deliveries and backtests.
pub violate-eq-same :
    {p : Python} (u v : String)
    → str_eq u v ≡ false
    → ((a b : User)
        → violate user_cell (u, a) (v, b) (unique_sets "User" "user" accounts) ≡ same_email a b)
      × ((a b : Currency)
          → violate currency_cell a b (unique_sets "Currency" "currency" market) ≡ same_symbol a b)
      × ((a b : Candle p)
          → violate candle_cell a b (unique_sets "Candle" "candle" market) ≡ same_bar a b)
      × ((a b : Strategy)
          → violate strategy_cell a b (unique_sets "Strategy" "strategy" strategy) ≡ no_clash a b)
      × ((a b : StrategyEvaluation)
          → violate evaluation_cell a b
              (unique_sets "StrategyEvaluation" "strategyevaluation" strategy)
            ≡ same_candle a b)
      × ((a b : Signal)
          → violate signal_cell a b (unique_sets "Signal" "signal" signals) ≡ same_evaluation a b)
      × ((a b : NotificationRecipient)
          → violate recipient_cell a b
              (unique_sets "NotificationRecipient" "notificationrecipient" signals)
            ≡ same_channel a b)
      × ((a b : NotificationDelivery)
          → violate delivery_cell a b
              (unique_sets "NotificationDelivery" "notificationdelivery" signals)
            ≡ same_delivery a b)
      × ((a b : Backtest p)
          → violate backtest_cell a b (unique_sets "Backtest" "backtest" backtesting)
            ≡ no_constraint a b)
violate-eq-same u v apart = (
  λ a b. ground (arith, apart),
  λ a b. ground arith,
  λ a b. ground arith,
  λ a b. refl,
  λ a b. ground arith,
  λ a b. ground arith,
  λ a b. ground arith,
  λ a b. ground arith,
  λ a b. refl,
)
