-- ===== src/Migrations.antt =====
-- The migrations of the five apps: the tables that they create, with their columns and constraints.
-- What Django makes of texts for people, and of the models' Python defaults, is left out.
pub mod Constraints
use cryptovira.Prelude.{ℕ, String, Bool, true, false, List, [], ◌∷◌, ◌++◌, str_eq, if◌then◌else◌}

-- `on_delete`
pub data OnDelete : Type 0 where
  cascade protect : OnDelete

pub data Kind : Type 0 where
  big_auto_field date_time_field boolean_field json_field text_field float_field uuid_field
        positive_small_integer_field positive_integer_field :
      Kind
  char_field email_field : (max_length : ℕ) → Kind
  -- a text with `choices`
  choice_field : (max_length : ℕ) → List String → Kind
  decimal_field : (max_digits decimal_places : ℕ) → Kind
  foreign_key one_to_one_field : OnDelete → (to : String) → Kind
  many_to_many_field : (to : String) → Kind

pub record Column : Type 0 where
  pub name : String
  pub kind : Kind
  -- `unique=True`
  pub unique : Bool
  -- `null=True`
  pub nullable : Bool

abbrev column : String → Kind → Column
column name kind = record { name = name; kind = kind; unique = false; nullable = false }

abbrev unique_column : String → Kind → Column
unique_column name kind = record { name = name; kind = kind; unique = true; nullable = false }

abbrev nullable_column : String → Kind → Column
nullable_column name kind = record { name = name; kind = kind; unique = false; nullable = true }

pub data Operation : Type 0 where
  -- `CreateModel`, with its `ordering` and the fields of its unique constraints
  create_model :
      (name : String) → List Column → (ordering : List String) → List (List String) → Operation
  -- `AddConstraint` of a `UniqueConstraint`
  add_constraint : (model_name : String) → (fields : List String) → Operation

abbrev intervals : List String
intervals = "1m" ∷ "5m" ∷ "15m" ∷ "30m" ∷ "1h" ∷ "4h" ∷ "1d" ∷ "1w" ∷ []

abbrev price : Kind
price = decimal_field 20 8

abbrev pub accounts : List Operation
accounts =
    create_model "User"
      (column "id" big_auto_field
        ∷ column "password" (char_field 128)
        ∷ nullable_column "last_login" date_time_field
        ∷ column "is_superuser" boolean_field
        ∷ unique_column "uuid" uuid_field
        ∷ unique_column "email" (email_field 254)
        ∷ column "first_name" (char_field 150)
        ∷ column "last_name" (char_field 150)
        ∷ column "is_active" boolean_field
        ∷ column "is_staff" boolean_field
        ∷ column "date_joined" date_time_field
        ∷ column "groups" (many_to_many_field "auth.group")
        ∷ column "user_permissions" (many_to_many_field "auth.permission")
        ∷ [])
      ("-date_joined" ∷ []) []
    ∷ []

abbrev pub market : List Operation
market =
    create_model "Currency"
      (column "id" big_auto_field
        ∷ column "created_at" date_time_field
        ∷ column "updated_at" date_time_field
        ∷ unique_column "symbol" (char_field 20)
        ∷ column "name" (char_field 100)
        ∷ column "is_active" boolean_field
        ∷ [])
      ("symbol" ∷ []) []
    ∷ create_model "Candle"
        (column "id" big_auto_field
          ∷ column "interval" (choice_field 3 intervals)
          ∷ column "open_time" date_time_field
          ∷ column "close_time" date_time_field
          ∷ column "open" price
          ∷ column "high" price
          ∷ column "low" price
          ∷ column "close" price
          ∷ column "volume" price
          ∷ column "created_at" date_time_field
          ∷ column "currency" (foreign_key protect "market.currency")
          ∷ [])
        ("currency" ∷ "interval" ∷ "open_time" ∷ [])
        (("currency" ∷ "interval" ∷ "open_time" ∷ []) ∷ [])
    ∷ []

abbrev pub strategy : List Operation
strategy =
    create_model "Strategy"
      (column "id" big_auto_field
        ∷ column "created_at" date_time_field
        ∷ column "updated_at" date_time_field
        ∷ column "interval" (choice_field 3 intervals)
        ∷ column "name" (char_field 200)
        ∷ column "config" json_field
        ∷ column "is_active" boolean_field
        ∷ column "currency" (foreign_key protect "market.currency")
        ∷ column "user" (foreign_key cascade "accounts.user")
        ∷ [])
      ("-created_at" ∷ []) []
    ∷ create_model "StrategyEvaluation"
        (column "id" big_auto_field
          ∷ column "candle_open_time" date_time_field
          ∷ column "evaluated_at" date_time_field
          ∷ column "triggered" boolean_field
          ∷ column "error" text_field
          ∷ column "strategy" (foreign_key cascade "strategy.strategy")
          ∷ [])
        ("-evaluated_at" ∷ []) (("strategy" ∷ "candle_open_time" ∷ []) ∷ [])
    ∷ []

abbrev pub signals : List Operation
signals =
    create_model "NotificationRecipient"
      (column "id" big_auto_field
        ∷ column "created_at" date_time_field
        ∷ column "updated_at" date_time_field
        ∷ column "channel" (choice_field 20 ("telegram" ∷ "webhook" ∷ []))
        ∷ column "destination" (char_field 255)
        ∷ column "is_active" boolean_field
        ∷ column "user" (foreign_key cascade "accounts.user")
        ∷ [])
      ("user" ∷ "channel" ∷ []) []
    ∷ create_model "Signal"
        (column "id" big_auto_field
          ∷ column "created_at" date_time_field
          ∷ column "evaluation" (one_to_one_field cascade "strategy.strategyevaluation")
          ∷ [])
        ("-created_at" ∷ []) []
    ∷ create_model "NotificationDelivery"
        (column "id" big_auto_field
          ∷ column "created_at" date_time_field
          ∷ column "updated_at" date_time_field
          ∷ column "status" (choice_field 10 ("pending" ∷ "sent" ∷ "failed" ∷ []))
          ∷ column "attempts" positive_small_integer_field
          ∷ column "last_error" text_field
          ∷ column "recipient" (foreign_key cascade "signals.notificationrecipient")
          ∷ column "signal" (foreign_key cascade "signals.signal")
          ∷ [])
        ("-created_at" ∷ []) []
    ∷ add_constraint "notificationrecipient" ("user" ∷ "channel" ∷ [])
    ∷ add_constraint "notificationdelivery" ("signal" ∷ "recipient" ∷ [])
    ∷ []

abbrev pub backtesting : List Operation
backtesting =
    create_model "Backtest"
      (column "id" big_auto_field
        ∷ column "created_at" date_time_field
        ∷ column "updated_at" date_time_field
        ∷ column "start_time" date_time_field
        ∷ column "end_time" date_time_field
        ∷ column "horizon_candles" positive_small_integer_field
        ∷ column "status" (choice_field 10 ("pending" ∷ "running" ∷ "completed" ∷ "failed" ∷ []))
        ∷ column "progress" positive_small_integer_field
        ∷ column "error" text_field
        ∷ nullable_column "trigger_count" positive_integer_field
        ∷ nullable_column "scored_trigger_count" positive_integer_field
        ∷ nullable_column "win_count" positive_integer_field
        ∷ nullable_column "win_rate" float_field
        ∷ nullable_column "total_forward_return" float_field
        ∷ column "strategy" (foreign_key cascade "strategy.strategy")
        ∷ [])
      ("-created_at" ∷ []) []
    ∷ []
