-- ===== src/Tests/Sample.antt =====
-- A small platform and a world on it: a currency with four hourly candles, a strategy of user 7 on
-- them, and two recipients of that user.
use cryptovira.Prelude.{ℕ, ◌+◌, String, true, ℤ, pos, none, some, Option, [], ◌∷◌}
use cryptovira.Python.{whole, Whole}
use cryptovira.Exec.{ok, err, talib_error}
use cryptovira.Orm.Memory.{memory}
use cryptovira.Market.Models.{Currency, Candle}
use cryptovira.Strategy.Schema.{Json, integer, Pydantic, Condition, StrategyConfig, sma, gt}
use cryptovira.Strategy.Schema.Validate.{config_json}
use cryptovira.Strategy.Indicators.{Talib}
use cryptovira.Strategy.Models.{Strategy}
use cryptovira.Signals.Models.{NotificationRecipient, new_delivery}
use cryptovira.Backtesting.Models.{Backtest, BacktestStatus}
use cryptovira.World.{Platform, World}

-- an indicator that is the close itself, and one that is not there
abbrev pub toy_talib : Talib whole
toy_talib = record {
  talib_sma = λ close period. ok close;
  talib_ema = λ close period. err talib_error;
  talib_rsi = λ close period. ok [];
  talib_macd = λ close fast slow signal. ok (close, close, close);
}

abbrev read_float : Json → Option Whole
read_float (integer (pos n)) = some (some n)
read_float (integer _) = none
read_float Json.null = some none
read_float _ = none

abbrev read_int : Json → Option ℤ
read_int (integer n) = some n
read_int _ = none

abbrev pub toy_pydantic : Pydantic whole
toy_pydantic = record { as_float = read_float; as_int = read_int }

abbrev pub write_float : Whole → Json
write_float (some n) = integer (pos n)
write_float none = Json.null

abbrev pub platform : Platform
platform = record {
  python = whole;
  orm = memory;
  talib = toy_talib;
  pydantic = toy_pydantic;
  backoff = λ n. n;
}

abbrev pub bitcoin : Currency
bitcoin = record { symbol = "BTCUSDT"; name = "Bitcoin"; is_active = true }

abbrev pub bar : ℕ → String → Candle whole
bar time close = record {
  currency = 1;
  interval = "1h";
  open_time = time;
  close_time = time + 9;
  open_ = close;
  high = close;
  low = close;
  close = close;
  volume = "1";
}

-- the close is above 5
abbrev pub above_five : Condition whole
above_five = record {
  indicator = sma;
  variables = ("timeperiod", pos 2) ∷ [];
  operator = gt;
  value = some 5;
}

abbrev pub rule : StrategyConfig whole
rule = record { conditions = above_five ∷ [] }

abbrev pub strategy : Strategy
strategy = record {
  user = 7;
  currency = 1;
  interval = "1h";
  name = "high";
  config = config_json whole toy_pydantic write_float rule;
  is_active = true;
}

abbrev pub recipient : String → NotificationRecipient
recipient channel = record { user = 7; channel = channel; destination = "d"; is_active = true }

abbrev pub backtest : Backtest whole
backtest = record {
  strategy = 1;
  start_time = 10;
  end_time = 40;
  horizon_candles = 1;
  status = BacktestStatus.pending;
  progress = 0;
  error = "";
  trigger_count = none;
  scored_trigger_count = none;
  win_count = none;
  win_rate = none;
  total_forward_return = none;
}

abbrev pub world : World platform
world = record {
  currencies = record { contents = bitcoin ∷ [] };
  candles = record { contents = bar 0 "1" ∷ bar 10 "4" ∷ bar 20 "6" ∷ bar 30 "9" ∷ [] };
  strategies = record { contents = strategy ∷ [] };
  evaluations = record { contents = [] };
  signals = record { contents = [] };
  recipients = record { contents = recipient "telegram" ∷ recipient "webhook" ∷ [] };
  deliveries = record { contents = [] };
  backtests = record { contents = backtest ∷ [] };
  published = [];
}

-- the same, once the strategy triggered at the last candle and its signal was dispatched
abbrev pub signalled : World platform
signalled = record world {
  evaluations = record {
    contents = record { strategy = 1; candle_open_time = 30; triggered = true; error = "" } ∷ [];
  };
  signals = record { contents = record { evaluation = 1 } ∷ [] };
  deliveries = record { contents = new_delivery 1 1 ∷ new_delivery 1 2 ∷ [] };
}
