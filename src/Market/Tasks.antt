-- ===== src/Market/Tasks.antt =====
-- apps/market/tasks.py. The source of market data and the clock are arguments.
pub mod Ingest
use cryptovira.Prelude.{ℕ, String, ◌≡◌, Bool, List, [], ◌∷◌, map, select, ltb, str_eq}
use cryptovira.Python.{Python}
use cryptovira.Exec.{
  Exec, Result, ok, value_error, other_error, or_raise, and_then, traverse, lift, modify, ◌>>=◌,
}
use cryptovira.Orm.{Stored}
use cryptovira.Market.Models.{Interval, of_value, Candle}
use cryptovira.Market.Binance.{Kline}
use cryptovira.World.{Platform, World, Message, publish}
use cryptovira.World.Queries.{get}

module _ (pf : Platform) where
  -- `fan_out_ingest_candles`
  unfoldable pub fan_out_ingest_candles : String → Exec (World pf) Unit
  fan_out_ingest_candles interval = modify λ w.
      publish
        (map (λ s. Message.ingest_candles s.row.symbol interval)
          (pf.orm.filter (λ s. s.row.is_active) w.currencies))
        w

  abbrev pub to_candle : ℕ → Kline pf.python → Candle pf.python
  to_candle currency k = record {
    currency = currency;
    interval = k.interval;
    open_time = k.open_time;
    close_time = k.close_time;
    open_ = k.open_;
    high = k.high;
    low = k.low;
    close = k.close;
    volume = k.volume;
  }

  -- the comprehension of `ingest_candles`: a candle for each bar that closed before `now`
  unfoldable pub closed_candles : ℕ → ℕ → List (Kline pf.python) → List (Candle pf.python)
  closed_candles currency now klines =
      map (to_candle currency) (select (λ k. ltb k.close_time now) klines)

  -- a decimal on its way into the column
  abbrev pub column : pf.python.Decimal → Result pf.python.Decimal
  column d = or_raise (pf.python.to_column d) (other_error "DataError")

  -- a candle as its row is written: the decimals rounded to the columns' places, if they fit
  unfoldable pub in_columns : Candle pf.python → Result (Candle pf.python)
  in_columns b = and_then (column b.open_) λ o. and_then (column b.high) λ h.
      and_then (column b.low) λ l. and_then (column b.close) λ c.
        and_then (column b.volume)
          λ v. ok (record b { open_ = o; high = h; low = l; close = c; volume = v })

  module _ (source : String → Interval → Result (List (Kline pf.python))) (now : ℕ) where
    -- `ingest_candles`
    unfoldable pub ingest_candles : String → String → Exec (World pf) Unit
    unfolding closed_candles in_columns
    ingest_candles symbol interval = do
      currency ← (λ w. (get pf.orm (λ s. str_eq s.row.symbol symbol) w.currencies, w))
      known ← lift (or_raise (of_value interval) value_error)
      klines ← lift (source symbol known)
      -- the rows of the INSERT, which stores all or none
      rows ← lift (traverse in_columns (closed_candles currency.id now klines))
      modify (λ w. record w { candles = pf.orm.bulk_create rows w.candles })
