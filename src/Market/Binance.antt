-- ===== src/Market/Binance.antt =====
-- apps/market/sources: the exchange-facing interface and its implementation over Binance's klines
-- endpoint. The HTTP client is a parameter: a function from the request to the response.
use cryptovira.Prelude.{
  ℕ, ◌+◌, ℤ, pos, negsuc, String, ◌≡◌, refl, subst, Bool, Option, none, some, List, [], ◌∷◌, length,
  All, if◌then◌else◌,
}
use cryptovira.Python.{Python}
use cryptovira.Exec.{
  Result, ok, err, type_error, value_error, invalid_operation, http_error, or_raise, and_then,
  traverse, traverse_law, and_then-eq-ok, ok_same,
}
use cryptovira.Market.Models.{Interval, value}

-- `Kline`
pub record Kline (p : Python) : Type 0 where
  pub symbol : String
  pub interval : String
  pub open_time : ℕ
  pub close_time : ℕ
  pub open_ : p.Decimal
  pub high : p.Decimal
  pub low : p.Decimal
  pub close : p.Decimal
  pub volume : p.Decimal

-- an element of a row of the response's JSON; an array is given by its text
pub data Cell (p : Python) : Type 0 where
  number : ℤ → Cell p
  fractional : p.Float → Cell p
  truth : Bool → Cell p
  text : String → Cell p
  array : String → Cell p
  object null : Cell p

-- the request's parameters: `startTime` is left out where no start is given
pub data Param : Type 0 where
  symbol_param interval_param : String → Param
  limit_param start_time_param : ℕ → Param

-- a response: its rows, or the text of the exception that `raise_for_status` or the client raises
pub data Response (p : Python) : Type 0 where
  rows_json : List (List (Cell p)) → Response p
  failed : String → Response p

module _ (p : Python) where
  open p use {
    Float, Decimal, to_decimal, int_decimal, float_decimal, list_decimal, zero_float, sub, div,
    int_div, times_1000, truncate, fromtimestamp, timestamp,
  }

  -- `n / 1000` of an integer
  abbrev pub thousandths : ℤ → Float
  thousandths (pos n) = int_div n 1000
  thousandths (negsuc n) = sub zero_float (int_div (n + 1) 1000)

  -- `cell / 1000`; a truth value counts as 0 or 1
  abbrev pub cell_thousandths : Cell p → Result Float
  cell_thousandths (number n) = ok (thousandths n)
  cell_thousandths (fractional x) = or_raise (div x (int_div 1000 1)) value_error
  cell_thousandths (truth b) = ok (int_div (if b then 1 else 0) 1000)
  cell_thousandths _ = err type_error

  -- `_from_epoch_ms`
  unfoldable pub from_epoch_ms : Cell p → Result ℕ
  from_epoch_ms epoch_ms =
      and_then (cell_thousandths epoch_ms) λ seconds. or_raise (fromtimestamp seconds) value_error

  -- `int(start_time.timestamp() * 1000)`
  abbrev pub to_epoch_ms : ℕ → ℕ
  to_epoch_ms t = truncate (times_1000 (timestamp t))

  abbrev pub request_params : String → Interval → ℕ → Option ℕ → List Param
  request_params symbol interval limit none =
      symbol_param symbol ∷ interval_param (value interval) ∷ limit_param limit ∷ []
  request_params symbol interval limit (some t) =
      symbol_param symbol
      ∷ interval_param (value interval)
      ∷ limit_param limit
      ∷ start_time_param (to_epoch_ms t)
      ∷ []

  -- `Decimal(cell)`
  cell_decimal : Cell p → Result Decimal
  cell_decimal (number n) = ok (int_decimal n)
  cell_decimal (fractional x) = ok (float_decimal x)
  cell_decimal (truth b) = ok (int_decimal (pos (if b then 1 else 0)))
  cell_decimal (text t) = or_raise (to_decimal t) invalid_operation
  cell_decimal (array t) = or_raise (list_decimal t) value_error
  cell_decimal object = err type_error
  cell_decimal null = err type_error

  -- `_parse_kline`; fewer than seven elements cannot be unpacked
  unfoldable pub parse_kline : String → String → List (Cell p) → Result (Kline p)
  unfolding from_epoch_ms cell_decimal
  parse_kline symbol interval
        (open_time_ms ∷ open_ ∷ high ∷ low ∷ close ∷ volume ∷ close_time_ms ∷ rest) =
      and_then (from_epoch_ms open_time_ms) λ open_time.
        and_then (from_epoch_ms close_time_ms) λ close_time. and_then (cell_decimal open_) λ o.
          and_then (cell_decimal high) λ h. and_then (cell_decimal low) λ l.
            and_then (cell_decimal close) λ c. and_then (cell_decimal volume) λ v. ok (record {
              symbol = symbol;
              interval = interval;
              open_time = open_time;
              close_time = close_time;
              open_ = o;
              high = h;
              low = l;
              close = c;
              volume = v;
            })
  parse_kline symbol interval _ = err value_error

  parse_response : String → Interval → Response p → Result (List (Kline p))
  parse_response symbol interval (failed e) = err (http_error e)
  parse_response symbol interval (rows_json rows) =
      traverse (parse_kline symbol (value interval)) rows

  -- `BinanceRestMarketDataSource.get_klines`
  unfoldable pub get_klines :
      (String → List Param → Response p)
      → String
      → Interval
      → ℕ
      → Option ℕ
      → Result (List (Kline p))
  unfolding parse_response
  get_klines client symbol interval limit start_time =
      parse_response symbol interval
        (client "/api/v3/klines" (request_params symbol interval limit start_time))

  parse_kline-labels :
      (symbol interval : String) (row : List (Cell p)) (k : Kline p)
      → parse_kline symbol interval row ≡ ok k
      → (k.symbol ≡ symbol) × (k.interval ≡ interval)
  unfolding parse_kline
  parse_kline-labels symbol interval (a ∷ b ∷ c ∷ d ∷ e ∷ f ∷ g ∷ rest) k h =
      let (_, _, h) = and_then-eq-ok (from_epoch_ms a) _ h in
      let (_, _, h) = and_then-eq-ok (from_epoch_ms g) _ h in
      let (_, _, h) = and_then-eq-ok (cell_decimal b) _ h in
      let (_, _, h) = and_then-eq-ok (cell_decimal c) _ h in
      let (_, _, h) = and_then-eq-ok (cell_decimal d) _ h in
      let (_, _, h) = and_then-eq-ok (cell_decimal e) _ h in
      let (_, _, h) = and_then-eq-ok (cell_decimal f) _ h in
      subst (λ k. (k.symbol ≡ symbol) × (k.interval ≡ interval)) (ok_same h) (refl, refl)
  parse_kline-labels symbol interval _ k h = cc

  -- A successful call returns one kline for each row of the response, all of them labelled with
  -- the symbol and the interval that were asked for.
  get_klines-labels :
      (client : String → List Param → Response p) (symbol : String) (interval : Interval)
      (limit : ℕ) (start_time : Option ℕ) (rows : List (List (Cell p))) (klines : List (Kline p))
      → client "/api/v3/klines" (request_params symbol interval limit start_time) ≡ rows_json rows
      → get_klines client symbol interval limit start_time ≡ ok klines
      → (length klines ≡ length rows)
        × All (λ k. (k.symbol ≡ symbol) × (k.interval ≡ value interval)) klines
  unfolding get_klines
  get_klines-labels client symbol interval limit start_time rows klines answered h =
      traverse_law (parse_kline symbol (value interval))
        (λ k. (k.symbol ≡ symbol) × (k.interval ≡ value interval))
        (parse_kline-labels symbol (value interval)) rows klines (rw answered at h)
