-- ===== src/Market/Models.antt =====
-- apps/market/models.py. Time stamps that the database keeps for bookkeeping are left out.
use cryptovira.Prelude.{
  ℕ, String, ◌≡◌, refl, Bool, true, ◌&&◌, Option, none, some, ◌==◌, str_eq, eq_refl, arith,
  if◌then◌else◌,
}
use cryptovira.Python.{Python}

pub data Interval : Type 0 where
  one_minute five_minutes fifteen_minutes thirty_minutes : Interval
  one_hour four_hours one_day one_week : Interval

-- `interval.value`
abbrev pub value : Interval → String
value one_minute = "1m"
value five_minutes = "5m"
value fifteen_minutes = "15m"
value thirty_minutes = "30m"
value one_hour = "1h"
value four_hours = "4h"
value one_day = "1d"
value one_week = "1w"

-- `Interval(text)`; `none` stands for the `ValueError` of an unknown value
unfoldable pub of_value : String → Option Interval
of_value s =
    if str_eq s "1m"
    then some one_minute
    else if str_eq s "5m"
    then some five_minutes
    else if str_eq s "15m"
    then some fifteen_minutes
    else if str_eq s "30m"
    then some thirty_minutes
    else if str_eq s "1h"
    then some one_hour
    else if str_eq s "4h"
    then some four_hours
    else if str_eq s "1d"
    then some one_day
    else if str_eq s "1w"
    then some one_week
    else none

pub record Currency : Type 0 where
  pub symbol : String
  pub name : String
  pub is_active : Bool

-- `symbol` is unique
abbrev pub same_symbol : Currency → Currency → Bool
same_symbol a b = str_eq a.symbol b.symbol

-- `currency` is the primary key of the currency. The decimals have at most 20 digits and 8 places:
-- `in_columns` of Market/Tasks is what a row that is written has of them.
pub record Candle (p : Python) : Type 0 where
  pub currency : ℕ
  pub interval : String
  pub open_time : ℕ
  pub close_time : ℕ
  pub open_ : p.Decimal
  pub high : p.Decimal
  pub low : p.Decimal
  pub close : p.Decimal
  pub volume : p.Decimal

-- `unique_candle_per_currency_interval_open_time`
abbrev pub same_bar : {p : Python} → Candle p → Candle p → Bool
same_bar a b =
    a.currency == b.currency && (str_eq a.interval b.interval && a.open_time == b.open_time)

pub same_bar_refl : {p : Python} (a : Candle p) → same_bar a a ≡ true
same_bar_refl a = ground (arith, eq_refl a.interval)

-- Reading back the value of an interval gives that interval, for all eight.
of_value-value : (i : Interval) → of_value (value i) ≡ some i
unfolding of_value
of_value-value one_minute = refl
of_value-value five_minutes = refl
of_value-value fifteen_minutes = refl
of_value-value thirty_minutes = refl
of_value-value one_hour = refl
of_value-value four_hours = refl
of_value-value one_day = refl
of_value-value one_week = refl
