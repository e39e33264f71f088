-- ===== src/Tests/Market.antt =====
-- The source answers with a bar that has closed and one that has not, and the clock stands at 55.
use cryptovira.Prelude.{ℕ, ◌+◌, ◌<◌, String, ◌≡◌, refl, true, List, [], ◌∷◌, ◌++◌, any, All}
use cryptovira.Python.{whole}
use cryptovira.Exec.{Result, ok, traverse}
use cryptovira.Orm.{Stored}
use cryptovira.Market.Models.{Interval, of_value, one_hour, Candle, same_bar}
use cryptovira.Market.Binance.{Kline}
use cryptovira.Market.Tasks.{ingest_candles, closed_candles, in_columns, to_candle}
use cryptovira.Market.Tasks.Ingest.{
  bars, Answered, new_bars, ingest_candles-append, ingest_candles-present, ingest_candles_again,
}
use cryptovira.World.{World}
use cryptovira.World.Matches.{contents}
use cryptovira.World.Queries.{get, the_only}
use cryptovira.Tests.Sample.{platform, world, bitcoin}

abbrev kline : ℕ → Kline whole
kline time = record {
  symbol = "BTCUSDT";
  interval = "1h";
  open_time = time;
  close_time = time + 9;
  open_ = "7";
  high = "7";
  low = "7";
  close = "7";
  volume = "2";
}

abbrev source : String → Interval → Result (List (Kline whole))
source symbol interval = ok (kline 40 ∷ kline 50 ∷ [])

abbrev after : World platform
after = (ingest_candles platform source 55 "BTCUSDT" "1h" world).1

answered : Answered platform source 55 "BTCUSDT" "1h" world
unfolding get the_only of_value closed_candles in_columns traverse
answered = record {
  currency = record { id = 1; row = bitcoin };
  known = one_hour;
  klines = kline 40 ∷ kline 50 ∷ [];
  found = refl;
  is_known = refl;
  answer = refl;
  rows = to_candle platform 1 (kline 40) ∷ [];
  fits = refl;
}

ingest_candles-append_example :
    (more : List (Stored (Candle whole))) × (platform.orm.rows after.candles
      ≡ platform.orm.rows world.candles ++ more)
    × All (λ b. b.close_time < 55) (contents more)
ingest_candles-append_example = ingest_candles-append platform source 55 "BTCUSDT" "1h" world

ingest_candles-present_example :
    All
      (λ b. any (same_bar b) (bars platform source 55 after) ≡ true)
      (new_bars platform source 55 "BTCUSDT" "1h" world answered)
ingest_candles-present_example =
    ingest_candles-present platform source 55 "BTCUSDT" "1h" world answered

ingest_candles_again_example :
    bars platform source 55 (ingest_candles platform source 55 "BTCUSDT" "1h" after).1
    ≡ bars platform source 55 after
ingest_candles_again_example = ingest_candles_again platform source 55 "BTCUSDT" "1h" world
