-- ===== src/Backtesting/Tasks.antt =====
-- apps/backtesting/tasks.py, and the admin action that starts a backtest. A `save` writes the columns
-- that its `update_fields` name.
pub mod Counts
pub mod Progress
pub mod Totals
pub mod Run
pub mod Outcome
pub mod Rerun
pub mod Finish
pub mod Bars
pub mod Series
pub mod Replay
use Prim.Native.Nat.{max}
use Prim.Native.String.{◌++◌ as text_append}
use cryptovira.Prelude.{
  ℕ, zero, suc, ◌+◌, ◌-◌, ◌*◌, ◌/◌, ◌%◌, String, Bool, false, ◌&&◌, ◌||◌, Option, none, some, List,
  [], ◌∷◌, ◌++◌, map, reverse, take, drop, length, get_elem?, leb, ltb, ◌==◌, if◌then◌else◌,
}
use cryptovira.Exec.{
  Exec, Result, ok, err, insufficient_data_error, index_error, zero_division_error,
  validation_error, or_raise, and_then, pure, lift, gets, modify, ◌>>=◌, ◌>>◌,
}
use cryptovira.Orm.{Stored, ascending, descending}
use cryptovira.Market.Models.{Currency, Candle}
use cryptovira.Strategy.Schema.{StrategyConfig, model_validate}
use cryptovira.Strategy.Engine.{evaluate}
use cryptovira.Strategy.Models.{Strategy}
use cryptovira.Strategy.Tasks.{history_candle_count, is_bar_of, closes}
use cryptovira.Backtesting.Models.{Backtest, running, completed, failed}
use cryptovira.World.{Platform, World, Message, publish}
use cryptovira.World.Queries.{get, has_id}

-- the counters of the loop
pub record Score (F : Type 0) : Type 0 where
  pub trigger_count : ℕ
  pub scored_trigger_count : ℕ
  pub win_count : ℕ
  pub total_forward_return : F

-- the inner `try`: too little data is no trigger
unfoldable pub triggers : Result Bool → Result Bool
triggers (ok b) = ok b
triggers (err (insufficient_data_error message)) = ok false
triggers (err e) = err e

-- `series[max(0, i - HISTORY_CANDLE_COUNT + 1) : i + 1]`; the subtraction stops at 0
unfoldable pub window {ℓ} : {A : Type ℓ} → List A → ℕ → List A
window series i = let from = i + 1 - history_candle_count in take (i + 1 - from) (drop from series)

-- `max(1, len(in_range) // 100)`
abbrev pub update_every : ℕ → ℕ
update_every n = max 1 (n / 100)

-- whether the loop saves after that many candles of `n`
abbrev pub is_reported : ℕ → ℕ → Bool
is_reported n done = (done % update_every n == 0) || (done == n)

abbrev pub percent : ℕ → ℕ → ℕ
percent n done = done * 100 / n

module _ (pf : Platform) where
  open pf use {python}
  open python use {Float, to_float, sub, div, times_100, add, lt, zero_float, int_div}

  abbrev pub Bar : Type 0
  Bar = Stored (Candle python)

  -- the three queries
  unfoldable pub warmup_of : Strategy → Backtest python → World pf → List Bar
  warmup_of s b w = reverse (
      take history_candle_count (
        pf.orm.order_by descending (λ c. c.open_time)
          (pf.orm.filter (λ c. is_bar_of pf s c && ltb c.row.open_time b.start_time) w.candles)))

  unfoldable pub range_of : Strategy → Backtest python → World pf → List Bar
  range_of s b w =
      pf.orm.order_by ascending (λ c. c.open_time)
        (pf.orm.filter
          (λ c.
            is_bar_of pf s c
            && (leb b.start_time c.row.open_time && ltb c.row.open_time b.end_time))
          w.candles)

  unfoldable pub tail_of : Strategy → Backtest python → World pf → List Bar
  tail_of s b w = take b.horizon_candles (
      pf.orm.order_by ascending (λ c. c.open_time)
        (pf.orm.filter (λ c. is_bar_of pf s c && leb b.end_time c.row.open_time) w.candles))

  -- `backtest.save(update_fields=...)`
  abbrev pub save_backtest : ℕ → (Backtest python → Backtest python) → World pf → World pf
  save_backtest i f w = record w { backtests = pf.orm.save i f w.backtests }

  abbrev pub fail_with : String → Backtest python → Backtest python
  fail_with text b = record b { status = failed; error = text }

  abbrev pub start : Backtest python → Backtest python
  start b = record b { status = running; progress = 0 }

  abbrev pub with_progress : ℕ → Backtest python → Backtest python
  with_progress n b = record b { progress = n }

  -- `x if scored_trigger_count else None`
  abbrev pub if_scored : Score Float → Float → Option Float
  if_scored s x = if s.scored_trigger_count == 0 then none else some x

  abbrev pub complete : Score Float → Backtest python → Backtest python
  complete s b = record b {
    status = completed;
    progress = 100;
    trigger_count = some s.trigger_count;
    scored_trigger_count = some s.scored_trigger_count;
    win_count = some s.win_count;
    win_rate = if_scored s (times_100 (int_div s.win_count s.scored_trigger_count));
    total_forward_return = if_scored s s.total_forward_return;
  }

  -- the forward return in percent; `none` for a trigger too close to the end of the data
  unfoldable pub forward_return : List Bar → ℕ → ℕ → Result (Option Float)
  forward_return series horizon i =
      if ltb (i + horizon) (length series)
      then and_then (or_raise (get_elem? series i) index_error) (λ entry.
        and_then (or_raise (get_elem? series (i + horizon)) index_error) (λ exit.
          and_then
            (or_raise
              (div (sub (to_float exit.row.close) (to_float entry.row.close))
                (to_float entry.row.close))
              zero_division_error)
            (λ x. ok (some (times_100 x)))))
      else ok none

  -- the counters after a trigger
  unfoldable pub tally : Option Float → Score Float → Score Float
  tally none s = record s { trigger_count = s.trigger_count + 1 }
  tally (some x) s = record s {
    trigger_count = s.trigger_count + 1;
    total_forward_return = add s.total_forward_return x;
    scored_trigger_count = s.scored_trigger_count + 1;
    win_count = if lt zero_float x then s.win_count + 1 else s.win_count;
  }

  module _ (config : StrategyConfig python) (series : List Bar) (horizon : ℕ) where
    -- the body of the loop but for the report, at the candle `i`
    unfoldable pub judge_candle : ℕ → Score Float → Result (Score Float)
    judge_candle i s =
        and_then (triggers (evaluate python pf.talib config (closes pf (window series i))))
          (λ fired.
            if fired
            then and_then (forward_return series horizon i) (λ x. ok (tally x s))
            else ok s)

    module _ (backtest_id first n : ℕ) where
      abbrev pub report : ℕ → World pf → World pf
      report done w =
          if is_reported n done
          then save_backtest backtest_id (with_progress (percent n done)) w
          else w

      -- `for offset, i in enumerate(...)`, with that many candles left
      unfoldable pub loop : ℕ → ℕ → Score Float → Exec (World pf) (Score Float)
      loop zero offset s = pure s
      loop (suc left) offset s = do
        s' ← lift (judge_candle (first + offset) s)
        modify (report (offset + 1))
        loop left (offset + 1) s'

  abbrev pub no_score : Score Float
  no_score = record {
    trigger_count = 0;
    scored_trigger_count = 0;
    win_count = 0;
    total_forward_return = zero_float;
  }

  -- from the change to RUNNING on
  unfoldable pub run_series :
      Stored (Backtest python) → Strategy → List Bar → List Bar → Exec (World pf) Unit
  run_series b s warmup in_range = do
    tail ← gets (tail_of s b.row)
    modify (save_backtest b.id start)
    config ←
        lift (or_raise (model_validate python pf.pydantic s.config) (validation_error "config"))
    score ←
        loop config (warmup ++ in_range ++ tail) b.row.horizon_candles b.id (length warmup)
          (length in_range) (length in_range) 0 no_score
    modify (save_backtest b.id (complete score))

  abbrev pub no_candles : Currency → Strategy → Backtest python → String
  no_candles c s b = text_append "no candles ingested for " (
      text_append c.symbol (
        text_append " " (
          text_append s.interval (
            text_append " between " (
              text_append (python.isoformat b.start_time)
                (text_append " and " (python.isoformat b.end_time)))))))

  -- from the test of `in_range` on
  unfoldable pub run_range :
      Stored (Backtest python)
      → Stored Strategy
      → Currency
      → List Bar
      → List Bar
      → Exec (World pf) Unit
  unfolding run_series
  run_range b s c warmup [] = modify (save_backtest b.id (fail_with (no_candles c s.row b.row)))
  run_range b s c warmup (x ∷ in_range) = run_series b s.row warmup (x ∷ in_range)

  -- `run_backtest`
  unfoldable pub run_backtest : ℕ → Exec (World pf) Unit
  unfolding run_range
  run_backtest backtest_id = do
    b ← (λ w. (get pf.orm (has_id backtest_id) w.backtests, w))
    s ← (λ w. (get pf.orm (has_id b.row.strategy) w.strategies, w))
    c ← (λ w. (get pf.orm (has_id s.row.currency) w.currencies, w))
    if leb b.row.end_time b.row.start_time
        then modify (save_backtest b.id (fail_with "end_time must be after start_time"))
        else (λ w. run_range b s c.row (warmup_of s.row b.row w) (range_of s.row b.row w) w)

  -- `BacktestAdmin.run_backtest_action`
  unfoldable pub run_backtest_action : List ℕ → Exec (World pf) Unit
  run_backtest_action ids = modify (publish (map (λ i. Message.run_backtest i) ids))
