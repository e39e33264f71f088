-- ===== src/Backtesting/Tasks/Finish.antt =====
-- When `run_backtest` ends without an exception.
use cryptovira.Prelude.{
  ℕ, zero, suc, ◌+◌, ◌≤◌, ◌<◌, ◌≡◌, refl, Bool, Option, none, some, List, [], ◌∷◌, ◌++◌, take,
  length, length-append, get_elem?, All, All-append, All-of_select, perm-All, ltb, leb, Bool-cases,
  inl, inr, arith,
}
use cryptovira.Exec.{Result, ok, err, continue, modify}
use cryptovira.Orm.{Stored, Direction, ascending, descending}
use cryptovira.Market.Models.{Currency}
use cryptovira.Strategy.Schema.{StrategyConfig, model_validate}
use cryptovira.Strategy.Engine.{evaluate}
use cryptovira.Strategy.Models.{Strategy}
use cryptovira.Strategy.Tasks.{closes, history_candle_count}
use cryptovira.Backtesting.Models.{Backtest}
use cryptovira.Backtesting.Tasks.{
  Score, Bar, window, triggers, forward_return, tally, judge_candle, report, loop, no_score, start,
  save_backtest, complete, run_series, run_range, run_backtest, warmup_of, range_of, tail_of,
}
use cryptovira.Backtesting.Tasks.Outcome.{Loaded}
use cryptovira.World.{Platform, World}
use mathlib.Core.List.Permᴰ

All-take : {A : Type 0} (P : A → Type 0) (n : ℕ) (xs : List A) → All P xs → All P (take n xs)
All-take P zero xs h = tt
All-take P (suc n) [] h = tt
All-take P (suc n) (x ∷ xs) h = (h.0, All-take P n xs h.1)

get_elem?-All :
    {A : Type 0} (P : A → Type 0) (xs : List A) (i : ℕ)
    → i < length xs
    → All P xs
    → (x : A) × (get_elem? xs i ≡ some x) × P x
get_elem?-All P [] i h all = absurd (omega arith)
get_elem?-All P (x ∷ xs) zero h all = (x, refl, all.0)
get_elem?-All P (x ∷ xs) (suc i) h all = get_elem?-All P xs i (omega arith) all.1

module _ (pf : Platform) where
  open pf use {python}
  open python use {Float, to_float, div}

  -- A return relative to that close is defined.
  abbrev pub IsDivisor : Bar pf → Type 0
  IsDivisor c = (x : Float) → (y : Float) × (div x (to_float c.row.close) ≡ some y)

  ordered-All :
      (P : Bar pf → Type 0) (d : Direction) (p : Bar pf → Bool) (w : World pf)
      → All P (pf.orm.rows w.candles)
      → All P (pf.orm.order_by d (λ c. c.open_time) (pf.orm.filter p w.candles))
  ordered-All P d p w h =
      perm-All P (Permᴰ.symm (pf.orm.order_by_law d (λ c. c.open_time) (pf.orm.filter p w.candles)))
        (perm-All P (Permᴰ.symm (pf.orm.filter_law p w.candles))
          (All-of_select P p (pf.orm.rows w.candles) h))

  module _ (config : StrategyConfig python) (series : List (Bar pf)) (horizon : ℕ)
      (all : All IsDivisor series)
      (judges : (close : List Float)
        → (b : Bool) × (triggers (evaluate python pf.talib config close) ≡ ok b)) where
    forward_return-ok :
        (i : ℕ)
        → i < length series
        → (r : Option Float) × (forward_return pf series horizon i ≡ ok r)
    unfolding forward_return
    forward_return-ok i h = elim (Bool-cases (ltb (i + horizon) (length series))) [
      | inr e ↦ (none, rw e refl)
      | inl e ↦
          let (entry, at, divisor) = get_elem?-All IsDivisor series i h all in
          let (exit, at', _) = get_elem?-All IsDivisor series (i + horizon) (ground arith) all in
          let (y, divided) =
            divisor (python.sub (to_float exit.row.close) (to_float entry.row.close)) in
          (some (python.times_100 y), rw (e, at, at', divided) refl)
    ]

    judge_candle-ok :
        (i : ℕ) (s : Score Float)
        → i < length series
        → (s' : Score Float) × (judge_candle pf config series horizon i s ≡ ok s')
    unfolding judge_candle
    judge_candle-ok i s h =
        let (fired, judged) = judges (closes pf (window series i)) in
        elim (Bool-cases fired) [
          | inr e ↦ (s, rw (judged, e) refl)
          | inl e ↦
              let (r, returned) = forward_return-ok i h in
              (tally pf r s, rw (judged, e, returned) refl)
        ]

    loop-ok :
        (backtest_id first n left offset : ℕ) (s : Score Float) (w : World pf)
        → first + offset + left ≤ length series
        → (s' : Score Float) × ((loop pf config series horizon backtest_id first n left offset s
              w).0
            ≡ ok s')
    unfolding loop
    loop-ok backtest_id first n zero offset s w h = (s, refl)
    loop-ok backtest_id first n (suc left) offset s w h =
        let (s₁, judged) = judge_candle-ok (first + offset) s (omega arith) in
        let (s', done) =
          loop-ok backtest_id first n left (offset + 1) s₁
            (report pf config series horizon backtest_id first n (offset + 1) w) (omega arith) in
        (s', rw judged done)

  ends_ok :
      (i : ℕ) (out : Result (Score Float) × World pf) (s : Score Float)
      → out.0 ≡ ok s
      → (continue out (λ s. modify (save_backtest pf i (complete pf s)))).0 ≡ ok tt
  ends_ok i (ok s', w) s h = refl
  ends_ok i (err e, w) s h = cc h

  module _ (w : World pf) (config : StrategyConfig python)
      (all : All IsDivisor (pf.orm.rows w.candles))
      (judges : (close : List Float)
        → (b : Bool) × (triggers (evaluate python pf.talib config close) ≡ ok b)) where
    run_series-ok :
        (b : Stored (Backtest python)) (s : Strategy) (warmup candles : List (Bar pf))
        → model_validate python pf.pydantic s.config ≡ some config
        → All IsDivisor warmup
        → All IsDivisor candles
        → (run_series pf b s warmup candles w).0 ≡ ok tt
    unfolding run_series tail_of
    run_series-ok b s warmup candles valid before within =
        let tail = tail_of pf s b.row w in
        let divisors : All IsDivisor (warmup ++ candles ++ tail) =
          All-append IsDivisor (warmup ++ candles) tail
            (All-append IsDivisor warmup candles before within)
            (All-take IsDivisor b.row.horizon_candles _
              (ordered-All IsDivisor ascending _ w all)) in
        let n : length (warmup ++ candles ++ tail) ≡ length (warmup ++ candles) + length tail =
          length-append (warmup ++ candles) tail in
        let m : length (warmup ++ candles) ≡ length warmup + length candles =
          length-append warmup candles in
        let (score, done) =
          loop-ok config (warmup ++ candles ++ tail) b.row.horizon_candles divisors judges b.id
            (length warmup) (length candles) (length candles) 0 (no_score pf)
            (save_backtest pf b.id (start pf) w) (omega arith) in
        rw valid (ends_ok b.id _ score done)

    run_range-ok :
        (b : Stored (Backtest python)) (s : Stored Strategy) (c : Currency)
        (warmup candles : List (Bar pf))
        → model_validate python pf.pydantic s.row.config ≡ some config
        → All IsDivisor warmup
        → All IsDivisor candles
        → (run_range pf b s c warmup candles w).0 ≡ ok tt
    unfolding run_range
    run_range-ok b s c warmup [] valid before within = refl
    run_range-ok b s c warmup (x ∷ candles) valid before within =
        run_series-ok b s.row warmup (x ∷ candles) valid before within

    -- Where a backtest, its strategy and its currency are stored and the configuration is valid, a
    -- run ends without an exception if no evaluation of the configuration raises anything but
    -- `InsufficientDataError`, and every stored candle's close can be divided by.
    pub run_backtest-ok :
        (i : ℕ) (l : Loaded pf i w)
        → model_validate python pf.pydantic l.strategy.row.config ≡ some config
        → (run_backtest pf i w).0 ≡ ok tt
    unfolding run_backtest warmup_of range_of
    run_backtest-ok i l valid =
        rw (l.backtest_found, l.strategy_found, l.currency_found)
          (elim (Bool-cases (leb l.backtest.row.end_time l.backtest.row.start_time)) [
            | inl e ↦ rw e refl
            | inr e ↦ rw e (
                run_range-ok l.backtest l.strategy l.currency.row _ _ valid
                  (perm-All IsDivisor (Permᴰ.symm (Permᴰ.reverse _)) (
                    All-take IsDivisor history_candle_count _
                      (ordered-All IsDivisor descending _ w all)))
                  (ordered-All IsDivisor ascending _ w all))
          ])
