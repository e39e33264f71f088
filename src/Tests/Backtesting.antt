-- ===== src/Tests/Backtesting.antt =====
-- The sample's backtest: three candles in its period, one candle of warm-up, triggers at the last
-- two of them, and one of those scored.
use cryptovira.Prelude.{
  ℕ, ◌+◌, ◌/◌, ◌≡◌, ◌≢◌, refl, Bool, true, false, inl, inr, none, some, List, [], ◌∷◌, ◌++◌, All,
  ◌==◌, arith,
}
use cryptovira.Orm.{Stored}
use cryptovira.Market.Models.{Candle}
use cryptovira.Strategy.Schema.{Condition, model_validate}
use cryptovira.Strategy.Indicators.{compute}
use cryptovira.Strategy.Engine.{evaluate, evaluate_all, evaluate_condition, judge}
use cryptovira.Strategy.Operators.{apply_operator}
use cryptovira.Backtesting.Tasks.{
  Score, window, start, save_backtest, no_score, loop, judge_candle, triggers, forward_return,
  tally, complete, run_backtest, run_range, run_series, warmup_of, range_of, tail_of,
}
use cryptovira.Backtesting.Tasks.Progress.{Left, loop-Left}
use cryptovira.Backtesting.Tasks.Totals.{added, hits, loop-added}
use cryptovira.Backtesting.Tasks.Run.{Touched, run_backtest-Touched}
use cryptovira.Backtesting.Tasks.Outcome.{Loaded, Outcome, run_backtest-Outcome}
use cryptovira.Backtesting.Tasks.Finish.{run_backtest-ok}
use cryptovira.Exec.{Result, ok, err, Error}
use cryptovira.Strategy.Engine.Meaning.{Stops, Raises, evaluate-Stops}
use cryptovira.Backtesting.Tasks.Rerun.{SameResults, run_backtest-SameResults}
use cryptovira.Backtesting.Models.{Backtest, failed}
use cryptovira.World.{World}
use cryptovira.World.Queries.{get, the_only}
use cryptovira.Python.{whole, Whole, divide}
use cryptovira.Tests.Sample.{
  platform, world, strategy, backtest, bitcoin, bar, rule, above_five, toy_talib,
}

abbrev bars : List (Stored (Candle whole))
bars =
    record { id = 1; row = bar 0 "1" }
    ∷ record { id = 2; row = bar 10 "4" }
    ∷ record { id = 3; row = bar 20 "6" }
    ∷ record { id = 4; row = bar 30 "12" }
    ∷ []

abbrev result : Score Whole
result = record {
  trigger_count = 2;
  scored_trigger_count = 1;
  win_count = 1;
  total_forward_return = some 100;
}

loop-Left_example : Left platform rule bars 1 1 1 3 (
    loop platform rule bars 1 1 1 3 3 0
      (no_score platform)
      (save_backtest platform 1 (start platform) world))
loop-Left_example = loop-Left platform rule bars 1 1 1 3 (no_score platform) world (omega arith)

loop-added_example :
    result ≡ added platform rule bars 1 (hits platform rule bars 1 (1 + 0) 3) (no_score platform)
unfolding loop judge_candle window evaluate evaluate_all evaluate_condition compute judge
    apply_operator triggers forward_return tally
loop-added_example = loop-added platform rule bars 1 1 1 3 3 0 (no_score platform) world result refl

run_backtest-Touched_example : Touched platform 1 world (run_backtest platform 1 world).1
run_backtest-Touched_example = run_backtest-Touched platform 1 world

loaded : Loaded platform 1 world
unfolding get the_only
loaded = record {
  backtest = record { id = 1; row = backtest };
  strategy = record { id = 1; row = strategy };
  currency = record { id = 1; row = bitcoin };
  backtest_found = refl;
  strategy_found = refl;
  currency_found = refl;
}

run_backtest-Outcome_example :
    All
      (λ x. (x.id == 1) ≡ true → Outcome platform loaded x.row)
      (platform.orm.rows (run_backtest platform 1 world).1.backtests)
unfolding run_backtest run_range run_series warmup_of range_of tail_of get the_only model_validate
    loop judge_candle window evaluate evaluate_all evaluate_condition compute judge apply_operator
    triggers forward_return tally
run_backtest-Outcome_example = run_backtest-Outcome platform 1 world loaded refl

-- what the candles of the sample come to
abbrev counted : Score Whole
counted = record result { win_count = 0; total_forward_return = some 0 }

-- the same backtest after a run that failed
abbrev stale : Backtest whole
stale = record backtest { status = failed; error = "no candles"; progress = 40 }

abbrev failed_before : World platform
failed_before = record world { backtests = record { contents = stale ∷ [] } }

loaded_again : Loaded platform 1 failed_before
unfolding get the_only
loaded_again = record {
  backtest = record { id = 1; row = stale };
  strategy = record { id = 1; row = strategy };
  currency = record { id = 1; row = bitcoin };
  backtest_found = refl;
  strategy_found = refl;
  currency_found = refl;
}

run_backtest-SameResults_example :
    SameResults platform (complete platform counted backtest) (complete platform counted stale)
unfolding run_backtest run_range run_series warmup_of range_of tail_of get the_only model_validate
    loop judge_candle window evaluate evaluate_all evaluate_condition compute judge apply_operator
    triggers forward_return tally loaded loaded_again
run_backtest-SameResults_example =
    run_backtest-SameResults platform 1 1 world failed_before loaded loaded_again refl refl refl
      refl refl refl refl (record { id = 1; row = complete platform counted backtest })
      (record { id = 1; row = complete platform counted stale }) refl refl refl

divides : (n : ℕ) → (n == 0) ≡ false → (x : Whole) → (y : Whole) × (divide x (some n) ≡ some y)
divides n h none = (none, rw h refl)
divides n h (some a) = (some (a / n), rw h refl)

only_rule :
    (before after : List (Condition whole)) (c : Condition whole)
    → rule.conditions ≡ before ++ c ∷ after
    → c ≡ above_five
only_rule [] after c h = cc h
only_rule (b ∷ []) after c h = cc h
only_rule (b ∷ b' ∷ before) after c h = cc h

no_other_error :
    (close : List Whole) (c : Condition whole) (e : Error)
    → c ≡ above_five
    → Raises whole toy_talib close c e
    → triggers (err e) ≡ ok false
unfolding compute triggers
no_other_error close c e is (inl h) = let k : ok close ≡ err e = rw is at h in cc k
no_other_error close c e is (inr (_, _, _, (_, _, h))) = rw h refl

judged :
    (close : List Whole) (r : Result Bool)
    → (r ≢ ok true → Stops whole toy_talib close rule.conditions r)
    → (b : Bool) × (triggers r ≡ ok b)
unfolding triggers
judged close (ok b) stops = (b, refl)
judged close (err e) stops =
    let s = stops (λ h. cc h) in
    (false, no_other_error close s.at e (only_rule s.before s.after s.at s.split) s.ended)

valid : model_validate whole platform.pydantic strategy.config ≡ some rule
unfolding model_validate
valid = refl

run_backtest-ok_example : (run_backtest platform 1 world).0 ≡ ok tt
unfolding loaded
run_backtest-ok_example =
    run_backtest-ok platform world rule
      (divides 1 refl, (divides 4 refl, (divides 6 refl, (divides 9 refl, tt))))
      (λ close.
        judged close (evaluate whole toy_talib rule close)
          (evaluate-Stops whole toy_talib rule close))
      1 loaded valid
