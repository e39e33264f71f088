-- ===== src/Tests/Strategy.antt =====
-- The strategy at the last of its candles, where it triggers, and its operators and configuration.
use Prim.Native.Nat.{min}
use cryptovira.Prelude.{
  ◌≡◌, ◌≢◌, ◌↔◌, ◌⊎◌, refl, true, false, none, some, List, [], ◌∷◌, ◌++◌, length, select, All,
  Permᴰ,
}
use cryptovira.Python.{whole, Whole}
use cryptovira.Exec.{Result, ok, err, Error}
use cryptovira.Orm.{Stored, IsOrdered, ascending}
use cryptovira.Orm.Merge.{merge}
use cryptovira.Orm.Memory.{create_in}
use cryptovira.Market.Models.{Candle}
use cryptovira.Strategy.Schema.{model_validate}
use cryptovira.Strategy.Schema.Shape.{IsConfig, model_validate_iff}
use cryptovira.Strategy.Schema.Validate.{model_validate-json, config_json}
use cryptovira.Strategy.Indicators.{compute}
use cryptovira.Strategy.Engine.{evaluate, evaluate_all, evaluate_condition, judge}
use cryptovira.Strategy.Operators.{apply_operator}
use cryptovira.Strategy.Engine.Meaning.{Holds, Stops, evaluate-true_iff, evaluate-Stops}
use cryptovira.Strategy.Tasks.{
  save_strategy, audit, history, is_bar_of, evaluate_strategy, evaluate_candles, write_evaluation,
  history_candle_count, of_candle,
}
use cryptovira.Strategy.Tasks.Save.{Saved, save_strategy_cases}
use cryptovira.Strategy.Models.{Strategy}
use cryptovira.Strategy.Tasks.History.{history-latest}
use cryptovira.Strategy.Tasks.Evaluate.{Ready, Evaluated, evaluate_strategy-Evaluated}
use cryptovira.Strategy.Tasks.Rerun.{evaluate_strategy_again}
use cryptovira.Signals.Services.{record_signal, create_or_get}
use cryptovira.World.{World, Message}
use cryptovira.World.Queries.{get, the_only}
use cryptovira.Tests.Sample.{
  platform, world, strategy, bar, rule, above_five, toy_talib, toy_pydantic, write_float,
}

abbrev rising : List Whole
rising = some 1 ∷ some 4 ∷ some 6 ∷ some 9 ∷ []

abbrev falling : List Whole
falling = some 9 ∷ some 4 ∷ []

float_reads : (x : Whole) → toy_pydantic.as_float (write_float x) ≡ some x
float_reads none = refl
float_reads (some n) = refl

some_condition : rule.conditions ≢ []
some_condition h = cc

model_validate-json_example :
    model_validate whole toy_pydantic (config_json whole toy_pydantic write_float rule) ≡ some rule
model_validate-json_example =
    model_validate-json whole toy_pydantic write_float float_reads (λ n. refl) rule some_condition

model_validate_iff_example :
    let json = config_json whole toy_pydantic write_float rule in
    (model_validate whole toy_pydantic json ≡ some rule) ↔ IsConfig whole toy_pydantic json rule
model_validate_iff_example =
    model_validate_iff whole toy_pydantic (config_json whole toy_pydantic write_float rule) rule

rule_valid :
    model_validate whole toy_pydantic (config_json whole toy_pydantic write_float rule) ≡ some rule
rule_valid =
    model_validate-json whole toy_pydantic write_float float_reads (λ n. refl) rule some_condition

evaluate-true_iff_example :
    (evaluate whole toy_talib rule rising ≡ ok true)
    ↔ All (Holds whole toy_talib rising) rule.conditions
evaluate-true_iff_example = evaluate-true_iff whole toy_talib rule rising

above_five-Holds : Holds whole toy_talib rising above_five
unfolding compute
above_five-Holds = record {
  front = some 1 ∷ some 4 ∷ [];
  x = some 6;
  y = some 9;
  computed = refl;
  usable = refl;
  accepted = refl;
}

abbrev fallen : List Whole
fallen = some 1 ∷ some 4 ∷ some 6 ∷ some 3 ∷ []

judged_at : audit (evaluate whole toy_talib rule rising) ≡ ok (true, "")
unfolding audit
judged_at = rw ((evaluate-true_iff whole toy_talib rule rising).1 (above_five-Holds, tt)) refl

not_above_five : (front : List Whole) (x y : Whole) → falling ≡ front ++ x ∷ y ∷ [] → y ≡ some 4
not_above_five [] x y h = cc
not_above_five (a ∷ []) x y h = cc
not_above_five (a ∷ b ∷ []) x y h = cc
not_above_five (a ∷ b ∷ c ∷ front) x y h = cc

falling-ne-true : evaluate whole toy_talib rule falling ≢ ok true
unfolding compute
falling-ne-true h =
    let holds = ((evaluate-true_iff whole toy_talib rule falling).0 h).0 in
    let at : falling ≡ holds.front ++ holds.x ∷ holds.y ∷ [] = cc (holds.computed) in
    refused holds.y (not_above_five holds.front holds.x holds.y at) holds.accepted
  where
    refused : (y : Whole) → y ≡ some 4 → whole.lt (some 5) y ≡ true → ⊥
    refused y e k = absurd (cc (rw e at k))

evaluate-Stops_example :
    Stops whole toy_talib falling rule.conditions (evaluate whole toy_talib rule falling)
evaluate-Stops_example = evaluate-Stops whole toy_talib rule falling falling-ne-true

abbrev bars_seen : List (Stored (Candle whole))
bars_seen =
    record { id = 2; row = bar 10 "4" }
    ∷ record { id = 3; row = bar 20 "6" }
    ∷ record { id = 4; row = bar 30 "9" }
    ∷ []

ready : Ready platform 1 world
unfolding get the_only history
ready = record {
  strategy = record { id = 1; row = strategy };
  first = record { id = 1; row = bar 0 "1" };
  others = bars_seen;
  latest = record { id = 4; row = bar 30 "9" };
  config = rule;
  verdict = (true, "");
  found = refl;
  seen = refl;
  is_latest = refl;
  valid = rule_valid;
  judged = judged_at;
}

evaluate_strategy-Evaluated_example :
    ((evaluate_strategy platform 1 world).0 ≡ ok tt)
    × Evaluated platform 1 30 (true, "") world (evaluate_strategy platform 1 world).1
unfolding ready
evaluate_strategy-Evaluated_example = evaluate_strategy-Evaluated platform 1 world ready tt tt

abbrev evaluated : World platform
evaluated = record world {
  evaluations = record {
    contents = record { strategy = 1; candle_open_time = 30; triggered = true; error = "" } ∷ [];
  };
  signals = record { contents = record { evaluation = 1 } ∷ [] };
  published = Message.dispatch_notifications 1 ∷ [];
}

run_once : evaluate_strategy platform 1 world ≡ (ok tt, evaluated)
unfolding evaluate_strategy evaluate_candles write_evaluation history get the_only merge
    record_signal create_or_get create_in
run_once = rw (rule_valid, judged_at) refl

-- after the first run, with another close at the last candle
abbrev changed : World platform
changed = record evaluated {
  candles = record { contents = bar 0 "1" ∷ bar 10 "4" ∷ bar 20 "6" ∷ bar 30 "3" ∷ [] };
}

judged_otherwise : audit (evaluate whole toy_talib rule fallen) ≡ ok (false, "")
unfolding audit evaluate evaluate_all evaluate_condition compute judge apply_operator
judged_otherwise = refl

-- The second run comes to the other verdict.
ready_again : Ready platform 1 changed
unfolding get the_only history
ready_again = record {
  strategy = record { id = 1; row = strategy };
  first = record { id = 1; row = bar 0 "1" };
  others =
      record { id = 2; row = bar 10 "4" }
      ∷ record { id = 3; row = bar 20 "6" }
      ∷ record { id = 4; row = bar 30 "3" }
      ∷ [];
  latest = record { id = 4; row = bar 30 "3" };
  config = rule;
  verdict = (false, "");
  found = refl;
  seen = refl;
  is_latest = refl;
  valid = rule_valid;
  judged = judged_otherwise;
}

evaluate_strategy_again_example :
    select (of_candle 1 30) (platform.orm.rows (evaluate_strategy platform 1 changed).1.evaluations)
    ≡ select (of_candle 1 30) (platform.orm.rows (evaluate_strategy platform 1 world).1.evaluations)
unfolding ready ready_again
evaluate_strategy_again_example =
    evaluate_strategy_again platform 1 world changed ready ready_again tt tt (rw run_once refl)
      (rw run_once refl) refl refl

abbrev without_candles : World platform
without_candles = record world { candles = record { contents = [] } }

abbrev stored : List (Stored (Candle whole))
stored = select (is_bar_of platform strategy) (platform.orm.rows world.candles)

history-latest_example :
    (older : List (Stored (Candle whole))) × Permᴰ (older ++ history platform strategy world) stored
    × IsOrdered ascending (λ c. c.open_time) (older ++ history platform strategy world)
    × (length (history platform strategy world) ≡ min history_candle_count (length stored))
history-latest_example = history-latest platform strategy world

abbrev accepts : Strategy → Result (Unit {0})
accepts s = ok tt

save_strategy_cases_example :
    ((e : Error) × (save_strategy platform accepts strategy world ≡ (err e, world))
      × ((accepts strategy ≢ ok tt) ⊎ (model_validate whole toy_pydantic strategy.config ≡ none)))
    ⊎ Saved platform strategy world (save_strategy platform accepts strategy world)
save_strategy_cases_example = save_strategy_cases platform accepts strategy world
