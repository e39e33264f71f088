-- ===== src/Tests/System.antt =====
-- The sample from an evaluation to the delivery of its signal, and a backtest beside live
-- evaluations.
use cryptovira.Prelude.{
  ℕ, ◌+◌, ◌≡◌, refl, Bool, true, if◌then◌else◌, List, [], ◌∷◌, ◌++◌, select, All, Option, some,
  String, length,
}
use cryptovira.Python.{whole}
use cryptovira.Exec.{ok}
use cryptovira.Orm.{Stored}
use cryptovira.Market.Models.{Currency, Candle}
use cryptovira.Strategy.Schema.{model_validate}
use cryptovira.Strategy.Indicators.{compute}
use cryptovira.Strategy.Engine.{evaluate, evaluate_all, evaluate_condition, judge}
use cryptovira.Strategy.Operators.{apply_operator}
use cryptovira.Strategy.Tasks.{audit, history, evaluate_strategy}
use cryptovira.Strategy.Tasks.Evaluate.{Ready}
use cryptovira.Signals.Models.{Signal, channel_of, telegram, webhook}
use cryptovira.Signals.Channels.{Post, accepted, http_failed, send}
use cryptovira.Signals.Tasks.{is_recipient, dispatch_notifications, send_notification}
use cryptovira.Backtesting.Tasks.{window, warmup_of, range_of, tail_of}
use cryptovira.Backtesting.Tasks.Replay.{window-eq-history, fires-eq-verdict}
use cryptovira.Backtesting.Tasks.Totals.{fires}
use cryptovira.Admin.{
  Deed, Edit, Page, Form, AdminSite, has_permission, deed, page, saved, post_all,
}
use cryptovira.Admin.Audit.{AuditKept, post_all-Sound}
use cryptovira.World.{World, Message}
use cryptovira.World.Queries.{get, the_only}
use cryptovira.System.{here, later, Step}
use cryptovira.System.Invariant.{Sound, Grown}
use cryptovira.System.Reachable.{Reach-Sound}
use cryptovira.System.Arrival.{deliver_all}
use cryptovira.System.FirstDispatch.{Received}
use cryptovira.System.EndToEnd.{Accepting, evaluate_strategy-Received}
use mathlib.Core.List.Permᴰ
use cryptovira.Tests.Sample.{platform, world, bitcoin, strategy, recipient, backtest, bar, rule}

abbrev fails : Post
fails url body = http_failed "503"

abbrev answers : Post
answers url body = accepted

abbrev token : Option String
token = some "t"

pub world-Sound : Sound platform world
unfolding model_validate
world-Sound = record {
  candles_unique = ((refl, (refl, (refl, tt))), ((refl, (refl, tt)), ((refl, tt), (tt, tt))));
  evaluations_unique = tt;
  signals_unique = tt;
  deliveries_unique = tt;
  backed = tt;
  signalled = tt;
  configured = ((rule, refl), tt);
}

abbrev evaluated : World platform
evaluated = (evaluate_strategy platform 1 world).1

abbrev dispatched : World platform
dispatched = (dispatch_notifications platform 1 evaluated).1

abbrev tried : World platform
tried = (send_notification platform token fails 0 1 dispatched).1

Reach-Sound_example : Sound platform tried × Grown platform world tried
Reach-Sound_example =
    Reach-Sound platform world tried
      (later (later (later here (Step.assess 1)) (Step.dispatch 1))
        (Step.attempt_delivery token fails 0 1))
      world-Sound

-- the state in which the second candle of the backtest's period was the latest
abbrev back_then : World platform
back_then = record world {
  candles = record { contents = bar 0 "1" ∷ bar 10 "4" ∷ bar 20 "6" ∷ [] };
}

abbrev second : Stored (Candle whole)
second = record { id = 2; row = bar 10 "4" }

abbrev third : Stored (Candle whole)
third = record { id = 3; row = bar 20 "6" }

abbrev fourth : Stored (Candle whole)
fourth = record { id = 4; row = bar 30 "9" }

ready : Ready platform 1 back_then
unfolding get the_only history model_validate audit evaluate evaluate_all evaluate_condition compute
    judge apply_operator
ready = record {
  strategy = record { id = 1; row = strategy };
  first = record { id = 1; row = bar 0 "1" };
  others = second ∷ third ∷ [];
  latest = third;
  config = rule;
  verdict = (true, "");
  found = refl;
  seen = refl;
  is_latest = refl;
  valid = refl;
  judged = refl;
}

abbrev series : List (Stored (Candle whole))
series =
    warmup_of platform strategy backtest world
    ++ range_of platform strategy backtest world
    ++ tail_of platform strategy backtest world

abbrev index : ℕ
index = length (warmup_of platform strategy backtest world) + 1

window-eq-history_example : window series index ≡ history platform strategy back_then
unfolding range_of
window-eq-history_example =
    window-eq-history platform strategy backtest world back_then (second ∷ []) (fourth ∷ []) third
      refl (Permᴰ.refl _) ((refl, (refl, (refl, tt))), ((refl, (refl, tt)), ((refl, tt), (tt, tt))))
      ((refl, (refl, tt)), ((refl, tt), (tt, tt)))

fires-eq-verdict_example : fires platform rule series 1 index ≡ true
unfolding range_of ready
fires-eq-verdict_example =
    fires-eq-verdict platform strategy backtest world back_then (second ∷ []) (fourth ∷ []) third 1
      1 ready refl refl (Permᴰ.refl _)
      ((refl, (refl, (refl, tt))), ((refl, (refl, tt)), ((refl, tt), (tt, tt))))
      ((refl, (refl, tt)), ((refl, tt), (tt, tt)))

abbrev coin : Stored Currency
coin = record { id = 1; row = bitcoin }

to_telegram : Accepting token answers (recipient "telegram")
unfolding channel_of send
to_telegram = record { channel = telegram; known = refl; takes = λ message. refl }

to_webhook : Accepting token answers (recipient "webhook")
unfolding channel_of send
to_webhook = record { channel = webhook; known = refl; takes = λ message. refl }

ready_now : Ready platform 1 world
unfolding get the_only history model_validate audit evaluate evaluate_all evaluate_condition compute
    judge apply_operator
ready_now = record {
  strategy = record { id = 1; row = strategy };
  first = record { id = 1; row = bar 0 "1" };
  others = second ∷ third ∷ fourth ∷ [];
  latest = fourth;
  config = rule;
  verdict = (true, "");
  found = refl;
  seen = refl;
  is_latest = refl;
  valid = refl;
  judged = refl;
}

evaluate_strategy-Received_example :
    (x : Stored Signal) × (messages : List Message) × (evaluated.published
      ≡ world.published ++ Message.dispatch_notifications x.id ∷ [])
    × (let after = (dispatch_notifications platform x.id evaluated).1 in
        (after.published ≡ evaluated.published ++ messages)
        × All
            (λ y. Received platform x.id y.id (deliver_all platform token answers messages after))
            (select (is_recipient 7) (platform.orm.rows world.recipients)))
unfolding get the_only ready_now
evaluate_strategy-Received_example =
    evaluate_strategy-Received platform 1 world world-Sound ready_now coin refl refl refl token
      answers (to_telegram, (to_webhook, tt))

abbrev superuser : Deed → Page → Bool
superuser deed page = true

abbrev forms : List (Form platform)
forms =
    Form.write_candles Deed.delete (record { contents = [] })
    ∷ Form.write_recipients Edit.changing (record { contents = recipient "webhook" ∷ [] })
    ∷ Form.alter_strategy (λ s. ok tt) 1 strategy
    ∷ Form.change_backtest 1
        (record { strategy = 1; start_time = 0; end_time = 40; horizon_candles = 2 })
    ∷ Form.add_backtest
        (record { strategy = 1; start_time = 0; end_time = 40; horizon_candles = 0 })
    ∷ Form.write_signals Deed.add (record { contents = record { evaluation = 9 } ∷ [] })
    ∷ []

plain_site : AdminSite platform
plain_site = record {
  granted = superuser;
  post = λ f w.
      if has_permission superuser (deed platform f) (page platform f)
      then saved platform f w
      else w;
  denied = λ f w no_permission. rw no_permission refl;
  permitted = λ f w permission. rw permission refl;
}

post_all-Sound_example :
    AuditKept platform world (post_all platform plain_site forms world)
    × Sound platform (post_all platform plain_site forms world)
post_all-Sound_example = post_all-Sound platform plain_site forms world world-Sound
