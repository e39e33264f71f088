-- ===== src/Tests/Signals.antt =====
-- The signal of the sample's strategy, its dispatch to two recipients, and the delivery to the first
-- of them by a channel that fails at the first two tries.
use cryptovira.Prelude.{
  ℕ, ltb, ◌≡◌, refl, true, Option, some, List, ◌++◌, map, select, any, All, Each, Permᴰ,
  if◌then◌else◌, String, arith,
}
use cryptovira.Orm.{Stored}
use cryptovira.Orm.Merge.{IsUnique}
use cryptovira.Strategy.Models.{StrategyEvaluation}
use cryptovira.Signals.Models.{NotificationDelivery, new_delivery, same_delivery}
use cryptovira.Signals.Channels.{Post, accepted, http_failed}
use cryptovira.Signals.Services.Record.{Recorded, record_signal-Recorded}
use cryptovira.Signals.Tasks.{is_recipient, is_queued, dispatch_notifications, send_notification}
use cryptovira.Signals.Tasks.Dispatch.{
  Owned, dispatch_notifications-present, dispatch_notifications-append,
  dispatch_notifications-published,
}
use cryptovira.Signals.Tasks.Delivery.{Advanced, send_notification-Advanced}
use cryptovira.Signals.Tasks.Retries.{Finished, run_to_end, run_to_end-Finished}
use cryptovira.World.{World, Message}
use cryptovira.World.Matches.{contents}
use cryptovira.World.Queries.{get, the_only}
use cryptovira.Tests.Sample.{platform, world, signalled, strategy}

abbrev evaluation : Stored StrategyEvaluation
evaluation = record {
  id = 1;
  row = record { strategy = 1; candle_open_time = 30; triggered = true; error = "" };
}

record_signal-Recorded_example : Recorded platform evaluation world
record_signal-Recorded_example = record_signal-Recorded platform evaluation world tt

owned : Owned platform 1 signalled
unfolding get the_only
owned = record {
  signal = record { id = 1; row = record { evaluation = 1 } };
  evaluation = evaluation;
  strategy = record { id = 1; row = strategy };
  signal_found = refl;
  evaluation_found = refl;
  strategy_found = refl;
}

abbrev dispatched : World platform
dispatched = (dispatch_notifications platform 1 signalled).1

dispatch_notifications-present_example :
    All
      (λ r.
        any
          (same_delivery (new_delivery 1 r.id))
          (contents (platform.orm.rows dispatched.deliveries))
        ≡ true)
      (select (is_recipient 7) (platform.orm.rows signalled.recipients))
    × IsUnique same_delivery (contents (platform.orm.rows dispatched.deliveries))
unfolding owned
dispatch_notifications-present_example =
    dispatch_notifications-present platform 1 signalled owned ((refl, tt), (tt, tt))

dispatch_notifications-append_example :
    (more : List (Stored NotificationDelivery)) × (platform.orm.rows dispatched.deliveries
      ≡ platform.orm.rows signalled.deliveries ++ more)
    × All (λ d. d ≡ new_delivery 1 d.recipient) (contents more)
unfolding owned
dispatch_notifications-append_example = dispatch_notifications-append platform 1 signalled owned

dispatch_notifications-published_example :
    (messages : List Message) × (dispatched.published ≡ signalled.published ++ messages)
    × Permᴰ messages (
        map
          (λ d. Message.send_notification d.id 0 0)
          (select (is_queued 1) (platform.orm.rows dispatched.deliveries)))
unfolding owned
dispatch_notifications-published_example =
    dispatch_notifications-published platform 1 signalled owned

abbrev answers : Post
answers url body = accepted

abbrev fails : Post
fails url body = http_failed "503"

abbrev token : Option String
token = some "t"

send_notification-Advanced_example :
    Each
      (Advanced 1)
      (platform.orm.rows signalled.deliveries)
      (platform.orm.rows (send_notification platform token fails 2 1 signalled).1.deliveries)
send_notification-Advanced_example = send_notification-Advanced platform token fails 2 1 signalled

abbrev flaky : ℕ → Post
flaky try = if ltb try 2 then fails else answers

run_to_end-Finished_example :
    Finished platform 1 (run_to_end platform token flaky (λ try w. w) 6 0 1 signalled)
run_to_end-Finished_example =
    run_to_end-Finished platform token flaky (λ try w. w) 6 0 1 signalled (omega arith)
      (omega arith)
