-- ===== src/Concurrent/Alone/Sending.antt =====
-- `dispatch_notifications` and `send_notification`, run alone.
use cryptovira.Prelude.{ℕ, String, refl, Option, map, leb, Bool-cases, inl, inr}
use cryptovira.Exec.{Result, ok, err, channel_delivery_error}
use cryptovira.Orm.{Stored}
use cryptovira.Signals.Models.{NotificationDelivery, is_sent}
use cryptovira.Signals.Channels.{Post}
use cryptovira.Signals.Services.{build_message_context}
use cryptovira.Signals.Tasks.{
  is_recipient, is_queued, deliveries_for, dispatch_notifications, fan_out_deliveries,
  send_notification, attempt, settle, max_retries,
}
use cryptovira.World.{Platform, Message}
use cryptovira.Concurrent.{run}
use cryptovira.Concurrent.Programs
use cryptovira.Concurrent.Programs.{Program}
use cryptovira.Concurrent.Alone.{Alone, Alone-ask, Alone-if, Alone-and_then, publish_each-run}

module _ (pf : Platform) where
  pub dispatch-Alone : (i : ℕ) → Alone pf (Programs.dispatch pf i) (dispatch_notifications pf i)
  unfolding run Programs.dispatch dispatch_notifications fan_out_deliveries
  dispatch-Alone i = Alone-ask pf _ _ _ (λ signal. Alone-ask pf _ _ _ (λ evaluation.
      Alone-ask pf _ _ _ (λ strategy. record {
        at = λ w.
            let deliveries =
              pf.orm.bulk_create
                (deliveries_for pf signal.id
                  (pf.orm.filter (is_recipient strategy.row.user) w.recipients))
                w.deliveries in
            publish_each-run pf
              (map (λ d. Message.send_notification d.id 0 0)
                (pf.orm.filter (is_queued signal.id) deliveries))
              (record w { deliveries = deliveries });
      })))

  conclude-Alone :
      (retries : ℕ) (d : Stored NotificationDelivery) (r : Result (Unit {0}))
      → Alone pf (Programs.conclude pf retries d r) (settle pf retries d r)
  unfolding run Programs.conclude settle
  conclude-Alone retries d (ok _) = record { at = λ w. refl }
  conclude-Alone retries d (err (channel_delivery_error text)) = record {
    at = λ w. elim (Bool-cases (leb max_retries retries)) [ inl e ↦ rw e refl | inr e ↦ rw e refl ];
  }
  conclude-Alone retries d (err e) = record { at = λ w. refl }

  module _ (token : Option String) (post : Post) where
    try_delivery-Alone :
        (retries : ℕ) (d : Stored NotificationDelivery)
        → Alone pf (Programs.try_delivery pf token post retries d) (attempt pf token post retries d)
    unfolding Programs.try_delivery attempt build_message_context
    try_delivery-Alone retries d = Alone-ask pf _ _ _ (λ recipient. Alone-ask pf _ _ _ (λ signal.
        Alone-and_then pf _ _ _ _ (λ evaluation. Alone-and_then pf _ _ _ _ (λ strategy.
          Alone-and_then pf _ _ _ _ (λ currency. Alone-and_then pf _ _ _ _ (λ candle.
            Alone-ask pf _ _ _
              (λ channel. Alone-ask pf _ _ _ (λ outcome. conclude-Alone retries d outcome))))))))

    pub deliver-Alone :
        (retries i : ℕ)
        → Alone pf
            (Programs.deliver pf token post retries i)
            (send_notification pf token post retries i)
    unfolding run Programs.deliver send_notification
    deliver-Alone retries i = Alone-ask pf _ _ _ (λ d.
        Alone-if pf (is_sent d.row.status) _ _ _ _ (record { at = λ w. refl })
          (try_delivery-Alone retries d))
