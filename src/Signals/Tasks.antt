-- ===== src/Signals/Tasks.antt =====
-- apps/signals/tasks.py, and the admin action that runs `send_notification` again.
pub mod Dispatch
pub mod Delivery
pub mod Retries
use cryptovira.Prelude.{
  ℕ, ◌+◌, String, Bool, ◌&&◌, Option, List, [], ◌∷◌, map, leb, ◌==◌, if◌then◌else◌,
}
use cryptovira.Exec.{
  Exec, Result, ok, err, Error, value_error, channel_delivery_error, retry, or_raise, pure, lift,
  modify, ◌>>=◌, ◌>>◌,
}
use cryptovira.Orm.{Stored}
use cryptovira.Signals.Models.{
  Signal, NotificationRecipient, NotificationDelivery, new_delivery, is_sent, is_pending, sent,
  failed, channel_of, Channel,
}
use cryptovira.Signals.Messages.{render_signal_message}
use cryptovira.Signals.Services.{build_message_context}
use cryptovira.Signals.Channels.{Post, send}
use cryptovira.World.{Platform, World, Message, publish}
use cryptovira.World.Queries.{get, has_id}

abbrev pub is_recipient : ℕ → Stored NotificationRecipient → Bool
is_recipient user s = s.row.user == user && s.row.is_active

abbrev pub is_queued : ℕ → Stored NotificationDelivery → Bool
is_queued signal s = s.row.signal == signal && is_pending s.row.status

-- `max_retries` of `send_notification`
abbrev pub max_retries : ℕ
max_retries = 5

module _ (pf : Platform) where
  abbrev pub deliveries_for : ℕ → List (Stored NotificationRecipient) → List NotificationDelivery
  deliveries_for signal recipients = map (λ r. new_delivery signal r.id) recipients

  -- the writes of `dispatch_notifications`, once the signal's owner is known
  unfoldable pub fan_out_deliveries : ℕ → ℕ → Exec (World pf) Unit
  fan_out_deliveries signal user = do
    modify (λ w. record w {
      deliveries =
          pf.orm.bulk_create
            (deliveries_for signal (pf.orm.filter (is_recipient user) w.recipients)) w.deliveries;
    })
    modify (λ w.
        publish
          (map (λ d. Message.send_notification d.id 0 0)
            (pf.orm.filter (is_queued signal) w.deliveries))
          w)

  -- `dispatch_notifications`
  unfoldable pub dispatch_notifications : ℕ → Exec (World pf) Unit
  dispatch_notifications signal_id = do
    signal ← (λ w. (get pf.orm (has_id signal_id) w.signals, w))
    evaluation ← (λ w. (get pf.orm (has_id signal.row.evaluation) w.evaluations, w))
    strategy ← (λ w. (get pf.orm (has_id evaluation.row.strategy) w.strategies, w))
    fan_out_deliveries signal.id strategy.row.user

  -- `delivery.save(update_fields=...)`
  abbrev pub save_delivery : ℕ → (NotificationDelivery → NotificationDelivery) → World pf → World pf
  save_delivery i f w = record w { deliveries = pf.orm.save i f w.deliveries }

  -- What `send_notification` writes after a failed attempt, in the last of its tries and before,
  -- and after a success. `attempts` is what the task read, and one.
  abbrev pub gave_up : ℕ → String → NotificationDelivery → NotificationDelivery
  gave_up n text d = record d { attempts = n + 1; last_error = text; status = failed }

  abbrev pub missed : ℕ → String → NotificationDelivery → NotificationDelivery
  missed n text d = record d { attempts = n + 1; last_error = text }

  abbrev pub delivered : ℕ → NotificationDelivery → NotificationDelivery
  delivered n d = record d { attempts = n + 1; status = sent }

  -- the end of `send_notification`, from what `channel.send` did
  unfoldable pub settle : ℕ → Stored NotificationDelivery → Result (Unit {0}) → Exec (World pf) Unit
  settle retries d (ok _) w = (ok tt, save_delivery d.id (delivered d.row.attempts) w)
  settle retries d (err (channel_delivery_error text)) w =
      if leb max_retries retries
      then (ok tt, save_delivery d.id (gave_up d.row.attempts text) w)
      else (
        err (retry (pf.backoff retries)),
        publish (Message.send_notification d.id (retries + 1) (pf.backoff retries) ∷ [])
            (save_delivery d.id (missed d.row.attempts text) w),
      )
  settle retries d (err e) w = (err e, w)

  module _ (token : Option String) (post : Post) where
    -- the attempt itself, for a delivery that is not sent yet
    unfoldable pub attempt : ℕ → Stored NotificationDelivery → Exec (World pf) Unit
    unfolding settle
    attempt retries d = do
      recipient ← (λ w. (get pf.orm (has_id d.row.recipient) w.recipients, w))
      signal ← (λ w. (get pf.orm (has_id d.row.signal) w.signals, w))
      context ← (λ w. (build_message_context pf signal w, w))
      channel ← lift (or_raise (channel_of recipient.row.channel) value_error)
      settle retries d (
          send token post channel recipient.row.destination
            (render_signal_message pf.python context))

    -- `send_notification`; `retries` is Celery's count of the retries so far
    unfoldable pub send_notification : ℕ → ℕ → Exec (World pf) Unit
    send_notification retries delivery_id = do
      d ← (λ w. (get pf.orm (has_id delivery_id) w.deliveries, w))
      if is_sent d.row.status then pure tt else attempt retries d

  -- `NotificationDeliveryAdmin.retry_now`
  unfoldable pub retry_now : List ℕ → Exec (World pf) Unit
  retry_now ids = modify (publish (map (λ i. Message.send_notification i 0 0) ids))
