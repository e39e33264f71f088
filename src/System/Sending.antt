-- ===== src/System/Sending.antt =====
-- What a run of `dispatch_notifications` or `send_notification` may do to the world, however it ends.
use cryptovira.Prelude.{
  ℕ, String, ◌≡◌, refl, sym, true, Option, List, [], ◌++◌, append-nil, any, All, All-imply, All-map,
  All-of_map, All-trivial, leb, ==_refl, Bool-cases, inl, inr,
}
use cryptovira.Exec.{Result, ok, err, channel_delivery_error, value_error, or_raise, continue_lem}
use cryptovira.Orm.{Stored}
use cryptovira.Orm.Merge.{IsUnique}
use cryptovira.Signals.Models.{
  NotificationRecipient, NotificationDelivery, new_delivery, same_delivery, is_sent, channel_of,
}
use cryptovira.Signals.Services.{build_message_context}
use cryptovira.Signals.Channels.{Post}
use cryptovira.Signals.Tasks.{
  settle, attempt, send_notification, max_retries, fan_out_deliveries, dispatch_notifications,
}
use cryptovira.World.{Platform, World, Message}
use cryptovira.World.Matches.{contents}
use cryptovira.World.Queries.{get, has_id, get-stored, bulk_create-IsUnique, bulk_create-append}

module _ (pf : Platform) where
  abbrev pub HasSignal : World pf → Stored NotificationDelivery → Type 0
  HasSignal w d = any (has_id d.row.signal) (pf.orm.rows w.signals) ≡ true

  -- Deliveries were written and messages published, and nothing else has changed.
  pub record Posted (w w' : World pf) : Type 0 where
    pub deliveries : pf.orm.Table NotificationDelivery same_delivery
    pub published : List Message
    pub world : w' ≡ record w { deliveries = deliveries; published = published }

  -- Of the deliveries, none was changed, and those that were added have stored signals.
  pub record Dispatched (w w' : World pf) : Type 0 where
    pub posted : Posted w w'
    pub more : List (Stored NotificationDelivery)
    pub kept : pf.orm.rows posted.deliveries ≡ pf.orm.rows w.deliveries ++ more
    pub unique : IsUnique same_delivery (contents (pf.orm.rows posted.deliveries))
    pub new_signalled : All (HasSignal w) more

  unposted : (w : World pf) → Posted w w
  unposted w = record { deliveries = w.deliveries; published = w.published; world = refl }

  module _ (w : World pf) (u : IsUnique same_delivery (contents (pf.orm.rows w.deliveries))) where
    undispatched : Dispatched w w
    undispatched = record {
      posted = record { deliveries = w.deliveries; published = w.published; world = refl };
      more = [];
      kept = sym (append-nil _);
      unique = u;
      new_signalled = tt;
    }

    fan_out-Dispatched :
        (signal user : ℕ)
        → any (has_id signal) (pf.orm.rows w.signals) ≡ true
        → Dispatched w (fan_out_deliveries pf signal user w).1
    unfolding fan_out_deliveries
    fan_out-Dispatched signal user stored =
        let (more, at, all) =
          bulk_create-append pf.orm (λ d. d.signal ≡ signal) _ w.deliveries
            (All-map (λ (r : Stored NotificationRecipient). new_delivery signal r.id)
              (λ r. Unit {0}) _ (λ r _. refl) _ (All-trivial _)) in
        record {
          posted = record { deliveries = _; published = _; world = refl };
          more = more;
          kept = at;
          unique = bulk_create-IsUnique pf.orm _ w.deliveries u;
          new_signalled =
              All-imply _ _ (λ d is. rw is stored) more
                (All-of_map (λ s. s.row) (λ d. d.signal ≡ signal) more all);
        }

    -- A run of `dispatch_notifications`, whether or not it raises, adds deliveries of a stored
    -- signal only, and publishes.
    pub dispatch_notifications-Dispatched :
        (signal_id : ℕ) → Dispatched w (dispatch_notifications pf signal_id w).1
    unfolding dispatch_notifications
    dispatch_notifications-Dispatched signal_id =
        continue_lem (λ out. Dispatched w out.1) (get pf.orm (has_id signal_id) w.signals) w _
          (λ e _. undispatched)
          λ signal found.
            continue_lem (λ out. Dispatched w out.1)
              (get pf.orm (has_id signal.row.evaluation) w.evaluations) w _ (λ e _. undispatched)
              λ evaluation _.
                continue_lem (λ out. Dispatched w out.1)
                  (get pf.orm (has_id evaluation.row.strategy) w.strategies) w _
                  (λ e _. undispatched)
                  λ strategy _. fan_out-Dispatched signal.id strategy.row.user (
                    get-stored pf.orm (has_id signal_id) w.signals signal (has_id signal.id) found
                      (==_refl signal.id))

  settle-Posted :
      (retries : ℕ) (d : Stored NotificationDelivery) (r : Result (Unit {0})) (w : World pf)
      → Posted w (settle pf retries d r w).1
  unfolding settle
  settle-Posted retries d (ok _) w = record { deliveries = _; published = _; world = refl }
  settle-Posted retries d (err (channel_delivery_error text)) w =
      elim (Bool-cases (leb max_retries retries)) [
        | inl e ↦ rw e (record { deliveries = _; published = _; world = refl })
        | inr e ↦ rw e (record { deliveries = _; published = _; world = refl })
      ]
  settle-Posted retries d (err e) w = unposted w

  module _ (token : Option String) (post : Post) (retries : ℕ) (w : World pf) where
    attempt-Posted :
        (d : Stored NotificationDelivery) → Posted w (attempt pf token post retries d w).1
    unfolding attempt
    attempt-Posted d =
        continue_lem (λ out. Posted w out.1) (get pf.orm (has_id d.row.recipient) w.recipients) w _
          (λ e _. unposted w)
          λ recipient _.
            continue_lem (λ out. Posted w out.1) (get pf.orm (has_id d.row.signal) w.signals) w _
              (λ e _. unposted w)
              λ signal _.
                continue_lem (λ out. Posted w out.1) (build_message_context pf signal w) w _
                  (λ e _. unposted w)
                  λ context _.
                    continue_lem (λ out. Posted w out.1)
                      (or_raise (channel_of recipient.row.channel) value_error) w _
                      (λ e _. unposted w) λ channel _. settle-Posted retries d _ w

    -- A run of `send_notification`, whether or not it raises, writes deliveries only, and
    -- publishes.
    pub send_notification-Posted :
        (i : ℕ) → Posted w (send_notification pf token post retries i w).1
    unfolding send_notification
    send_notification-Posted i =
        continue_lem (λ out. Posted w out.1) (get pf.orm (has_id i) w.deliveries) w _
          (λ e _. unposted w)
          λ d _. elim (Bool-cases (is_sent d.row.status)) [
            | inl done ↦ rw done (unposted w)
            | inr unsent ↦ rw unsent (attempt-Posted d)
          ]
