-- ===== src/Signals/Tasks/Dispatch.antt =====
-- `dispatch_notifications`: one delivery for each active recipient of the strategy's owner, and a
-- message for each delivery that is still pending.
use cryptovira.Prelude.{
  ℕ, ◌≡◌, refl, true, List, ◌++◌, map, Permᴰ, select, any, All, All-map, All-of_map, All-trivial,
  perm-All,
}
use cryptovira.Exec.{ok}
use cryptovira.Orm.{Stored}
use cryptovira.Orm.Merge.{IsUnique}
use cryptovira.Strategy.Models.{Strategy, StrategyEvaluation}
use cryptovira.Signals.Models.{
  Signal, NotificationRecipient, NotificationDelivery, new_delivery, same_delivery,
  same_delivery_refl,
}
use cryptovira.Signals.Tasks.{is_recipient, is_queued, fan_out_deliveries, dispatch_notifications}
use cryptovira.World.{Platform, World, Message}
use cryptovira.World.Matches.{contents}
use cryptovira.World.Queries.{
  get, has_id, bulk_create-IsUnique, bulk_create-append, bulk_create-present,
}
use mathlib.Core.List.Permᴰ

module _ (pf : Platform) where
  -- The signal of that id, its evaluation and its strategy are stored.
  pub record Owned (signal_id : ℕ) (w : World pf) : Type 0 where
    pub signal : Stored Signal
    pub evaluation : Stored StrategyEvaluation
    pub strategy : Stored Strategy
    pub signal_found : get pf.orm (has_id signal_id) w.signals ≡ ok signal
    pub evaluation_found : get pf.orm (has_id signal.row.evaluation) w.evaluations ≡ ok evaluation
    pub strategy_found : get pf.orm (has_id evaluation.row.strategy) w.strategies ≡ ok strategy

  module _ (signal_id : ℕ) (w : World pf) (o : Owned signal_id w) where
    dispatch-eq-fan_out :
        dispatch_notifications pf signal_id w
        ≡ fan_out_deliveries pf o.signal.id o.strategy.row.user w
    unfolding dispatch_notifications
    dispatch-eq-fan_out = rw (o.signal_found, o.evaluation_found, o.strategy_found) refl

    -- Where the signal, its evaluation and its strategy are stored and the deliveries keep their
    -- constraint, every active recipient of the strategy's owner has a delivery of the signal
    -- after a run, and the deliveries still keep their constraint.
    pub dispatch_notifications-present :
        IsUnique same_delivery (contents (pf.orm.rows w.deliveries))
        → let w' = (dispatch_notifications pf signal_id w).1 in
          All
            (λ r.
              any
                (same_delivery (new_delivery o.signal.id r.id))
                (contents (pf.orm.rows w'.deliveries))
              ≡ true)
            (select (is_recipient o.strategy.row.user) (pf.orm.rows w.recipients))
          × IsUnique same_delivery (contents (pf.orm.rows w'.deliveries))
    unfolding fan_out_deliveries
    dispatch_notifications-present u = rw dispatch-eq-fan_out (
      perm-All _ (pf.orm.filter_law (is_recipient o.strategy.row.user) w.recipients) (
          All-of_map (λ r. new_delivery o.signal.id r.id) _ _
            (bulk_create-present pf.orm same_delivery_refl _ w.deliveries)),
      bulk_create-IsUnique pf.orm _ w.deliveries u,
    )

    -- Where the signal, its evaluation and its strategy are stored, a run leaves the stored
    -- deliveries as they are, and each one that it adds is a pending delivery of the signal with
    -- no attempt yet.
    pub dispatch_notifications-append :
        (more : List (Stored NotificationDelivery)) × (pf.orm.rows
            (dispatch_notifications pf signal_id w).1.deliveries
          ≡ pf.orm.rows w.deliveries ++ more)
        × All (λ d. d ≡ new_delivery o.signal.id d.recipient) (contents more)
    unfolding fan_out_deliveries
    dispatch_notifications-append = rw dispatch-eq-fan_out (
        bulk_create-append pf.orm (λ d. d ≡ new_delivery o.signal.id d.recipient) _ w.deliveries
          (All-map (λ (r : Stored NotificationRecipient). new_delivery o.signal.id r.id)
            (λ r. Unit {0}) _ (λ r _. refl) _ (All-trivial _)))

    -- Where the signal, its evaluation and its strategy are stored, a run publishes one message
    -- for each delivery of the signal that is pending after its writes, and no other message.
    pub dispatch_notifications-published :
        let w' = (dispatch_notifications pf signal_id w).1 in
        (messages : List Message) × (w'.published ≡ w.published ++ messages)
        × Permᴰ messages (
            map
              (λ d. Message.send_notification d.id 0 0)
              (select (is_queued o.signal.id) (pf.orm.rows w'.deliveries)))
    unfolding fan_out_deliveries
    dispatch_notifications-published =
        rw dispatch-eq-fan_out (_, refl, Permᴰ.map _ (pf.orm.filter_law (is_queued o.signal.id) _))
