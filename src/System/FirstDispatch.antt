-- ===== src/System/FirstDispatch.antt =====
-- A signal that is dispatched for the first time reaches its recipients.
use cryptovira.Prelude.{
  ℕ, String, ◌≡◌, sym, ◌∙◌, subst, true, false, inr, Option, List, ◌++◌, select, any, any-map,
  any_found, any_self, All, All-append, All-imply, All-of_map, All-pair, All-unselect, perm-any,
  ◌==◌, ==_refl, eq_of_==, arith,
}
use cryptovira.Exec.{ok}
use cryptovira.Orm.{Stored}
use cryptovira.Orm.Merge.{IsUnique}
use cryptovira.Signals.Models.{NotificationDelivery, new_delivery, same_delivery, sent}
use cryptovira.Signals.Channels.{Post}
use cryptovira.Signals.Tasks.{is_recipient, is_queued, dispatch_notifications}
use cryptovira.Signals.Tasks.Dispatch.{
  Owned, dispatch_notifications-present, dispatch_notifications-append,
  dispatch_notifications-published,
}
use cryptovira.World.{Platform, World, Message}
use cryptovira.World.Matches.{contents}
use cryptovira.World.Queries.{get, has_id, get-ok}
use cryptovira.World.Keys.{get_self}
use cryptovira.System.Sending.{dispatch_notifications-Dispatched}
use cryptovira.System.Arrival.{
  Deliverable, Posted-Deliverable, Tracked, is_for, deliver_all, deliver_all-sent,
}
use mathlib.Core.List.{append_cancel_left}

module _ (pf : Platform) where
  -- The recipient's delivery of the signal is there, and was sent.
  pub record Received (signal recipient : ℕ) (w' : World pf) : Type 0 where
    pub delivery : Stored NotificationDelivery
    pub found : get pf.orm (has_id delivery.id) w'.deliveries ≡ ok delivery
    pub its_signal : delivery.row.signal ≡ signal
    pub its_recipient : delivery.row.recipient ≡ recipient
    pub was_sent : delivery.row.status ≡ sent

module _ (pf : Platform) (signal_id : ℕ) (w : World pf) (o : Owned pf signal_id w) where
  abbrev after : World pf
  after = (dispatch_notifications pf signal_id w).1

  -- Every delivery that is queued has a message.
  queued_has_message :
      (messages : List Message)
      → after.published ≡ w.published ++ messages
      → All
          (λ d. is_queued o.signal.id d ≡ true → any (is_for d.id) messages ≡ true)
          (pf.orm.rows after.deliveries)
  queued_has_message messages published =
      let (found, at, perm) = dispatch_notifications-published pf signal_id w o in
      let same : messages ≡ found =
        append_cancel_left w.published messages found (sym published ∙ at) in
      All-unselect (λ d. any (is_for d.id) messages ≡ true) (is_queued o.signal.id) _
        (All-imply _ _
          (λ d here. rw same (
            perm-any (is_for d.id) perm
            ∙ any-map (λ x. Message.send_notification x.id 0 0) (is_for d.id)
                (select (is_queued o.signal.id) (pf.orm.rows after.deliveries))
            ∙ here))
          _
          (any_self (λ d x. x.id == d.id) (λ d. ==_refl d.id)
            (select (is_queued o.signal.id) (pf.orm.rows after.deliveries))))

  -- Where the signal had no delivery, all that it has now are queued.
  all_queued :
      All (λ d. (d.row.signal == o.signal.id) ≡ false) (pf.orm.rows w.deliveries)
      → All
          (λ d. (d.row.signal == o.signal.id) ≡ true → is_queued o.signal.id d ≡ true)
          (pf.orm.rows after.deliveries)
  all_queued none_yet =
      let (more, at, new) = dispatch_notifications-append pf signal_id w o in
      rw at (
        All-append _ (pf.orm.rows w.deliveries) more
          (All-imply _ _ (λ d other same. cc (other, same)) (pf.orm.rows w.deliveries) none_yet)
          (All-imply _ _ (λ d is same. rw is (ground (arith, ==_refl o.signal.id))) more
            (All-of_map (λ s. s.row) (λ d. d ≡ new_delivery o.signal.id d.recipient) more new)))

  of_signal :
      (d : Stored NotificationDelivery) (r : ℕ)
      → same_delivery (new_delivery o.signal.id r) d.row ≡ true
      → d.row.signal ≡ o.signal.id
  of_signal d r h = ground arith

  of_recipient :
      (d : Stored NotificationDelivery) (r : ℕ)
      → same_delivery (new_delivery o.signal.id r) d.row ≡ true
      → d.row.recipient ≡ r
  of_recipient d r h = ground arith

  module _ (token : Option String) (post : Post) where
    receive :
        (i s r : ℕ) (w' : World pf) (t : Tracked pf token post i s r w')
        → t.row.row.status ≡ sent
        → Received pf s r w'
    receive i s r w' t done = record {
      delivery = t.row;
      found =
          subst (λ k. get pf.orm (has_id k) w'.deliveries ≡ ok t.row)
            (sym (eq_of_== t.row.id i (get-ok pf.orm (has_id i) w'.deliveries t.row t.found).0))
            t.found;
      its_signal = t.its_signal;
      its_recipient = t.its_recipient;
      was_sent = done;
    }

    -- Where a signal, its evaluation and its strategy are stored, the signal has no delivery yet
    -- and the deliveries keep their constraint: if a message about the signal can be written and
    -- the channel of every active recipient of the strategy's owner takes it, then after
    -- `dispatch_notifications` and the runs of `send_notification` that it asked for, every such
    -- recipient has a delivery of the signal that was sent.
    pub first_dispatch-Received :
        IsUnique same_delivery (contents (pf.orm.rows w.deliveries))
        → All (λ d. (d.row.signal == o.signal.id) ≡ false) (pf.orm.rows w.deliveries)
        → All
            (λ r. Deliverable pf token post o.signal.id r.id w)
            (select (is_recipient o.strategy.row.user) (pf.orm.rows w.recipients))
        → (messages : List Message) → after.published ≡ w.published ++ messages
        → All
            (λ r. Received pf o.signal.id r.id (deliver_all pf token post messages after))
            (select (is_recipient o.strategy.row.user) (pf.orm.rows w.recipients))
    first_dispatch-Received u none_yet deliverable messages published =
        let posted = (dispatch_notifications-Dispatched pf w u signal_id).posted in
        let rows = pf.orm.rows after.deliveries in
        let facts =
          All-pair _ _ rows (get_self pf.orm after.deliveries)
            (All-pair _ _ rows (all_queued none_yet) (queued_has_message messages published)) in
        All-imply _ _
          (λ r (takes, present).
            let (d, is, fact) =
              any_found _ (λ d. same_delivery (new_delivery o.signal.id r.id) d.row) rows facts
                (sym (any-map (λ d. d.row) _ rows) ∙ present) in
            let (t, done) =
              deliver_all-sent pf token post messages d.id o.signal.id r.id after
                (record {
                  row = d;
                  found = fact.0;
                  its_signal = of_signal d r.id is;
                  its_recipient = of_recipient d r.id is;
                })
                (Posted-Deliverable pf token post o.signal.id r.id w after posted takes)
                (inr (fact.1.1 (fact.1.0 (rw (of_signal d r.id is) (==_refl o.signal.id))))) in
            receive d.id o.signal.id r.id _ t done)
          _ (All-pair _ _ _ deliverable (dispatch_notifications-present pf signal_id w o u).0)
