-- ===== src/System/Arrival.antt =====
-- A signal's way to its recipients: `dispatch_notifications`, and then the runs of
-- `send_notification` that it asks for.
use cryptovira.Prelude.{
  ℕ, String, ◌≡◌, refl, sym, ◌∙◌, ap, subst, Bool, true, false, ◌⊎◌, inl, inr, Option, some, List,
  [], ◌∷◌, any, ◌==◌, ==_refl, eq_of_==, Bool-cases,
}
use cryptovira.Exec.{ok}
use cryptovira.Orm.{Stored, written}
use cryptovira.Signals.Models.{
  Signal, NotificationRecipient, NotificationDelivery, Channel, channel_of, DeliveryStatus, pending,
  sent, failed, is_sent,
}
use cryptovira.Signals.Messages.{SignalMessageContext, render_signal_message}
use cryptovira.Signals.Services.{build_message_context}
use cryptovira.Signals.Channels.{Post}
use cryptovira.Signals.Channels
use cryptovira.Signals.Tasks.{settle, attempt, send_notification, delivered, save_delivery}
use cryptovira.Signals.Tasks.Delivery.{Advanced, send_notification-Advanced}
use cryptovira.World.{Platform, World, Message}
use cryptovira.World.Queries.{get, has_id}
use cryptovira.World.Keys.{get_related, get_saved}
use cryptovira.System.Sending.{Posted, send_notification-Posted}

sent_of_is_sent : (s : DeliveryStatus) → is_sent s ≡ true → s ≡ sent
sent_of_is_sent pending h = cc h
sent_of_is_sent sent h = refl
sent_of_is_sent failed h = cc h

-- the test for a message that runs `send_notification` for a delivery
abbrev pub is_for : ℕ → Message → Bool
is_for i (Message.send_notification j retries countdown) = j == i
is_for i _ = false

module _ (pf : Platform) (token : Option String) (post : Post) where
  -- A message about that signal can be written, and the recipient's channel takes it.
  pub record Deliverable (signal_id recipient_id : ℕ) (w : World pf) : Type 0 where
    pub recipient : Stored NotificationRecipient
    pub signal : Stored Signal
    pub context : SignalMessageContext pf.python
    pub channel : Channel
    pub recipient_found : get pf.orm (has_id recipient_id) w.recipients ≡ ok recipient
    pub signal_found : get pf.orm (has_id signal_id) w.signals ≡ ok signal
    pub in_context : build_message_context pf signal w ≡ ok context
    pub known : channel_of recipient.row.channel ≡ some channel
    pub accepted :
        Channels.send token post channel recipient.row.destination
          (render_signal_message pf.python context)
        ≡ ok tt

  pub Posted-Deliverable :
      (s r : ℕ) (w w' : World pf) → Posted pf w w' → Deliverable s r w → Deliverable s r w'
  unfolding build_message_context
  Posted-Deliverable s r w w' p d = rw p.world (record {
    recipient = d.recipient;
    signal = d.signal;
    context = d.context;
    channel = d.channel;
    recipient_found = d.recipient_found;
    signal_found = d.signal_found;
    in_context = d.in_context;
    known = d.known;
    accepted = d.accepted;
  })

  -- the delivery of that primary key, signal and recipient
  pub record Tracked (i s r : ℕ) (w : World pf) : Type 0 where
    pub row : Stored NotificationDelivery
    pub found : get pf.orm (has_id i) w.deliveries ≡ ok row
    pub its_signal : row.row.signal ≡ s
    pub its_recipient : row.row.recipient ≡ r

  attempt-delivered :
      (retries : ℕ) (d : Stored NotificationDelivery) (w : World pf)
      → Deliverable d.row.signal d.row.recipient w
      → attempt pf token post retries d w
        ≡ (ok tt, save_delivery pf d.id (delivered pf d.row.attempts) w)
  unfolding attempt settle
  attempt-delivered retries d w h =
      rw (h.recipient_found, h.signal_found, h.in_context, h.known, h.accepted) refl

  saved_sent :
      (i : ℕ) (d y : Stored NotificationDelivery) (w : World pf)
      → get pf.orm (has_id i) w.deliveries ≡ ok d
      → get pf.orm (has_id i) (save_delivery pf d.id (delivered pf d.row.attempts) w).deliveries
        ≡ ok y
      → y.row.status ≡ sent
  saved_sent i d y w found after =
      let is : y ≡ written d.id (delivered pf d.row.attempts) d =
        get_saved pf.orm i d.id (delivered pf d.row.attempts) w.deliveries d y (λ a b. (refl, refl))
          found after in
      rw is (rw (==_refl d.id) refl)

  -- A run for a delivery that the channel takes leaves it sent.
  send_notification-sent :
      (retries i : ℕ) (w : World pf) (d y : Stored NotificationDelivery)
      → get pf.orm (has_id i) w.deliveries ≡ ok d
      → Deliverable d.row.signal d.row.recipient w
      → get pf.orm (has_id i) (send_notification pf token post retries i w).1.deliveries ≡ ok y
      → y.row.status ≡ sent
  unfolding send_notification
  send_notification-sent retries i w d y found h after = elim (Bool-cases (is_sent d.row.status)) [
    | inl done ↦
        let same : d ≡ y = cc (found, rw (found, done) at after) in
        sent_of_is_sent y.row.status (rw (sym same) done)
    | inr unsent ↦
        saved_sent i d y w found (rw (found, unsent, attempt-delivered retries d w h) at after)
  ]

  -- The queue's part: a message of `send_notification` runs it, and any other is left.
  unfoldable pub deliver : Message → World pf → World pf
  deliver (Message.send_notification i retries countdown) w =
      (send_notification pf token post retries i w).1
  deliver _ w = w

  unfoldable pub deliver_all : List Message → World pf → World pf
  deliver_all [] w = w
  deliver_all (m ∷ ms) w = deliver_all ms (deliver m w)

  -- A delivery that the channel takes stays what it is for, over one message; it stays sent, and
  -- is sent if the message is for it.
  record After (i s r : ℕ) (before : Stored NotificationDelivery) (m : Message) (w' : World pf)
      : Type 0 where
    tracked : Tracked i s r w'
    deliverable : Deliverable s r w'
    stays : before.row.status ≡ sent → tracked.row.row.status ≡ sent
    arrives : is_for i m ≡ true → tracked.row.row.status ≡ sent

  deliver-After :
      (m : Message) (i s r : ℕ) (w : World pf) (t : Tracked i s r w)
      → Deliverable s r w
      → After i s r t.row m (deliver m w)
  unfolding deliver
  deliver-After (Message.send_notification j retries countdown) i s r w t d =
      let (y, found, a) =
        get_related pf.orm (Advanced j) i w.deliveries _ t.row (λ x z h. h.same_row)
          (send_notification-Advanced pf token post retries j w) t.found in
      record {
        tracked = record {
          row = y;
          found = found;
          its_signal = a.same_signal ∙ t.its_signal;
          its_recipient = a.same_recipient ∙ t.its_recipient;
        };
        deliverable =
            Posted-Deliverable s r w _ (send_notification-Posted pf token post retries w j) d;
        stays = λ done. ap (λ x. x.row.status) (a.final done) ∙ done;
        arrives = λ h.
            let same : j ≡ i = eq_of_== j i h in
            subst
              (λ k.
                get pf.orm (has_id k) w.deliveries ≡ ok t.row
                → get pf.orm (has_id k) (send_notification pf token post retries j w).1.deliveries
                  ≡ ok y
                → y.row.status ≡ sent)
              same
              (λ at after.
                send_notification-sent retries j w t.row y at (rw (t.its_signal, t.its_recipient) d)
                  after)
              t.found found;
      }
  deliver-After _ i s r w t d = record {
    tracked = t;
    deliverable = d;
    stays = λ done. done;
    arrives = λ h. cc h;
  }

  pub deliver_all-sent :
      (ms : List Message) (i s r : ℕ) (w : World pf) (t : Tracked i s r w)
      → Deliverable s r w
      → (t.row.row.status ≡ sent) ⊎ (any (is_for i) ms ≡ true)
      → (t' : Tracked i s r (deliver_all ms w)) × (t'.row.row.status ≡ sent)
  unfolding deliver_all
  deliver_all-sent [] i s r w t d (inl done) = (t, done)
  deliver_all-sent [] i s r w t d (inr h) = absurd (cc h)
  deliver_all-sent (m ∷ ms) i s r w t d h =
      let a = deliver-After m i s r w t d in
      deliver_all-sent ms i s r (deliver m w) a.tracked a.deliverable (now_or_later a h)
    where
      now_or_later :
          (a : After i s r t.row m (deliver m w))
          → (t.row.row.status ≡ sent) ⊎ (any (is_for i) (m ∷ ms) ≡ true)
          → (a.tracked.row.row.status ≡ sent) ⊎ (any (is_for i) ms ≡ true)
      now_or_later a (inl done) = inl (a.stays done)
      now_or_later a (inr h) = elim (Bool-cases (is_for i m)) [
        | inl e ↦ inl (a.arrives e)
        | inr e ↦ inr (rw e at h)
      ]
