-- ===== src/Signals/Tasks/Delivery.antt =====
-- `send_notification`: what one attempt does to the deliveries.
use cryptovira.Prelude.{
  ℕ, ◌+◌, ◌≤◌, String, ◌≡◌, ◌≢◌, refl, sym, ◌⊎◌, inl, inr, true, false, Option, List, [], ◌∷◌,
  All-imply, Each, Each-map, leb, ◌==◌, eq_of_==, Bool-cases, arith,
}
use cryptovira.Exec.{Result, ok, err, value_error, channel_delivery_error, or_raise, continue_lem}
use cryptovira.Orm.{Stored, written}
use cryptovira.Signals.Models.{NotificationDelivery, sent, failed, is_sent, is_pending, channel_of}
use cryptovira.Signals.Services.{build_message_context}
use cryptovira.Signals.Channels.{Post}
use cryptovira.Signals.Tasks.{settle, attempt, send_notification, max_retries}
use cryptovira.World.{Platform, World}
use cryptovira.World.Queries.{get, has_id, get-ok}

-- A row before and after an attempt at the delivery `i`: it stays the delivery of its signal to its
-- recipient; another row or a sent one is unchanged; at most one attempt is counted; a row that was
-- given up is never pending again.
pub record Advanced (i : ℕ) (before after : Stored NotificationDelivery) : Type 0 where
  pub same_row : after.id ≡ before.id
  pub same_signal : after.row.signal ≡ before.row.signal
  pub same_recipient : after.row.recipient ≡ before.row.recipient
  pub other_row : before.id ≢ i → after ≡ before
  pub final : before.row.status ≡ sent → after ≡ before
  pub counted :
      (before.row.attempts ≤ after.row.attempts) × (after.row.attempts ≤ before.row.attempts + 1)
  pub given_up : before.row.status ≡ failed → is_pending after.row.status ≡ false

Advanced-refl : (i : ℕ) (x : Stored NotificationDelivery) → Advanced i x x
Advanced-refl i x = record {
  same_row = refl;
  same_signal = refl;
  same_recipient = refl;
  other_row = λ _. refl;
  final = λ _. refl;
  counted = (omega arith, omega arith);
  given_up = λ h. rw h refl;
}

-- A write of an attempt that found `n` attempts before it.
record IsAttempt (n : ℕ) (g : NotificationDelivery → NotificationDelivery) : Type 0 where
  signal_kept : (x : NotificationDelivery) → (g x).signal ≡ x.signal
  recipient_kept : (x : NotificationDelivery) → (g x).recipient ≡ x.recipient
  attempts_set : (x : NotificationDelivery) → (g x).attempts ≡ n + 1
  not_reopened : (x : NotificationDelivery) → x.status ≡ failed → is_pending (g x).status ≡ false

Advanced-written :
    (i : ℕ) (g : NotificationDelivery → NotificationDelivery) (d : Stored NotificationDelivery)
    → IsAttempt d.row.attempts g
    → d.id ≡ i
    → d.row.status ≢ sent
    → (x : Stored NotificationDelivery) → ((x.id == i) ≡ true → x ≡ d)
    → Advanced i x (written d.id g x)
Advanced-written i g d a here open_ x only = elim (Bool-cases (x.id == d.id)) [
  | inr e ↦ rw e (Advanced-refl i x)
  | inl e ↦
      let same : x ≡ d = only (rw (sym here) e) in
      let n : x.row.attempts ≡ d.row.attempts = rw same refl in
      rw e (record {
        same_row = refl;
        same_signal = a.signal_kept x.row;
        same_recipient = a.recipient_kept x.row;
        other_row = λ other. absurd (other (eq_of_== x.id i (rw (sym here) e)));
        final = λ is. absurd (open_ (rw same at is));
        counted = (omega (arith, a.attempts_set x.row, n), omega (arith, a.attempts_set x.row, n));
        given_up = a.not_reopened x.row;
      })
]

All-Each : {A : Type 0} (R : A → A → Type 0) (l : List A) → ((x : A) → R x x) → Each R l l
All-Each R [] h = tt
All-Each R (x ∷ l) h = (h x, All-Each R l h)

module _ (pf : Platform) where
  -- What became of the table: nothing, or one write of an attempt at `d`.
  abbrev Wrote : Stored NotificationDelivery → World pf → Result (Unit {0}) × World pf → Type 0
  Wrote d w out =
      (out.1.deliveries ≡ w.deliveries)
      ⊎ ((g : NotificationDelivery → NotificationDelivery) × IsAttempt d.row.attempts g
          × (out.1.deliveries ≡ pf.orm.save d.id g w.deliveries))

  settle-Wrote :
      (retries : ℕ) (d : Stored NotificationDelivery) (r : Result (Unit {0})) (w : World pf)
      → Wrote d w (settle pf retries d r w)
  unfolding settle
  settle-Wrote retries d (ok tt) w = inr (
    _,
    record {
      signal_kept = λ x. refl;
      recipient_kept = λ x. refl;
      attempts_set = λ x. refl;
      not_reopened = λ x _. refl;
    },
    refl,
  )
  settle-Wrote retries d (err (channel_delivery_error text)) w =
      elim (Bool-cases (leb max_retries retries)) [
        | inl e ↦ rw e (
            inr (
              _,
              record {
                signal_kept = λ x. refl;
                recipient_kept = λ x. refl;
                attempts_set = λ x. refl;
                not_reopened = λ x _. refl;
              },
              refl,
            ))
        | inr e ↦ rw e (
            inr (
              _,
              record {
                signal_kept = λ x. refl;
                recipient_kept = λ x. refl;
                attempts_set = λ x. refl;
                not_reopened = λ x is. rw is refl;
              },
              refl,
            ))
      ]
  settle-Wrote retries d (err _) w = inl refl

  module _ (token : Option String) (post : Post) (retries : ℕ) where
    attempt-Wrote :
        (d : Stored NotificationDelivery) (w : World pf)
        → Wrote d w (attempt pf token post retries d w)
    unfolding attempt
    attempt-Wrote d w =
        continue_lem (Wrote d w) (get pf.orm (has_id d.row.recipient) w.recipients) w _
          (λ e _. inl refl)
          λ recipient _.
            continue_lem (Wrote d w) (get pf.orm (has_id d.row.signal) w.signals) w _
              (λ e _. inl refl)
              λ signal _.
                continue_lem (Wrote d w) (build_message_context pf signal w) w _ (λ e _. inl refl)
                  λ context _.
                    continue_lem (Wrote d w)
                      (or_raise (channel_of recipient.row.channel) value_error) w _
                      (λ e _. inl refl) λ channel _. settle-Wrote retries d _ w

    open_at :
        (i : ℕ) (d : Stored NotificationDelivery) (w : World pf)
        → get pf.orm (has_id i) w.deliveries ≡ ok d
        → is_sent d.row.status ≡ false
        → (out : Result (Unit {0}) × World pf) → Wrote d w out
        → Each (Advanced i) (pf.orm.rows w.deliveries) (pf.orm.rows out.1.deliveries)
    open_at i d w found unsent out (inl same) =
        rw same (All-Each (Advanced i) (pf.orm.rows w.deliveries) (λ x. Advanced-refl i x))
    open_at i d w found unsent out (inr (g, a, saved)) =
        let (here, only) = get-ok pf.orm (has_id i) w.deliveries d found in
        rw
          (
            saved,
            pf.orm.save_law d.id g w.deliveries (λ x y. (
              rw (a.signal_kept x, a.recipient_kept x) refl,
              rw (a.signal_kept x, a.recipient_kept x) refl,
            )),
          )
          (Each-map (Advanced i) (written d.id g) (pf.orm.rows w.deliveries) (
            All-imply _ _
              (Advanced-written i g d a (eq_of_== d.id i here) (λ is. cc (rw is at unsent)))
              (pf.orm.rows w.deliveries) only))

    -- One run of `send_notification`, whatever the channel does and whatever is raised, keeps the
    -- rows of the deliveries in their places with their keys, signals and recipients. It leaves
    -- the rows of other deliveries and sent rows as they are, counts at most one attempt, and
    -- makes no failed row pending.
    pub send_notification-Advanced :
        (i : ℕ) (w : World pf)
        → Each
            (Advanced i)
            (pf.orm.rows w.deliveries)
            (pf.orm.rows (send_notification pf token post retries i w).1.deliveries)
    unfolding send_notification
    send_notification-Advanced i w =
        continue_lem
          (λ out. Each (Advanced i) (pf.orm.rows w.deliveries) (pf.orm.rows out.1.deliveries))
          (get pf.orm (has_id i) w.deliveries) w _ (λ e _. unchanged)
          λ d found. elim (Bool-cases (is_sent d.row.status)) [
            | inl done ↦ rw done unchanged
            | inr unsent ↦
                rw unsent (
                  open_at i d w found unsent (attempt pf token post retries d w)
                    (attempt-Wrote d w))
          ]
      where
        unchanged : Each (Advanced i) (pf.orm.rows w.deliveries) (pf.orm.rows w.deliveries)
        unchanged = All-Each (Advanced i) (pf.orm.rows w.deliveries) (λ x. Advanced-refl i x)
