-- ===== src/Concurrent/Race.antt =====
-- Two runs of `send_notification` for one delivery that overlap: both have read the row and made
-- their attempt before either writes.
use mathlib.Core.List.{Memᴰ}
use cryptovira.Prelude.{ℕ, ◌+◌, String, ◌≡◌, refl, Bool, true, false, [], ◌∷◌, leb, All}
use cryptovira.Exec.{ok, err, channel_delivery_error}
use cryptovira.Orm.{Stored}
use cryptovira.Signals.Models.{NotificationDelivery, DeliveryStatus, sent, failed}
use cryptovira.Signals.Tasks.{save_delivery, delivered, gave_up, max_retries}
use cryptovira.World.{Platform, World}
use cryptovira.Concurrent.{Pool, interleave, pick, advance, resume, HasEnded}
use cryptovira.Concurrent.Programs.{conclude}
use cryptovira.Concurrent.Statements.{IsWrite}
use cryptovira.Concurrent.Attempt.{delivered-IsWrite, gave_up-IsWrite, save_delivery-Memᴰ}

module _ (pf : Platform) where
  -- the two runs at their last statements, the first after a post that was accepted and the second
  -- after the last of its tries has failed
  abbrev pub contest :
      ℕ → ℕ → Stored NotificationDelivery → String → World pf → Pool Bool (World pf) (Unit {0})
  contest retries tries d text w = record {
    state = w;
    threads =
        (true, conclude pf retries d (ok tt))
        ∷ (false, conclude pf tries d (err (channel_delivery_error text)))
        ∷ [];
  }

  -- The row as it is stored after both, with that status and one attempt more than both have read.
  pub record Left (d : Stored NotificationDelivery) (status : DeliveryStatus) (w : World pf)
      : Type 0 where
    pub delivery : Stored NotificationDelivery
    pub of : delivery.id ≡ d.id
    pub kept : Memᴰ delivery (pf.orm.rows w.deliveries)
    pub status_is : delivery.row.status ≡ status
    pub attempts : delivery.row.attempts ≡ d.row.attempts + 1

  module _ (retries tries : ℕ) (d : Stored NotificationDelivery) (text : String) (w : World pf)
      (last : leb max_retries tries ≡ true) (stored : Memᴰ d (pf.orm.rows w.deliveries)) where
    both :
        (f g : NotificationDelivery → NotificationDelivery) (status : DeliveryStatus)
        → IsWrite pf f
        → IsWrite pf g
        → ((x : NotificationDelivery) → (g x).status ≡ status)
        → ((x : NotificationDelivery) → (g x).attempts ≡ d.row.attempts + 1)
        → Left d status (save_delivery pf d.id g (save_delivery pf d.id f w))
    both f g status k l is counted =
        let one = save_delivery-Memᴰ pf f d d.id w refl k stored in
        let two =
          save_delivery-Memᴰ pf g (record d { row = f d.row }) d.id (save_delivery pf d.id f w) refl
            l one in
        record {
          delivery = record d { row = g (f d.row) };
          of = refl;
          kept = two;
          status_is = is (f d.row);
          attempts = counted (f d.row);
        }

    -- Of two runs of `send_notification` that have both read a stored delivery and made their
    -- attempts, one successful and the other failed in its last try, the one that writes last
    -- decides: the delivery ends as sent or as failed, and one attempt is counted
    -- for the two.
    pub last_write_wins :
        (Left d failed (interleave (0 ∷ 1 ∷ []) (contest retries tries d text w)).state
          × All HasEnded (interleave (0 ∷ 1 ∷ []) (contest retries tries d text w)).threads)
        × (Left d sent (interleave (1 ∷ 0 ∷ []) (contest retries tries d text w)).state
            × All HasEnded (interleave (1 ∷ 0 ∷ []) (contest retries tries d text w)).threads)
    unfolding interleave pick advance resume conclude
    last_write_wins =
        let n = d.row.attempts in
        rw last (
          (
            both (delivered pf n) (gave_up pf n text) failed (delivered-IsWrite pf n)
                (gave_up-IsWrite pf n text) (λ x. refl) (λ x. refl),
            (tt, (tt, tt)),
          ),
          (
            both (gave_up pf n text) (delivered pf n) sent (gave_up-IsWrite pf n text)
                (delivered-IsWrite pf n) (λ x. refl) (λ x. refl),
            (tt, (tt, tt)),
          ),
        )
