-- ===== src/Concurrent/Attempt.antt =====
-- `send_notification` among other tasks.
use mathlib.Core.List.{Memᴰ}
use mathlib.Core.List.Memᴰ
use cryptovira.Prelude.{
  ℕ, ◌+◌, String, ◌≡◌, refl, subst, true, false, Option, [], ◌∷◌, Bool-cases, inl, inr, arith, ◌==◌,
  leb,
}
use cryptovira.Exec.{Result, modify, ok, err, channel_delivery_error}
use cryptovira.Orm.{Stored, written}
use cryptovira.Signals.Models.{
  NotificationDelivery, DeliveryStatus, is_pending, is_sent, pending, sent, failed,
}
use cryptovira.Signals.Channels.{Post}
use cryptovira.Signals.Tasks.{save_delivery, delivered, gave_up, missed, max_retries}
use cryptovira.World.{Platform, World, Message}
use cryptovira.World.Queries.{get-ok, get-Memᴰ, has_id}
use cryptovira.System.Invariant.{Sound}
use cryptovira.Concurrent.{ask, done, ◌>>◌}
use cryptovira.Concurrent.Growth.{Grows, Grows-refl, Grows-trans, Continues-Memᴰ, Tracks}
use cryptovira.Concurrent.Statements.{published_kept, delivery_kept, IsWrite}
use cryptovira.Concurrent.Programs.{Program, conclude, try_delivery, deliver}
use cryptovira.Concurrent.Done.{Closed}
use cryptovira.Concurrent.Done.Lasts.{Closed-later}
use cryptovira.Concurrent.Safe.{Safe-look}
use cryptovira.Concurrent.Assess.{IsSafe}

sent_closed : (s : DeliveryStatus) → is_sent s ≡ true → is_pending s ≡ false
sent_closed pending e = cc e
sent_closed sent e = refl
sent_closed failed e = refl

has_own_id : {Row : Type 0} (i : ℕ) (s : Stored Row) → s.id ≡ i → (s.id == i) ≡ true
has_own_id i s e = ground (arith, e)

module _ (pf : Platform) where
  pub delivered-IsWrite : (n : ℕ) → IsWrite pf (delivered pf n)
  delivered-IsWrite n = record { signal = λ d. refl; recipient = λ d. refl; closed = λ d is. refl }

  pub gave_up-IsWrite : (n : ℕ) (text : String) → IsWrite pf (gave_up pf n text)
  gave_up-IsWrite n text = record {
    signal = λ d. refl;
    recipient = λ d. refl;
    closed = λ d is. refl;
  }

  missed-IsWrite : (n : ℕ) (text : String) → IsWrite pf (missed pf n text)
  missed-IsWrite n text = record { signal = λ d. refl; recipient = λ d. refl; closed = λ d is. is }

  -- A write reaches its row.
  pub save_delivery-Memᴰ :
      (f : NotificationDelivery → NotificationDelivery) (d : Stored NotificationDelivery) (i : ℕ)
      (w : World pf)
      → d.id ≡ i
      → IsWrite pf f
      → Memᴰ d (pf.orm.rows w.deliveries)
      → Memᴰ (record d { row = f d.row }) (pf.orm.rows (save_delivery pf i f w).deliveries)
  save_delivery-Memᴰ f d i w same k stored =
      let at : record d { row = f d.row } ≡ written i f d = rw (has_own_id i d same) refl in
      rw
        (pf.orm.save_law i f w.deliveries
          (λ a b. (rw (k.signal a, k.recipient a) refl, rw (k.signal a, k.recipient a) refl)))
        (Memᴰ.cast at (Memᴰ.map (written i f) stored))

  -- A later version of a row that was read.
  found_later :
      (d : Stored NotificationDelivery) (w v : World pf)
      → Grows pf w v
      → Memᴰ d (pf.orm.rows w.deliveries)
      → (x : Stored NotificationDelivery) × (x.id ≡ d.id) × Memᴰ x (pf.orm.rows v.deliveries)
  found_later d w v g stored =
      let (x, t, m) = Continues-Memᴰ Tracks d _ _ g.deliveries stored in (x, t.same_row, m)

module _ (pf : Platform) (V : World pf → Type 0) where
  -- a safe program that closes that delivery
  record Calm (i : ℕ) (w : World pf) (c : Program pf) : Type 0 where
    at : IsSafe pf V (Closed pf i) c w

  -- the last write of a task, which closes the delivery
  closing-IsSafe :
      (f : NotificationDelivery → NotificationDelivery) (d : Stored NotificationDelivery)
      (w : World pf)
      → IsWrite pf f
      → ((x : NotificationDelivery) → is_pending (f x).status ≡ false)
      → Memᴰ d (pf.orm.rows w.deliveries)
      → IsSafe pf V (Closed pf d.id) (do modify (save_delivery pf d.id f); done tt) w
  closing-IsSafe f d w k closes stored = λ u sound g _.
      let (sound', grown) = delivery_kept pf d.id f u k sound in
      let (x, same, stored') = found_later pf d w u g stored in
      (
        sound',
        grown,
        λ _ _. record {
          delivery = record x { row = f x.row };
          of = same;
          kept = save_delivery-Memᴰ pf f x d.id u same k stored';
          closed = closes x.row;
        },
      )

  conclude-IsSafe :
      (retries : ℕ) (d : Stored NotificationDelivery) (r : Result (Unit {0})) (w : World pf)
      → Memᴰ d (pf.orm.rows w.deliveries)
      → IsSafe pf V (Closed pf d.id) (conclude pf retries d r) w
  unfolding conclude
  conclude-IsSafe retries d (ok _) w stored = λ u sound g seen.
      closing-IsSafe (delivered pf d.row.attempts) d w (delivered-IsWrite pf d.row.attempts)
        (λ x. refl) stored u sound g seen
  conclude-IsSafe retries d (err (channel_delivery_error text)) w stored =
      elim (Bool-cases (leb max_retries retries)) [
        | inl last ↦ rw last (
            closing-IsSafe (gave_up pf d.row.attempts text) d w
              (gave_up-IsWrite pf d.row.attempts text) (λ x. refl) stored)
        | inr more ↦ rw more λ u sound g _.
            let (sound', grown) =
              delivery_kept pf d.id (missed pf d.row.attempts text) u
                (missed-IsWrite pf d.row.attempts text) sound in
            (
              sound',
              grown,
              λ _ _. λ v sound h _.
                  let (sound', grown) =
                    published_kept pf
                      (Message.send_notification d.id (retries + 1) (pf.backoff retries) ∷ []) v
                      sound in
                  (sound', grown, λ _ _. tt),
            )
      ]
  conclude-IsSafe retries d (err e) w stored = tt

  module _ (token : Option String) (post : Post) where
    try_delivery-IsSafe :
        (retries : ℕ) (d : Stored NotificationDelivery) (w : World pf)
        → Memᴰ d (pf.orm.rows w.deliveries)
        → IsSafe pf V (Closed pf d.id) (try_delivery pf token post retries d) w
    unfolding try_delivery
    try_delivery-IsSafe retries d w stored =
        (look _ _ (λ recipient. look _ _ (λ signal. look _ _ (λ evaluation. look _ _ (λ strategy.
          look _ _ (λ currency. look _ _ (λ candle. look _ _ (λ channel.
            look _ _
              (λ outcome. record { at = conclude-IsSafe retries d outcome w stored }))))))))).at
      where
        look :
            {B : Type 0} (f : World pf → Result B) (k : B → Program pf)
            → ((b : B) → Calm d.id w (k b))
            → Calm d.id w (ask (λ u. (f u, u)) k)
        look f k rest = record {
          at =
              Safe-look (Sound pf) (Grows pf) V (Grows-refl pf) (Grows-trans pf) (Closed pf d.id)
                (λ u v g h. Closed-later pf u v g d.id h) f k w (λ b. (rest b).at);
        }

    pub deliver-IsSafe :
        (retries i : ℕ) (w : World pf)
        → IsSafe pf V (Closed pf i) (deliver pf token post retries i) w
    unfolding deliver
    deliver-IsSafe retries i w = λ u sound g _. (
      sound,
      Grows-refl pf u,
      λ d found.
          let (is, _) = get-ok pf.orm (has_id i) u.deliveries d found in
          let stored = get-Memᴰ pf.orm (has_id i) u.deliveries d found in
          elim (Bool-cases (is_sent d.row.status)) [
            | inl e ↦ rw e (record {
              delivery = d;
              of = ground (arith, is);
              kept = stored;
              closed = sent_closed d.row.status e;
            })
            | inr e ↦ rw e (
                subst (λ j. IsSafe pf V (Closed pf j) (try_delivery pf token post retries d) u)
                  (ground (arith, is)) (try_delivery-IsSafe retries d u stored))
          ],
    )
