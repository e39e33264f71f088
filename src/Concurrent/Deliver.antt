-- ===== src/Concurrent/Deliver.antt =====
-- `dispatch_notifications`, `send_notification` and the fan-outs among other tasks.
use mathlib.Core.List.{Memᴰ}
use mathlib.Core.List.Memᴰ
use cryptovira.Prelude.{
  ℕ, ◌≡◌, refl, sym, ◌∙◌, true, List, [], ◌∷◌, any, map, All, All-imply, All-of_map, any-map, arith,
}
use cryptovira.Exec.{gets, modify}
use cryptovira.Orm.{Stored}
use cryptovira.Signals.Models.{
  Signal, NotificationRecipient, NotificationDelivery, new_delivery, same_delivery,
  same_delivery_refl,
}
use cryptovira.Strategy.Models.{Strategy}
use cryptovira.Signals.Tasks.{is_recipient, is_queued, deliveries_for}
use cryptovira.World.{Platform, World, Message, publish}
use cryptovira.World.Queries.{get-ok, get-Memᴰ, has_id, bulk_create-present}
use cryptovira.Concurrent.{◌>>=◌, ◌>>◌}
use cryptovira.Concurrent.Growth.{
  Grows, Grows-refl, Grows-trans, Continues-any, Memᴰ-any, Memᴰ-later,
}
use cryptovira.Concurrent.Statements.{published_kept, deliveries_kept}
use cryptovira.Concurrent.Programs.{publish_each, dispatch}
use cryptovira.Concurrent.Done.{Sent, Spread}
use cryptovira.Concurrent.Done.Lasts.{reached-later}
use cryptovira.Concurrent.Assess.{IsSafe}

module _ (pf : Platform) (V : World pf → Type 0) where
  -- Messages published one by one are all published at the end.
  pub publish_each-IsSafe :
      (Done : World pf → Type 0) (ms : List Message) (w : World pf)
      → ((v : World pf) → Grows pf w v → Sent pf ms v → Done v)
      → IsSafe pf V Done (publish_each pf ms) w
  unfolding publish_each
  publish_each-IsSafe Done [] w finish = finish w (Grows-refl pf w) tt
  publish_each-IsSafe Done (m ∷ ms) w finish = λ u sound g _.
      let (sound', grown) = published_kept pf (m ∷ []) u sound in
      let v : World pf = publish (m ∷ []) u in
      (
        sound',
        grown,
        λ _ _. publish_each-IsSafe Done ms v (λ x h sent.
            finish x (Grows-trans pf w v x (Grows-trans pf w u v g grown) h) (
              rw h.published
                  (Memᴰ.append_left h.new (Memᴰ.append_right u.published (Memᴰ.head refl))),
              sent,
            )),
      )

  -- The deliveries that `bulk_create` leaves, one for each recipient.
  reached :
      (signal : ℕ) (recipients : List (Stored NotificationRecipient)) (w : World pf)
      → All
          (λ r.
            any
              (λ d. same_delivery (new_delivery signal r.id) d.row)
              (pf.orm.rows (pf.orm.bulk_create (deliveries_for pf signal recipients) w.deliveries))
            ≡ true)
          recipients
  reached signal recipients w =
      let rows =
        pf.orm.rows (pf.orm.bulk_create (deliveries_for pf signal recipients) w.deliveries) in
      All-imply _ _
        (λ r is.
          sym (
            any-map (λ (s : Stored NotificationDelivery). s.row)
              (same_delivery (new_delivery signal r.id)) rows)
          ∙ is)
        recipients
        (All-of_map (λ (r : Stored NotificationRecipient). new_delivery signal r.id) _ recipients
          (bulk_create-present pf.orm same_delivery_refl (deliveries_for pf signal recipients)
            w.deliveries))

  -- the writes of `dispatch_notifications`, from what it has read
  fan_out-IsSafe :
      (signal : Stored Signal) (strategy : Stored Strategy)
      (recipients : List (Stored NotificationRecipient)) (w : World pf) (Done : World pf → Type 0)
      → Memᴰ signal (pf.orm.rows w.signals)
      → ((e v : World pf)
          → Grows pf w e
          → Grows pf e v
          → V e
          → Sent pf
              (map
                (λ d. Message.send_notification d.id 0 0)
                (pf.orm.filter (is_queued signal.id) e.deliveries))
              v
          → All
              (λ r.
                any
                  (λ d. same_delivery (new_delivery signal.id r.id) d.row)
                  (pf.orm.rows e.deliveries)
                ≡ true)
              recipients
          → Done v)
      → IsSafe pf V Done
          (do
            modify (λ w. record w {
              deliveries = pf.orm.bulk_create (deliveries_for pf signal.id recipients) w.deliveries;
            })
            queued ← gets (λ w. pf.orm.filter (is_queued signal.id) w.deliveries)
            publish_each pf (map (λ d. Message.send_notification d.id 0 0) queued))
          w
  fan_out-IsSafe signal strategy recipients w Done stored finish = λ e sound ge _.
      let here =
        Continues-any (has_id signal.id) _ _ ge.signals
          (Memᴰ-any (has_id signal.id) signal (pf.orm.rows w.signals) (ground arith) stored) in
      let (sound', grown) = deliveries_kept pf signal.id recipients e here sound in
      let f : World pf = record e {
        deliveries = pf.orm.bulk_create (deliveries_for pf signal.id recipients) e.deliveries;
      } in
      (
        sound',
        grown,
        λ _ _. λ x sound gx seen. (
          sound,
          Grows-refl pf x,
          λ queued read.
              let at : pf.orm.filter (is_queued signal.id) x.deliveries ≡ queued = cc read in
              publish_each-IsSafe Done _ x (λ v gv sent.
                finish x v (Grows-trans pf w f x (Grows-trans pf w e f ge grown) gx) gv seen
                  (rw at sent)
                  (reached-later pf signal.id recipients f x gx (reached signal.id recipients e))),
        ),
      )

  pub dispatch-IsSafe : (i : ℕ) (w : World pf) → IsSafe pf V (Spread pf V i) (dispatch pf i) w
  unfolding dispatch
  dispatch-IsSafe i w = λ a sound ga _. (
    sound,
    Grows-refl pf a,
    λ signal signal_found. λ b sound gb _. (
      sound,
      Grows-refl pf b,
      λ evaluation evaluation_found. λ c sound gc seen. (
        sound,
        Grows-refl pf c,
        λ strategy strategy_found. λ d sound gd seen_later. (
          sound,
          Grows-refl pf d,
          λ recipients read.
              let (is, _) = get-ok pf.orm (has_id i) a.signals signal signal_found in
              let (is', _) =
                get-ok pf.orm (has_id signal.row.evaluation) b.evaluations evaluation
                  evaluation_found in
              let stored = get-Memᴰ pf.orm (has_id i) a.signals signal signal_found in
              let stored' =
                get-Memᴰ pf.orm (has_id signal.row.evaluation) b.evaluations evaluation
                  evaluation_found in
              let at : pf.orm.filter (is_recipient strategy.row.user) d.recipients ≡ recipients =
                cc read in
              let gbd = Grows-trans pf b c d gc gd in
              let stored'' = Memᴰ-later _ _ _ gb.signals stored in
              let stored3 = Memᴰ-later _ _ _ gbd.signals stored'' in
              fan_out-IsSafe signal strategy recipients d (Spread pf V i) stored3
                (λ e v ge gv seen_last sent all. record {
                  signal = signal;
                  of = ground (arith, is);
                  kept = Memᴰ-later _ _ _ gv.signals (Memᴰ-later _ _ _ ge.signals stored3);
                  evaluation = evaluation;
                  evaluated = ground (arith, is');
                  evaluation_kept =
                      Memᴰ-later _ _ _ gv.evaluations (
                        Memᴰ-later _ _ _ ge.evaluations (Memᴰ-later _ _ _ gbd.evaluations stored'));
                  owned = c;
                  seen = seen;
                  strategy = strategy;
                  found = strategy_found;
                  earlier = d;
                  seen_later = seen_later;
                  followed = gd;
                  reached = rw at (reached-later pf signal.id recipients e v gv all);
                  written = e;
                  seen_last = seen_last;
                  after = ge;
                  since = gv;
                  published = sent;
                }),
        ),
      ),
    ),
  )
