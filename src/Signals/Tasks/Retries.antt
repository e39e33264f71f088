-- ===== src/Signals/Tasks/Retries.antt =====
-- `send_notification` with the retries that Celery runs for it.
use cryptovira.Prelude.{
  ℕ, zero, suc, ◌+◌, ◌≤◌, String, ◌≡◌, ◌≢◌, refl, subst, inl, inr, true, false, Option, All,
  All-imply, leb, ◌==◌, eq_of_==, Bool-cases, Option-cases, arith,
}
use cryptovira.Exec.{
  Exec, Result, ok, err, retry, value_error, channel_delivery_error, or_raise, continue_lem,
  and_then-ne-retry,
}
use cryptovira.Orm.{Stored}
use cryptovira.Signals.Models.{Signal, NotificationDelivery, is_sent, is_pending, channel_of}
use cryptovira.Signals.Messages.{render_signal_message}
use cryptovira.Signals.Services.{build_message_context}
use cryptovira.Signals.Channels.{Post, send, send-ne-retry}
use cryptovira.Signals.Tasks.{
  settle, attempt, send_notification, max_retries, save_delivery, delivered, gave_up,
}
use cryptovira.World.{Platform, World}
use cryptovira.World.Queries.{get, has_id, get-ok, get-ne-retry, saved-All}

module _ (pf : Platform) where
  -- No delivery of that primary key is pending.
  abbrev pub Closed : ℕ → World pf → Type 0
  Closed i w =
      All (λ x. (x.id == i) ≡ true → is_pending x.row.status ≡ false) (pf.orm.rows w.deliveries)

  saved-Closed :
      (i : ℕ) (g : NotificationDelivery → NotificationDelivery) (w : World pf)
      → ((x : NotificationDelivery) → is_pending (g x).status ≡ false)
      → ((x : NotificationDelivery) → ((g x).signal ≡ x.signal) × ((g x).recipient ≡ x.recipient))
      → Closed i (save_delivery pf i g w)
  saved-Closed i g w closed kept =
      saved-All pf.orm i g (λ y. is_pending y.status ≡ false) w.deliveries
        (λ x y. (rw ((kept x).0, (kept x).1) refl, rw ((kept x).0, (kept x).1) refl)) closed

  -- What a run ends in: a value, and the delivery is closed; or a retry, and it was not the last.
  abbrev Ends : ℕ → ℕ → Result (Unit {0}) × World pf → Type 0
  Ends retries i out =
      (out.0 ≡ ok tt → Closed i out.1)
      × ((c : ℕ) → out.0 ≡ err (retry c) → leb max_retries retries ≡ false)

  raised-Ends :
      (retries i : ℕ) {A : Type 0} (r : Result A) (w : World pf)
      → ((c : ℕ) → r ≢ err (retry c))
      → (e : _) → r ≡ err e
      → Ends retries i (err e, w)
  raised-Ends retries i r w other e h =
      ((λ q. cc), (λ c q. let k : r ≡ err (retry c) = cc (h, q) in absurd (other c k)))

  settle-Ends :
      (retries : ℕ) (d : Stored NotificationDelivery) (r : Result (Unit {0})) (w : World pf)
      → ((c : ℕ) → r ≢ err (retry c))
      → Ends retries d.id (settle pf retries d r w)
  unfolding settle
  settle-Ends retries d (ok _) w other = (
    (λ _. saved-Closed d.id (delivered pf d.row.attempts) w (λ x. refl) (λ x. (refl, refl))),
    (λ c q. cc),
  )
  settle-Ends retries d (err (channel_delivery_error text)) w other =
      elim (Bool-cases (leb max_retries retries)) [
        | inl e ↦ rw e (
          (λ _.
              saved-Closed d.id (gave_up pf d.row.attempts text) w (λ x. refl) (λ x. (refl, refl))),
          (λ c q. cc),
        )
        | inr e ↦ rw e ((λ q. cc), (λ c q. refl))
      ]
  settle-Ends retries d (err e) w other = ((λ q. cc), (λ c q. absurd (other c (cc q))))

  build_message_context-ne-retry :
      (s : Stored Signal) (w : World pf) (c : ℕ) → build_message_context pf s w ≢ err (retry c)
  unfolding build_message_context
  build_message_context-ne-retry s w c =
      and_then-ne-retry _ _ c (get-ne-retry pf.orm _ w.evaluations c) λ e.
        and_then-ne-retry _ _ c (get-ne-retry pf.orm _ w.strategies c) λ t.
          and_then-ne-retry _ _ c (get-ne-retry pf.orm _ w.currencies c)
            λ k. and_then-ne-retry _ _ c (get-ne-retry pf.orm _ w.candles c) λ b h. cc

  channel_of-ne-retry : (s : String) (c : ℕ) → or_raise (channel_of s) value_error ≢ err (retry c)
  channel_of-ne-retry s c h = elim (Option-cases (channel_of s)) [
    | inl e ↦ cc (rw e at h)
    | inr (k, e) ↦ cc (rw e at h)
  ]

  module _ (token : Option String) (post : Post) (retries : ℕ) where
    attempt-Ends :
        (d : Stored NotificationDelivery) (w : World pf)
        → Ends retries d.id (attempt pf token post retries d w)
    unfolding attempt
    attempt-Ends d w =
        continue_lem (Ends retries d.id) (get pf.orm (has_id d.row.recipient) w.recipients) w _
          (raised-Ends retries d.id _ w (get-ne-retry pf.orm _ w.recipients))
          λ recipient _.
            continue_lem (Ends retries d.id) (get pf.orm (has_id d.row.signal) w.signals) w _
              (raised-Ends retries d.id _ w (get-ne-retry pf.orm _ w.signals))
              λ signal _.
                continue_lem (Ends retries d.id) (build_message_context pf signal w) w _
                  (raised-Ends retries d.id _ w (build_message_context-ne-retry signal w))
                  λ context _.
                    continue_lem (Ends retries d.id)
                      (or_raise (channel_of recipient.row.channel) value_error) w _
                      (raised-Ends retries d.id _ w (channel_of-ne-retry recipient.row.channel))
                      λ channel _.
                        settle-Ends retries d
                          (send token post channel recipient.row.destination
                            (render_signal_message pf.python context))
                          w
                          (send-ne-retry token post channel recipient.row.destination
                            (render_signal_message pf.python context))

    sent-Ends :
        (i : ℕ) (d : Stored NotificationDelivery) (w : World pf)
        → get pf.orm (has_id i) w.deliveries ≡ ok d
        → is_sent d.row.status ≡ true
        → Ends retries i (ok tt, w)
    sent-Ends i d w found done = (
      (λ _.
          All-imply _ _ (λ x only k. rw (only k) (ground (arith))) (pf.orm.rows w.deliveries)
            (get-ok pf.orm (has_id i) w.deliveries d found).1),
      (λ c q. cc),
    )

    send_notification-Ends :
        (i : ℕ) (w : World pf) → Ends retries i (send_notification pf token post retries i w)
    unfolding send_notification
    send_notification-Ends i w =
        continue_lem (Ends retries i) (get pf.orm (has_id i) w.deliveries) w _
          (raised-Ends retries i _ w (get-ne-retry pf.orm _ w.deliveries))
          λ d found. elim (Bool-cases (is_sent d.row.status)) [
            | inl done ↦ rw done (sent-Ends i d w found done)
            | inr unsent ↦
                let here : d.id ≡ i =
                  eq_of_== d.id i (get-ok pf.orm (has_id i) w.deliveries d found).0 in
                rw unsent (
                  subst (λ k. Ends retries k (attempt pf token post retries d w)) here
                    (attempt-Ends d w))
          ]

  -- A run of `send_notification` that raises nothing leaves no row of that delivery pending.
  send_notification-Closed :
      (token : Option String) (post : Post) (retries i : ℕ) (w : World pf)
      → (send_notification pf token post retries i w).0 ≡ ok tt
      → Closed i (send_notification pf token post retries i w).1
  send_notification-Closed token post retries i w =
      (send_notification-Ends token post retries i w).0

  -- The task queue's part: a run that raised `Retry` is followed by one with the next count.
  abbrev retried :
      Result (Unit {0}) × World pf
      → (World pf → Result (Unit {0}) × World pf)
      → Result (Unit {0}) × World pf
  retried (err (retry c), w) next = next w
  retried out next = out

  -- No further try is asked for, and unless an exception ended the tries, the delivery is closed.
  abbrev pub Finished : ℕ → Result (Unit {0}) × World pf → Type 0
  Finished i out = ((c : ℕ) → out.0 ≢ err (retry c)) × (out.0 ≡ ok tt → Closed i out.1)

  -- A channel for each try, and what else happens in the system before the next one.
  module _ (token : Option String) (post : ℕ → Post) (meanwhile : ℕ → World pf → World pf) where
    unfoldable pub run_to_end : ℕ → ℕ → ℕ → Exec (World pf) Unit
    run_to_end zero retries i w = (err (retry 0), w)
    run_to_end (suc more) retries i w =
        retried (send_notification pf token (post retries) retries i w)
          (λ w'. run_to_end more (retries + 1) i (meanwhile retries w'))

    retried-Ends :
        (retries i : ℕ) (out : Result (Unit {0}) × World pf)
        (next : World pf → Result (Unit {0}) × World pf)
        → Ends retries i out
        → (leb max_retries retries ≡ false → (w : World pf) → Finished i (next w))
        → Finished i (retried out next)
    retried-Ends retries i (ok _, w) next h k = ((λ c q. cc), h.0)
    retried-Ends retries i (err (retry c), w) next h k = k (h.1 c refl) w
    retried-Ends retries i (err e, w) next h k = ((λ c q. cc), h.0)

    -- With one try or more, as many as are left of six after the retries so far, the runs of
    -- `send_notification` that follow one another on `Retry` come to an end: whatever the channel
    -- answers and whatever happens between them, the last does not ask for a further one. If it
    -- raised nothing, no row of that delivery is pending.
    pub run_to_end-Finished :
        (more retries i : ℕ) (w : World pf)
        → max_retries + 1 ≤ more + retries
        → 1 ≤ more
        → Finished i (run_to_end more retries i w)
    unfolding run_to_end
    run_to_end-Finished zero retries i w enough some_left = absurd (omega arith)
    run_to_end-Finished (suc more) retries i w enough some_left =
        retried-Ends retries i (send_notification pf token (post retries) retries i w) _
          (send_notification-Ends token (post retries) retries i w)
          λ early w'.
            run_to_end-Finished more (retries + 1) i (meanwhile retries w') (omega arith)
              (ground arith)
