-- ===== src/Concurrent/Statements.antt =====
-- What each write of a task keeps, in any sound state.
use cryptovira.Prelude.{
  ℕ, String, ◌≡◌, refl, sym, ◌∙◌, Bool, true, false, List, [], ◌∷◌, ◌++◌, append-nil, any, All,
  All-imply, All-map, All-of_map, All-trivial, Each, Each-map, ◌==◌, Bool-cases, inl, inr,
}
use cryptovira.Orm.{Stored, written}
use cryptovira.Market.Models.{Candle}
use cryptovira.Strategy.Tasks.{audit_row}
use cryptovira.Signals.Models.{
  Signal, NotificationRecipient, NotificationDelivery, new_delivery, same_evaluation, same_delivery,
  is_pending,
}
use cryptovira.Signals.Services.{of_evaluation}
use cryptovira.Signals.Tasks.{deliveries_for, save_delivery}
use cryptovira.World.{Platform, World, Message, publish}
use cryptovira.World.Queries.{has_id, append-IsUnique, bulk_create-IsUnique, bulk_create-append}
use cryptovira.System.Growth.{Continues, Continues-refl, Each-Continues, Each-All, Each-IsUnique}
use cryptovira.System.Judging.{backs, audited-Judged}
use cryptovira.System.Sending.{HasSignal}
use cryptovira.System.Invariant.{
  Progressed, Sound, IsConfigured, Grown, Grown-refl, Judged-Kept, Dispatched-Kept,
}
use cryptovira.System.Invariant
use cryptovira.System.Reachable.{aside, candles-Kept}
use cryptovira.Concurrent.Safe.{Kept}
use cryptovira.Concurrent.Growth.{Tracks, Tracks-refl, Grows}

Progressed-Tracks : (x y : Stored NotificationDelivery) → Progressed x y → Tracks x y
Progressed-Tracks x y p = record {
  same_row = p.same_row;
  same_signal = p.same_signal;
  same_recipient = p.same_recipient;
  closed = p.closed;
}

Continues-imply :
    {A : Type 0} (R S : A → A → Type 0)
    → ((x y : A) → R x y → S x y)
    → (xs ys : List A) → Continues R xs ys
    → Continues S xs ys
Continues-imply R S each [] ys h = tt
Continues-imply R S each (x ∷ xs) [] h = absurd h
Continues-imply R S each (x ∷ xs) (y ∷ ys) h = (each x y h.0, Continues-imply R S each xs ys h.1)

module _ (pf : Platform) where
  -- a sound state, with all that was there
  abbrev pub Keeps : World pf → World pf → Type 0
  Keeps = Kept (Sound pf) (Grows pf)

  -- From what a task as a whole keeps.
  Keeps-of_Kept :
      (w w' : World pf) (new : List Message)
      → w'.published ≡ w.published ++ new
      → Invariant.Kept pf w w'
      → Keeps w w'
  Keeps-of_Kept w w' new published (sound, grown) = (
    sound,
    record {
      candles = grown.candles;
      evaluations = grown.evaluations;
      signals = grown.signals;
      deliveries = Continues-imply Progressed Tracks Progressed-Tracks _ _ grown.deliveries;
      new = new;
      published = published;
    },
  )

  pub published_kept : (ms : List Message) (w : World pf) → Sound pf w → Keeps w (publish ms w)
  published_kept ms w s =
      Keeps-of_Kept w _ ms refl (aside pf w _ refl refl refl refl s.configured s)

  -- a write to tables that neither part speaks of
  pub aside_kept :
      (w w' : World pf)
      → w'.candles ≡ w.candles
      → w'.evaluations ≡ w.evaluations
      → w'.signals ≡ w.signals
      → w'.deliveries ≡ w.deliveries
      → w'.published ≡ w.published
      → All (IsConfigured pf) (pf.orm.rows w'.strategies)
      → Sound pf w
      → Keeps w w'
  aside_kept w w' c e g d p configured s =
      Keeps-of_Kept w w' [] (p ∙ sym (append-nil w.published)) (aside pf w w' c e g d configured s)

  pub candles_kept :
      (new : List (Candle pf.python)) (w : World pf)
      → Sound pf w
      → Keeps w (record w { candles = pf.orm.bulk_create new w.candles })
  candles_kept new w s =
      Keeps-of_Kept w _ [] (sym (append-nil w.published)) (candles-Kept pf new w s)

  pub audited_kept :
      (strategy time : ℕ) (verdict : Bool × String) (w : World pf)
      → Sound pf w
      → Keeps w (record w {
        evaluations = pf.orm.bulk_create (audit_row pf strategy time verdict ∷ []) w.evaluations;
      })
  audited_kept strategy time verdict w s =
      let j = audited-Judged pf w s.evaluations_unique s.signals_unique strategy time verdict in
      Keeps-of_Kept w _ [] (sym (append-nil w.published)) (Judged-Kept pf w _ s j)

  -- the new signal of a stored evaluation that triggered
  pub signal_kept :
      (evaluation i : ℕ) (w : World pf) (t : pf.orm.Table Signal same_evaluation)
      → pf.orm.rows t
        ≡ pf.orm.rows w.signals ++ record { id = i; row = record { evaluation = evaluation } } ∷ []
      → any (of_evaluation evaluation) (pf.orm.rows w.signals) ≡ false
      → any
          (backs (record { id = i; row = record { evaluation = evaluation } }))
          (pf.orm.rows w.evaluations)
        ≡ true
      → Sound pf w
      → Keeps w (record w { signals = t })
  signal_kept evaluation i w t at none backed s =
      let new : Stored Signal = record { id = i; row = record { evaluation = evaluation } } in
      Keeps-of_Kept w _ [] (sym (append-nil w.published)) (
        Judged-Kept pf w _ s (record {
          evaluations = w.evaluations;
          signals = t;
          published = w.published;
          world = refl;
          more = [];
          kept = sym (append-nil _);
          unique = s.evaluations_unique;
          new = new ∷ [];
          signals_kept = at;
          signals_unique =
              rw at
                (append-IsUnique same_evaluation (pf.orm.rows w.signals) new s.signals_unique none);
          new_backed = (backed, tt);
        }))

  pub deliveries_kept :
      (signal : ℕ) (recipients : List (Stored NotificationRecipient)) (w : World pf)
      → any (has_id signal) (pf.orm.rows w.signals) ≡ true
      → Sound pf w
      → Keeps w (record w {
        deliveries = pf.orm.bulk_create (deliveries_for pf signal recipients) w.deliveries;
      })
  deliveries_kept signal recipients w found s =
      let (more, at, all) =
        bulk_create-append pf.orm (λ d. d.signal ≡ signal) (deliveries_for pf signal recipients)
          w.deliveries
          (All-map (λ (r : Stored NotificationRecipient). new_delivery signal r.id) (λ r. Unit {0})
            (λ d. d.signal ≡ signal) (λ r _. refl) recipients (All-trivial recipients)) in
      Keeps-of_Kept w _ [] (sym (append-nil w.published)) (
        Dispatched-Kept pf w _ s (record {
          posted = record { deliveries = _; published = _; world = refl };
          more = more;
          kept = at;
          unique = bulk_create-IsUnique pf.orm _ w.deliveries s.deliveries_unique;
          new_signalled =
              All-imply _ _ (λ d is. rw is found) more
                (All-of_map (λ s. s.row) (λ d. d.signal ≡ signal) more all);
        }))

  -- a write to a delivery that keeps what it is of, and does not open it again
  pub record IsWrite (f : NotificationDelivery → NotificationDelivery) : Type 0 where
    pub signal : (d : NotificationDelivery) → (f d).signal ≡ d.signal
    pub recipient : (d : NotificationDelivery) → (f d).recipient ≡ d.recipient
    pub closed :
        (d : NotificationDelivery) → is_pending d.status ≡ false → is_pending (f d).status ≡ false

  written-Tracks :
      (i : ℕ) (f : NotificationDelivery → NotificationDelivery) (x : Stored NotificationDelivery)
      → IsWrite f
      → Tracks x (written i f x)
  written-Tracks i f x k = elim (Bool-cases (x.id == i)) [
    | inl e ↦ rw e (record {
      same_row = refl;
      same_signal = k.signal x.row;
      same_recipient = k.recipient x.row;
      closed = k.closed x.row;
    })
    | inr e ↦ rw e (Tracks-refl x)
  ]

  pub delivery_kept :
      (i : ℕ) (f : NotificationDelivery → NotificationDelivery) (w : World pf)
      → IsWrite f
      → Sound pf w
      → Keeps w (save_delivery pf i f w)
  delivery_kept i f w k s =
      let rows = pf.orm.rows w.deliveries in
      let after = pf.orm.rows (pf.orm.save i f w.deliveries) in
      let tracked : Each Tracks rows after =
        rw
          (pf.orm.save_law i f w.deliveries
            (λ a b. (rw (k.signal a, k.recipient a) refl, rw (k.signal a, k.recipient a) refl)))
          (Each-map Tracks (written i f) rows
            (All-imply _ _ (λ x _. written-Tracks i f x k) rows (All-trivial rows))) in
      (
        record {
          candles_unique = s.candles_unique;
          evaluations_unique = s.evaluations_unique;
          signals_unique = s.signals_unique;
          deliveries_unique =
              Each-IsUnique same_delivery Tracks
                (λ a b a' b' h k.
                  rw (h.same_signal, h.same_recipient, k.same_signal, k.same_recipient) refl)
                rows after tracked s.deliveries_unique;
          backed = s.backed;
          signalled =
              Each-All Tracks (HasSignal pf w) (λ x y a h. rw a.same_signal h) rows after tracked
                s.signalled;
          configured = s.configured;
        },
        record {
          candles = Continues-refl _ (λ x. refl) _;
          evaluations = Continues-refl _ (λ x. refl) _;
          signals = Continues-refl _ (λ x. refl) _;
          deliveries = Each-Continues Tracks rows after tracked;
          new = [];
          published = sym (append-nil w.published);
        },
      )
