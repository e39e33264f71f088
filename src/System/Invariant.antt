-- ===== src/System/Invariant.antt =====
-- What holds of every state that the program reaches, and between a state and any later one.
use cryptovira.Prelude.{
  some, ℕ, ◌≤◌, ◌≡◌, refl, ap, ◌∙◌, false, any-append, All, All-append, All-imply, arith,
}
use cryptovira.Orm.{Stored}
use cryptovira.Orm.Merge.{IsUnique}
use cryptovira.Market.Models.{same_bar}
use cryptovira.Strategy.Models.{Strategy, same_candle}
use cryptovira.Strategy.Schema.{StrategyConfig, model_validate}
use cryptovira.Signals.Models.{
  same_evaluation, same_delivery, NotificationDelivery, DeliveryStatus, pending, sent, failed,
  is_pending,
}
use cryptovira.Signals.Tasks.Delivery.{Advanced}
use cryptovira.World.{Platform, World}
use cryptovira.World.Matches.{contents}
use cryptovira.System.Growth.{Continues, Continues-kept, Continues-refl, Continues-trans}
use cryptovira.System.Judging.{HasEvaluation, Judged}
use cryptovira.System.Sending.{HasSignal, Dispatched}

-- A delivery and what it is later: the same delivery, with no attempt uncounted; one that was sent
-- is unchanged, and one that was closed is not pending again.
pub record Progressed (before after : Stored NotificationDelivery) : Type 0 where
  pub same_row : after.id ≡ before.id
  pub same_signal : after.row.signal ≡ before.row.signal
  pub same_recipient : after.row.recipient ≡ before.row.recipient
  pub counted : before.row.attempts ≤ after.row.attempts
  pub final : before.row.status ≡ sent → after ≡ before
  pub closed : is_pending before.row.status ≡ false → is_pending after.row.status ≡ false

pub Progressed-refl : (x : Stored NotificationDelivery) → Progressed x x
Progressed-refl x = record {
  same_row = refl;
  same_signal = refl;
  same_recipient = refl;
  counted = omega arith;
  final = λ _. refl;
  closed = λ h. h;
}

Progressed-trans :
    (x y z : Stored NotificationDelivery) → Progressed x y → Progressed y z → Progressed x z
Progressed-trans x y z h k = record {
  same_row = k.same_row ∙ h.same_row;
  same_signal = k.same_signal ∙ h.same_signal;
  same_recipient = k.same_recipient ∙ h.same_recipient;
  counted = omega (arith, h.counted, k.counted);
  final = λ is. k.final (ap (λ d. d.row.status) (h.final is) ∙ is) ∙ h.final is;
  closed = λ is. k.closed (h.closed is);
}

stays_closed :
    (a b : DeliveryStatus)
    → (a ≡ sent → b ≡ a)
    → (a ≡ failed → is_pending b ≡ false)
    → is_pending a ≡ false
    → is_pending b ≡ false
stays_closed pending b final given_up h = cc h
stays_closed sent b final given_up h = rw (final refl) refl
stays_closed failed b final given_up h = given_up refl

pub Advanced-Progressed :
    (i : ℕ) (x y : Stored NotificationDelivery) → Advanced i x y → Progressed x y
Advanced-Progressed i x y a = record {
  same_row = a.same_row;
  same_signal = a.same_signal;
  same_recipient = a.same_recipient;
  counted = a.counted.0;
  final = a.final;
  closed =
      stays_closed x.row.status y.row.status (λ is. ap (λ d. d.row.status) (a.final is)) a.given_up;
}

module _ (pf : Platform) where
  -- The configuration is valid.
  abbrev pub IsConfigured : Stored Strategy → Type 0
  IsConfigured x =
      (config : StrategyConfig pf.python) × (model_validate pf.python pf.pydantic x.row.config
        ≡ some config)

  -- The tables keep their unique constraints: a candle for a bar, an evaluation of a strategy at a
  -- candle, a signal for an evaluation, a delivery of a signal to a recipient. Every signal has its
  -- evaluation, which triggered, every delivery its signal, and every strategy a valid
  -- configuration.
  pub record Sound (w : World pf) : Type 0 where
    pub candles_unique : IsUnique same_bar (contents (pf.orm.rows w.candles))
    pub evaluations_unique : IsUnique same_candle (contents (pf.orm.rows w.evaluations))
    pub signals_unique : IsUnique same_evaluation (contents (pf.orm.rows w.signals))
    pub deliveries_unique : IsUnique same_delivery (contents (pf.orm.rows w.deliveries))
    pub backed : All (HasEvaluation pf w) (pf.orm.rows w.signals)
    pub signalled : All (HasSignal pf w) (pf.orm.rows w.deliveries)
    pub configured : All IsConfigured (pf.orm.rows w.strategies)

  -- No candle, evaluation or signal is changed or lost from the first state to the second, and a
  -- delivery only progresses.
  pub record Grown (w w' : World pf) : Type 0 where
    pub candles : Continues (λ a b. b ≡ a) (pf.orm.rows w.candles) (pf.orm.rows w'.candles)
    pub evaluations :
        Continues (λ a b. b ≡ a) (pf.orm.rows w.evaluations) (pf.orm.rows w'.evaluations)
    pub signals : Continues (λ a b. b ≡ a) (pf.orm.rows w.signals) (pf.orm.rows w'.signals)
    pub deliveries : Continues Progressed (pf.orm.rows w.deliveries) (pf.orm.rows w'.deliveries)

  pub Grown-refl : (w : World pf) → Grown w w
  Grown-refl w = record {
    candles = Continues-refl _ (λ x. refl) _;
    evaluations = Continues-refl _ (λ x. refl) _;
    signals = Continues-refl _ (λ x. refl) _;
    deliveries = Continues-refl Progressed Progressed-refl _;
  }

  pub Grown-trans : (u v w : World pf) → Grown u v → Grown v w → Grown u w
  Grown-trans u v w g h = record {
    candles = Continues-trans _ (λ x y z p q. q ∙ p) _ _ _ g.candles h.candles;
    evaluations = Continues-trans _ (λ x y z p q. q ∙ p) _ _ _ g.evaluations h.evaluations;
    signals = Continues-trans _ (λ x y z p q. q ∙ p) _ _ _ g.signals h.signals;
    deliveries = Continues-trans Progressed Progressed-trans _ _ _ g.deliveries h.deliveries;
  }

  -- What one step does.
  abbrev pub Kept : World pf → World pf → Type 0
  Kept w w' = Sound w' × Grown w w'

  pub Judged-Kept : (w w' : World pf) → Sound w → Judged pf w w' → Kept w w'
  Judged-Kept w w' s j = rw j.world (
    record {
      candles_unique = s.candles_unique;
      evaluations_unique = j.unique;
      signals_unique = j.signals_unique;
      deliveries_unique = s.deliveries_unique;
      backed = rw j.signals_kept (
          All-append _ (pf.orm.rows w.signals) j.new
            (All-imply _ _ (λ x h. rw (j.kept, any-append) (ground (arith, h)))
              (pf.orm.rows w.signals) s.backed)
            j.new_backed);
      signalled =
          All-imply _ _ (λ d h. rw (j.signals_kept, any-append) (ground (arith, h)))
            (pf.orm.rows w.deliveries) s.signalled;
      configured = s.configured;
    },
    record {
      candles = Continues-refl _ (λ x. refl) _;
      evaluations = Continues-kept _ (λ x. refl) _ _ j.more j.kept;
      signals = Continues-kept _ (λ x. refl) _ _ j.new j.signals_kept;
      deliveries = Continues-refl Progressed Progressed-refl _;
    },
  )

  pub Dispatched-Kept : (w w' : World pf) → Sound w → Dispatched pf w w' → Kept w w'
  Dispatched-Kept w w' s d = rw d.posted.world (
    record {
      candles_unique = s.candles_unique;
      evaluations_unique = s.evaluations_unique;
      signals_unique = s.signals_unique;
      deliveries_unique = d.unique;
      backed = s.backed;
      signalled =
          rw d.kept (All-append _ (pf.orm.rows w.deliveries) d.more s.signalled d.new_signalled);
      configured = s.configured;
    },
    record {
      candles = Continues-refl _ (λ x. refl) _;
      evaluations = Continues-refl _ (λ x. refl) _;
      signals = Continues-refl _ (λ x. refl) _;
      deliveries = Continues-kept Progressed Progressed-refl _ _ d.more d.kept;
    },
  )
