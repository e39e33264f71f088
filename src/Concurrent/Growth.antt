-- ===== src/Concurrent/Growth.antt =====
-- What one statement of a task leaves to the others, whatever they are: tables that only grow.
use cryptovira.Prelude.{
  ◌≡◌, refl, sym, ◌∙◌, Bool, true, false, List, [], ◌∷◌, ◌++◌, append-nil, append_assoc, any,
  Bool-cases, inl, inr, arith,
}
use mathlib.Core.List.{Memᴰ}
use mathlib.Core.List.Memᴰ
use cryptovira.Orm.{Stored}
use cryptovira.Signals.Models.{NotificationDelivery, is_pending}
use cryptovira.World.{Platform, World, Message}
use cryptovira.System.Growth.{Continues, Continues-refl, Continues-trans}

-- A delivery and what it is later: the same delivery, which is not pending again once it was closed.
pub record Tracks (before after : Stored NotificationDelivery) : Type 0 where
  pub same_row : after.id ≡ before.id
  pub same_signal : after.row.signal ≡ before.row.signal
  pub same_recipient : after.row.recipient ≡ before.row.recipient
  pub closed : is_pending before.row.status ≡ false → is_pending after.row.status ≡ false

pub Tracks-refl : (x : Stored NotificationDelivery) → Tracks x x
Tracks-refl x = record {
  same_row = refl;
  same_signal = refl;
  same_recipient = refl;
  closed = λ h. h;
}

Tracks-trans : (x y z : Stored NotificationDelivery) → Tracks x y → Tracks y z → Tracks x z
Tracks-trans x y z h k = record {
  same_row = k.same_row ∙ h.same_row;
  same_signal = k.same_signal ∙ h.same_signal;
  same_recipient = k.same_recipient ∙ h.same_recipient;
  closed = λ is. k.closed (h.closed is);
}

-- What a query finds, it finds in every longer list, if no item ceases to match.
pub Continues-matches :
    {A : Type 0} (R : A → A → Type 0) (p : A → Bool)
    → ((x y : A) → R x y → p x ≡ true → p y ≡ true)
    → (xs ys : List A) → Continues R xs ys
    → any p xs ≡ true
    → any p ys ≡ true
Continues-matches R p carried [] ys h found = cc found
Continues-matches R p carried (x ∷ xs) [] h found = absurd h
Continues-matches R p carried (x ∷ xs) (y ∷ ys) h found = elim (Bool-cases (p x)) [
  | inl e ↦ rw (carried x y h.0 e) refl
  | inr e ↦
      let rest = Continues-matches R p carried xs ys h.1 (rw e at found) in ground (arith, rest)
]

pub Continues-any :
    {A : Type 0} (p : A → Bool) (xs ys : List A)
    → Continues (λ a b. b ≡ a) xs ys
    → any p xs ≡ true
    → any p ys ≡ true
Continues-any p = Continues-matches (λ a b. b ≡ a) p (λ x y e h. rw e h)

-- An item of a list is in every longer list, as what it has become.
pub Continues-Memᴰ :
    {A : Type 0} (R : A → A → Type 0) (x : A) (xs ys : List A)
    → Continues R xs ys
    → Memᴰ x xs
    → (y : A) × R x y × Memᴰ y ys
Continues-Memᴰ R x [] ys h m = absurd (Memᴰ.not-nil m)
Continues-Memᴰ R x (a ∷ xs) [] h m = absurd h
Continues-Memᴰ R x (a ∷ xs) (b ∷ ys) h m = elim (Memᴰ.cases_cons m) [
  | inl e ↦ (b, rw e h.0, Memᴰ.head refl)
  | inr m' ↦ let (y, r, k) = Continues-Memᴰ R x xs ys h.1 m' in (y, r, Memᴰ.tail k)
]

pub Memᴰ-any :
    {A : Type 0} (p : A → Bool) (x : A) (xs : List A) → p x ≡ true → Memᴰ x xs → any p xs ≡ true
Memᴰ-any p x [] e m = absurd (Memᴰ.not-nil m)
Memᴰ-any p x (a ∷ xs) e m = elim (Memᴰ.cases_cons m) [
  | inl h ↦ rw (sym h, e) refl
  | inr m' ↦ let rest = Memᴰ-any p x xs e m' in ground (arith, rest)
]

pub Memᴰ-later :
    {A : Type 0} (x : A) (xs ys : List A) → Continues (λ a b. b ≡ a) xs ys → Memᴰ x xs → Memᴰ x ys
Memᴰ-later x xs ys h m =
    let (y, e, k) = Continues-Memᴰ (λ a b. b ≡ a) x xs ys h m in Memᴰ.cast (sym e) k

module _ (pf : Platform) where
  -- No candle, evaluation or signal is changed or lost, deliveries are tracked, and no message is
  -- taken back.
  pub record Grows (w w' : World pf) : Type 0 where
    pub candles : Continues (λ a b. b ≡ a) (pf.orm.rows w.candles) (pf.orm.rows w'.candles)
    pub evaluations :
        Continues (λ a b. b ≡ a) (pf.orm.rows w.evaluations) (pf.orm.rows w'.evaluations)
    pub signals : Continues (λ a b. b ≡ a) (pf.orm.rows w.signals) (pf.orm.rows w'.signals)
    pub deliveries : Continues Tracks (pf.orm.rows w.deliveries) (pf.orm.rows w'.deliveries)
    pub new : List Message
    pub published : w'.published ≡ w.published ++ new

  pub Grows-refl : (w : World pf) → Grows w w
  Grows-refl w = record {
    candles = Continues-refl _ (λ x. refl) _;
    evaluations = Continues-refl _ (λ x. refl) _;
    signals = Continues-refl _ (λ x. refl) _;
    deliveries = Continues-refl Tracks Tracks-refl _;
    new = [];
    published = sym (append-nil w.published);
  }

  pub Grows-trans : (u v w : World pf) → Grows u v → Grows v w → Grows u w
  Grows-trans u v w g h = record {
    candles = Continues-trans _ (λ x y z p q. q ∙ p) _ _ _ g.candles h.candles;
    evaluations = Continues-trans _ (λ x y z p q. q ∙ p) _ _ _ g.evaluations h.evaluations;
    signals = Continues-trans _ (λ x y z p q. q ∙ p) _ _ _ g.signals h.signals;
    deliveries = Continues-trans Tracks Tracks-trans _ _ _ g.deliveries h.deliveries;
    new = g.new ++ h.new;
    published = rw (h.published, g.published) (append_assoc u.published g.new h.new);
  }
