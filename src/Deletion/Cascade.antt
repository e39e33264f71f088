-- ===== src/Deletion/Cascade.antt =====
-- What a deletion leaves: no dangling foreign key, and the invariant of the tasks.
use cryptovira.Prelude.{
  ℕ, ◌≡◌, refl, Bool, true, false, not, List, [], ◌∷◌, select, any, any_none, All, All-imply,
  All-trivial, All-of_select, Bool-cases, inl, inr, ◌==◌, arith,
}
use cryptovira.Orm.{Stored}
use cryptovira.Orm.Merge.{IsUnique}
use cryptovira.World.{Platform, World}
use cryptovira.World.Matches.{contents}
use cryptovira.World.Queries.{has_id}
use cryptovira.System.Judging.{backs, HasEvaluation}
use cryptovira.System.Sending.{HasSignal}
use cryptovira.System.Invariant.{Sound, IsConfigured}
use cryptovira.Deletion.{
  kept, gone_at, Chosen, strategy_gone, recipient_gone, evaluation_gone, backtest_gone, signal_gone,
  delivery_gone, Deleted, Linked, users_left,
}

module _ {Row : Type 0} where
  -- A row that is found, and whose primary key does not go, is found afterwards.
  any-kept :
      (gone p : Stored Row → Bool) (i : ℕ)
      → ((t : Stored Row) → p t ≡ true → (t.id == i) ≡ true)
      → (l : List (Stored Row)) → gone_at gone l i ≡ false
      → any p l ≡ true
      → any p (kept gone l) ≡ true
  any-kept gone p i same [] stays found = cc found
  any-kept gone p i same (x ∷ l) stays found = elim (Bool-cases (gone x)) [
    | inl e ↦ elim (Bool-cases (p x)) [
      | inl e' ↦ absurd (ground (arith, same x e'))
      | inr e' ↦ rw e (any-kept gone p i same l (ground arith) (rw e' at found))
    ]
    | inr e ↦ elim (Bool-cases (p x)) [
      | inl e' ↦ rw (e, e') refl
      | inr e' ↦ rw (e, e') (any-kept gone p i same l (rw e at stays) (rw e' at found))
    ]
  ]

  contents-All :
      (P : Row → Type 0) (p : Stored Row → Bool) (l : List (Stored Row))
      → All P (contents l)
      → All P (contents (select p l))
  contents-All P p [] h = tt
  contents-All P p (x ∷ l) h = elim (Bool-cases (p x)) [
    | inl e ↦ rw e (h.0, contents-All P p l h.1)
    | inr e ↦ rw e (contents-All P p l h.1)
  ]

  select-IsUnique :
      (clash : Row → Row → Bool) (p : Stored Row → Bool) (l : List (Stored Row))
      → IsUnique clash (contents l)
      → IsUnique clash (contents (select p l))
  select-IsUnique clash p [] u = tt
  select-IsUnique clash p (x ∷ l) u = elim (Bool-cases (p x)) [
    | inl e ↦ rw e (contents-All _ p l u.0, select-IsUnique clash p l u.1)
    | inr e ↦ rw e (select-IsUnique clash p l u.1)
  ]

module _ {A B : Type 0} (gone : Stored A → Bool) (gone' : Stored B → Bool) (fk : Stored B → ℕ)
    (p : Stored B → Stored A → Bool)
    (same : (x : Stored B) (t : Stored A) → p x t ≡ true → (t.id == fk x) ≡ true)
    (targets : List (Stored A)) where
  -- Rows whose targets stay where they stay have them afterwards.
  kept-All :
      (xs : List (Stored B))
      → All (λ x. gone' x ≡ false → gone_at gone targets (fk x) ≡ false) xs
      → All (λ x. any (p x) targets ≡ true) xs
      → All (λ x. any (p x) (kept gone targets) ≡ true) (kept gone' xs)
  kept-All [] stay h = tt
  kept-All (x ∷ xs) stay h = elim (Bool-cases (gone' x)) [
    | inl e ↦ rw e (kept-All xs stay.1 h.1)
    | inr e ↦
        rw e (any-kept gone (p x) (fk x) (same x) targets (stay.0 e) h.0, kept-All xs stay.1 h.1)
  ]

  -- the same, where every row goes with its target
  cascaded-All :
      ((x : Stored B) → gone' x ≡ false → gone_at gone targets (fk x) ≡ false)
      → (xs : List (Stored B)) → All (λ x. any (p x) targets ≡ true) xs
      → All (λ x. any (p x) (kept gone targets) ≡ true) (kept gone' xs)
  cascaded-All cascades xs = kept-All xs (All-imply _ _ (λ x _. cascades x) xs (All-trivial xs))

-- What holds of the rows that were there and stay.
stays-All :
    {Row : Type 0} (gone : Stored Row → Bool) (P Q : Stored Row → Type 0)
    → ((x : Stored Row) → gone x ≡ false → P x → Q x)
    → (xs : List (Stored Row)) → All P xs
    → All Q (kept gone xs)
stays-All gone P Q holds [] h = tt
stays-All gone P Q holds (x ∷ xs) h = elim (Bool-cases (gone x)) [
  | inl e ↦ rw e (stays-All gone P Q holds xs h.1)
  | inr e ↦ rw e (holds x e h.0, stays-All gone P Q holds xs h.1)
]

module _ (pf : Platform) (users : ℕ → Bool) (c : Chosen pf) (w w' : World pf)
    (d : Deleted pf c w w') where
  -- A currency that a row refers to was not chosen.
  unprotected-All :
      {Row : Type 0} (gone : Stored Row → Bool) (currency : Stored Row → ℕ) (xs : List (Stored Row))
      → any (λ x. gone_at c.currency (pf.orm.rows w.currencies) (currency x)) xs ≡ false
      → All (λ x. any (has_id (currency x)) (pf.orm.rows w.currencies) ≡ true) xs
      → All
          (λ x. any (has_id (currency x)) (kept c.currency (pf.orm.rows w.currencies)) ≡ true)
          (kept gone xs)
  unprotected-All gone currency xs free =
      kept-All c.currency gone currency (λ x t. has_id (currency x) t) (λ x t h. h)
        (pf.orm.rows w.currencies) xs (All-imply _ _ (λ x h _. h) xs (any_none _ xs free))

  linked : Linked pf users w → Linked pf (users_left pf c users) w'
  linked l = record {
    owners = rw d.strategies (
        stays-All (strategy_gone pf c) (λ x. users x.row.user ≡ true)
          (λ x. users_left pf c users x.row.user ≡ true) (λ x e h. ground arith)
          (pf.orm.rows w.strategies) l.owners);
    addressees = rw d.recipients (
        stays-All (recipient_gone pf c) (λ x. users x.row.user ≡ true)
          (λ x. users_left pf c users x.row.user ≡ true) (λ x e h. ground arith)
          (pf.orm.rows w.recipients) l.addressees);
    candles =
        rw (d.candles, d.currencies)
          (unprotected-All c.candle (λ x. x.row.currency) (pf.orm.rows w.candles)
            (let free = d.allowed in ground arith) l.candles);
    strategies =
        rw (d.strategies, d.currencies)
          (unprotected-All (strategy_gone pf c) (λ x. x.row.currency) (pf.orm.rows w.strategies)
            (let free = d.allowed in ground arith) l.strategies);
    evaluations =
        rw (d.evaluations, d.strategies)
          (cascaded-All (strategy_gone pf c) (evaluation_gone pf c w) (λ x. x.row.strategy)
            (λ x t. has_id x.row.strategy t) (λ x t h. h) (pf.orm.rows w.strategies)
            (λ x h. ground arith) (pf.orm.rows w.evaluations) l.evaluations);
    backtests =
        rw (d.backtests, d.strategies)
          (cascaded-All (strategy_gone pf c) (backtest_gone pf c w) (λ x. x.row.strategy)
            (λ x t. has_id x.row.strategy t) (λ x t h. h) (pf.orm.rows w.strategies)
            (λ x h. ground arith) (pf.orm.rows w.backtests) l.backtests);
    signals =
        rw (d.signals, d.evaluations)
          (cascaded-All (evaluation_gone pf c w) (signal_gone pf c w) (λ x. x.row.evaluation)
            (λ x t. has_id x.row.evaluation t) (λ x t h. h) (pf.orm.rows w.evaluations)
            (λ x h. ground arith) (pf.orm.rows w.signals) l.signals);
    delivered_signals =
        rw (d.deliveries, d.signals)
          (cascaded-All (signal_gone pf c w) (delivery_gone pf c w) (λ x. x.row.signal)
            (λ x t. has_id x.row.signal t) (λ x t h. h) (pf.orm.rows w.signals)
            (λ x h. ground arith) (pf.orm.rows w.deliveries) l.delivered_signals);
    delivered_recipients =
        rw (d.deliveries, d.recipients)
          (cascaded-All (recipient_gone pf c) (delivery_gone pf c w) (λ x. x.row.recipient)
            (λ x t. has_id x.row.recipient t) (λ x t h. h) (pf.orm.rows w.recipients)
            (λ x h. ground arith) (pf.orm.rows w.deliveries) l.delivered_recipients);
  }

  sound : Sound pf w → Sound pf w'
  sound s = record {
    candles_unique = rw d.candles (select-IsUnique _ _ (pf.orm.rows w.candles) s.candles_unique);
    evaluations_unique =
        rw d.evaluations (select-IsUnique _ _ (pf.orm.rows w.evaluations) s.evaluations_unique);
    signals_unique = rw d.signals (select-IsUnique _ _ (pf.orm.rows w.signals) s.signals_unique);
    deliveries_unique =
        rw d.deliveries (select-IsUnique _ _ (pf.orm.rows w.deliveries) s.deliveries_unique);
    backed =
        rw (d.signals, HasEvaluation, d.evaluations)
          (cascaded-All (evaluation_gone pf c w) (signal_gone pf c w) (λ x. x.row.evaluation)
            (λ x t. backs x t) (λ x t h. ground arith) (pf.orm.rows w.evaluations)
            (λ x h. ground arith) (pf.orm.rows w.signals) s.backed);
    signalled =
        rw (d.deliveries, HasSignal, d.signals)
          (cascaded-All (signal_gone pf c w) (delivery_gone pf c w) (λ x. x.row.signal)
            (λ x t. has_id x.row.signal t) (λ x t h. h) (pf.orm.rows w.signals)
            (λ x h. ground arith) (pf.orm.rows w.deliveries) s.signalled);
    configured = rw d.strategies (
        All-of_select (IsConfigured pf) (λ x. not (strategy_gone pf c x)) (pf.orm.rows w.strategies)
          s.configured);
  }

  -- A deletion of any rows that are not protected, users included, with all that goes with them,
  -- leaves every foreign key with its row, the users of strategies and recipients among those that
  -- are left, and a sound state sound: the unique constraints hold, every signal that is left
  -- has its evaluation, which triggered, every delivery its signal, and every strategy a valid
  -- configuration.
  pub Deleted-Sound :
      Sound pf w → Linked pf users w → Sound pf w' × Linked pf (users_left pf c users) w'
  Deleted-Sound s l = (sound s, linked l)
