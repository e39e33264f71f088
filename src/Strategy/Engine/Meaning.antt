-- ===== src/Strategy/Engine/Meaning.antt =====
-- What an evaluation means: each condition, read off the last two points of its indicator.
use Prim.Native.String.{◌++◌ as text_append}
use cryptovira.Prelude.{
  ℕ, ℤ, String, ◌≡◌, ◌+◌, ◌≤◌, ◌⊎◌, ◌↔◌, refl, ap, subst, ◌≢◌, sym, ◌∙◌, Bool, true, false, List,
  [], ◌∷◌, ◌++◌, length, ltb, arith, All, item_from_end-append, length-append, ends_in_two,
  Bool-cases, inl, inr, if◌then◌else◌,
}
use cryptovira.Python.{Python}
use cryptovira.Exec.{Result, ok, err, Error, insufficient_data_error, and_then}
use cryptovira.Strategy.Schema.{Condition, StrategyConfig, indicator_text}
use cryptovira.Strategy.Operators.{apply_operator-append, compare_points}
use cryptovira.Strategy.Indicators.{Talib, compute}
use cryptovira.Strategy.Engine.{
  evaluate, evaluate_all, evaluate_condition, judge, unusable, needs_more,
}

module _ (p : Python) (talib : Talib p) where
  -- The indicator gives a series that ends in `x` and `y`, `y` is a number, and the operator
  -- accepts them.
  pub record Holds (close : List p.Float) (c : Condition p) : Type 0 where
    pub front : List p.Float
    pub x : p.Float
    pub y : p.Float
    pub computed : compute p talib c.indicator close c.variables ≡ ok (front ++ x ∷ y ∷ [])
    pub usable : p.is_nan y ≡ false
    pub accepted : compare_points p c.operator x y c.value ≡ true

  -- The same, but the operator does not accept them.
  pub record Rejects (close : List p.Float) (c : Condition p) : Type 0 where
    pub front : List p.Float
    pub x : p.Float
    pub y : p.Float
    pub computed : compute p talib c.indicator close c.variables ≡ ok (front ++ x ∷ y ∷ [])
    pub usable : p.is_nan y ≡ false
    pub refused : compare_points p c.operator x y c.value ≡ false

  -- The text names the indicator with its variables, if there are any, and that number of candles.
  abbrev pub Names : Condition p → ℕ → String → Type 0
  Names c n message =
      (variables : String) × (message
        ≡ text_append (indicator_text c.indicator) (
            text_append variables (
              text_append " needs more historical candles than the "
                (text_append (p.show_int n) " supplied."))))
      × (c.variables ≡ [] → variables ≡ "")
      × (c.variables ≢ [] → variables ≡ p.show_dict c.variables)

  needs_more-Names : (c : Condition p) (n : ℕ) → Names c n (needs_more p c n)
  unfolding needs_more
  needs_more-Names c n = of_variables c.variables refl
    where
      of_variables : (l : List (String × ℤ)) → c.variables ≡ l → Names c n (needs_more p c n)
      of_variables [] e = ("", rw e refl, (λ _. refl), (λ some. absurd (some e)))
      of_variables (v ∷ vs) e =
          (p.show_dict (v ∷ vs), rw e refl, (λ none. cc (none, e)), (λ _. rw e refl))

  -- TA-Lib raises, or its series has no usable last value and the audit message says so.
  abbrev pub Raises : List p.Float → Condition p → Error → Type 0
  Raises close c e =
      (compute p talib c.indicator close c.variables ≡ err e)
      ⊎ ((series : List p.Float) × (compute p talib c.indicator close c.variables ≡ ok series)
          × (unusable p series ≡ true)
          × ((message : String) × Names c (length close) message
              × (e ≡ insufficient_data_error message)))

  -- How one condition ends the run over the list.
  abbrev pub Ends : List p.Float → Condition p → Result Bool → Type 0
  Ends close c (ok true) = ⊥
  Ends close c (ok false) = Rejects close c
  Ends close c (err e) = Raises close c e

  abbrev Verdict : List p.Float → Condition p → Type 0
  Verdict close c =
      (evaluate_condition p talib c close ≡ ok true) × Holds close c
      ⊎ ((r : Result Bool) × (evaluate_condition p talib c close ≡ r) × Ends close c r)

  two_or_more : (series : List p.Float) → unusable p series ≡ false → 2 ≤ length series
  two_or_more series h = ground arith

  long_enough :
      (front : List p.Float) (x y : p.Float) → ltb (length (front ++ x ∷ y ∷ [])) 2 ≡ false
  long_enough front x y =
      let n : length (front ++ x ∷ y ∷ []) ≡ length front + 2 = length-append front (x ∷ y ∷ []) in
      ground arith

  unusable-append :
      (front : List p.Float) (x y : p.Float) → unusable p (front ++ x ∷ y ∷ []) ≡ p.is_nan y
  unusable-append front x y =
      rw (long_enough front x y, item_from_end-append front (x ∷ y ∷ []) 1 (omega arith)) refl

  unusable_nan :
      {series : List p.Float} (front : List p.Float) (x y : p.Float)
      → series ≡ front ++ x ∷ y ∷ []
      → unusable p series ≡ false
      → p.is_nan y ≡ false
  unusable_nan front x y e h = sym (unusable-append front x y) ∙ (rw e at h)

  judge-usable :
      (c : Condition p) (close front : List p.Float) (x y : p.Float)
      → p.is_nan y ≡ false
      → judge p talib c close (front ++ x ∷ y ∷ []) ≡ ok (compare_points p c.operator x y c.value)
  unfolding judge
  judge-usable c close front x y h =
      rw (unusable-append front x y, h, apply_operator-append p c.operator front x y c.value) refl

  -- One condition, by what its series is.
  condition_cases : (c : Condition p) (close : List p.Float) → Verdict close c
  unfolding evaluate_condition
  condition_cases c close = by_series (compute p talib c.indicator close c.variables) refl
    where
      by_points :
          (front : List p.Float) (x y : p.Float)
          → compute p talib c.indicator close c.variables ≡ ok (front ++ x ∷ y ∷ [])
          → p.is_nan y ≡ false
          → (b : Bool) → compare_points p c.operator x y c.value ≡ b
          → Verdict close c
      by_points front x y at h true e = inl (
        rw (at, judge-usable c close front x y h, e) refl,
        record { front = front; x = x; y = y; computed = at; usable = h; accepted = e },
      )
      by_points front x y at h false e = inr (
        ok false,
        rw (at, judge-usable c close front x y h, e) refl,
        record { front = front; x = x; y = y; computed = at; usable = h; refused = e },
      )

      by_series :
          (r : Result (List p.Float))
          → compute p talib c.indicator close c.variables ≡ r
          → Verdict close c
      by_series (err e) at = inr (err e, rw at refl, inl at)
      by_series (ok series) at = elim (Bool-cases (unusable p series)) [
        | inl bad ↦ inr (
          err (insufficient_data_error (needs_more p c (length close))),
          rw at (unfold judge in rw bad refl),
          inr (
            series,
            at,
            bad,
            (needs_more p c (length close), needs_more-Names c (length close), refl),
          ),
        )
        | inr good ↦
            let (front, x, y, e) = ends_in_two series (two_or_more series good) in
            by_points front x y (rw (← e) at) (unusable_nan front x y e good)
              (compare_points p c.operator x y c.value) refl
      ]

  -- How a run over the list ended early: all conditions before some condition hold, and that one
  -- ends the run.
  pub record Stops (close : List p.Float) (cs : List (Condition p)) (r : Result Bool) : Type 0 where
    pub before : List (Condition p)
    pub at : Condition p
    pub after : List (Condition p)
    pub split : cs ≡ before ++ at ∷ after
    pub held : All (Holds close) before
    pub ended : Ends close at r

  Ends-run :
      (close : List p.Float) (c : Condition p) (rest r : Result Bool)
      → Ends close c r
      → Ends close c (and_then r (λ b. if b then rest else ok false))
  Ends-run close c rest (ok true) h = absurd h
  Ends-run close c rest (ok false) h = h
  Ends-run close c rest (err e) h = h

  evaluate_all_cases :
      (cs : List (Condition p)) (close : List p.Float)
      → (evaluate_all p talib cs close ≡ ok true) × All (Holds close) cs
        ⊎ Stops close cs (evaluate_all p talib cs close)
  unfolding evaluate_all
  evaluate_all_cases [] close = inl (refl, tt)
  evaluate_all_cases (c ∷ cs) close = elim (condition_cases c close) [
    | inl (e, holds) ↦ rw e (elim (evaluate_all_cases cs close) [
      | inl (all, h) ↦ inl (all, (holds, h))
      | inr s ↦ inr (record {
        before = c ∷ s.before;
        at = s.at;
        after = s.after;
        split = ap (λ l. c ∷ l) s.split;
        held = (holds, s.held);
        ended = s.ended;
      })
    ])
    | inr (r, e, ends) ↦
        let rest = evaluate_all p talib cs close in
        inr (record {
          before = [];
          at = c;
          after = cs;
          split = refl;
          held = tt;
          ended = rw e (Ends-run close c rest r ends);
        })
  ]

  Holds-true :
      (close : List p.Float) (c : Condition p)
      → Holds close c
      → evaluate_condition p talib c close ≡ ok true
  unfolding evaluate_condition
  Holds-true close c h =
      rw (h.computed, judge-usable c close h.front h.x h.y h.usable, h.accepted) refl

  All-Holds-true :
      (close : List p.Float) (cs : List (Condition p))
      → All (Holds close) cs
      → evaluate_all p talib cs close ≡ ok true
  unfolding evaluate_all
  All-Holds-true close [] h = refl
  All-Holds-true close (c ∷ cs) h = rw (Holds-true close c h.0) (All-Holds-true close cs h.1)

  -- `evaluate` returns true exactly when every condition holds: its indicator gives a series of
  -- two or more points whose last point is a number, and the operator accepts the last two
  -- points.
  pub evaluate-true_iff :
      (config : StrategyConfig p) (close : List p.Float)
      → (evaluate p talib config close ≡ ok true) ↔ All (Holds close) config.conditions
  unfolding evaluate
  evaluate-true_iff config close = (forward, All-Holds-true close config.conditions)
    where
      forward :
          evaluate_all p talib config.conditions close ≡ ok true
          → All (Holds close) config.conditions
      forward e = elim (evaluate_all_cases config.conditions close) [
        | inl (_, h) ↦ h
        | inr s ↦ absurd (subst (Ends close s.at) e s.ended)
      ]

  -- Where `evaluate` does not return true, some condition is the first that does not hold: it is
  -- refused at two usable points, or TA-Lib raises on it, or its series is too short or ends in
  -- NaN and the error names the indicator, with its variables if there are any, and the number of
  -- candles supplied. No other error is raised.
  pub evaluate-Stops :
      (config : StrategyConfig p) (close : List p.Float)
      → evaluate p talib config close ≢ ok true
      → Stops close config.conditions (evaluate p talib config close)
  unfolding evaluate
  evaluate-Stops config close h = elim (evaluate_all_cases config.conditions close) [
    | inl (e, _) ↦ absurd (h e)
    | inr s ↦ s
  ]
