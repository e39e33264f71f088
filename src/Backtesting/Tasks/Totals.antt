-- ===== src/Backtesting/Tasks/Totals.antt =====
-- What the loop of `run_backtest` adds up: an independent description of its counters.
use cryptovira.Prelude.{
  ℕ, zero, suc, ◌+◌, ◌≡◌, refl, sym, ◌∙◌, ap, Bool, false, Option, none, some, List, [], ◌∷◌,
  select, length, if◌then◌else◌, Bool-cases, inl, inr, arith,
}
use cryptovira.Exec.{Result, ok, ok_same, err, continue_lem, and_then-eq-ok}
use cryptovira.Strategy.Schema.{StrategyConfig}
use cryptovira.Strategy.Engine.{evaluate}
use cryptovira.Strategy.Tasks.{closes}
use cryptovira.Backtesting.Tasks.{
  Score, Bar, window, tally, triggers, forward_return, judge_candle, loop,
}
use cryptovira.World.{Platform, World}

-- `range(first, first + n)`
abbrev pub indices : ℕ → ℕ → List ℕ
indices first zero = []
indices first (suc n) = first ∷ indices (first + 1) n

abbrev holds : Result Bool → Bool
holds (ok b) = b
holds (err e) = false

abbrev answer : {A : Type 0} → Result (Option A) → Option A
answer (ok x) = x
answer (err e) = none

abbrev known : {A : Type 0} → Option A → List A → List A
known none xs = xs
known (some x) xs = x ∷ xs

same_score :
    {F : Type 0} {s t : Score F}
    → s.trigger_count ≡ t.trigger_count
    → s.scored_trigger_count ≡ t.scored_trigger_count
    → s.win_count ≡ t.win_count
    → s.total_forward_return ≡ t.total_forward_return
    → s ≡ t
same_score p q r e = cc (p, q, r, e)

module _ (pf : Platform) where
  open pf use {python}
  open python use {Float, add, lt, zero_float}

  unfoldable pub total : Float → List Float → Float
  total sum [] = sum
  total sum (x ∷ xs) = total (add sum x) xs

  module _ (config : StrategyConfig python) (series : List (Bar pf)) (horizon : ℕ) where
    -- whether the strategy triggers at a candle
    unfoldable pub fires : ℕ → Bool
    fires i = holds (triggers (evaluate python pf.talib config (closes pf (window series i))))

    pub fires_of :
        (i : ℕ) {fired : Bool}
        → triggers (evaluate python pf.talib config (closes pf (window series i))) ≡ ok fired
        → fires i ≡ fired
    unfolding fires
    fires_of i judged = rw judged refl

    -- the forward returns of those candles, where the series reaches far enough
    unfoldable pub returns : List ℕ → List Float
    returns [] = []
    returns (i ∷ is) = known (answer (forward_return pf series horizon i)) (returns is)

    -- the candles of the period at which the strategy triggers
    abbrev pub hits : ℕ → ℕ → List ℕ
    hits first n = select fires (indices first n)

    -- the counters, with those candles added up
    abbrev pub added : List ℕ → Score Float → Score Float
    added is s = record {
      trigger_count = s.trigger_count + length is;
      scored_trigger_count = s.scored_trigger_count + length (returns is);
      win_count = s.win_count + length (select (λ x. lt zero_float x) (returns is));
      total_forward_return = total s.total_forward_return (returns is);
    }

    added_nil : (s : Score Float) → added [] s ≡ s
    unfolding returns total
    added_nil s = same_score (omega arith) (omega arith) (omega arith) refl

    added_cons :
        (i : ℕ) (is : List ℕ) (s : Score Float) (x : Option Float)
        → forward_return pf series horizon i ≡ ok x
        → added (i ∷ is) s ≡ added is (tally pf x s)
    unfolding returns total tally
    added_cons i is s none e = rw e (same_score (omega arith) refl refl refl)
    added_cons i is s (some x) e = rw e (elim (Bool-cases (lt zero_float x)) [
      | inl gains ↦ rw gains (same_score (omega arith) (omega arith) (omega arith) refl)
      | inr flat ↦ rw flat (same_score (omega arith) (omega arith) (omega arith) refl)
    ])

    -- One candle of the loop.
    judge_candle-added :
        (i : ℕ) (is : List ℕ) (s s' : Score Float)
        → judge_candle pf config series horizon i s ≡ ok s'
        → added (if fires i then i ∷ is else is) s ≡ added is s'
    unfolding judge_candle fires
    judge_candle-added i is s s' h =
        let (fired, judged, h') =
          and_then-eq-ok (triggers (evaluate python pf.talib config (closes pf (window series i))))
            _ h in
        rw judged (elim (Bool-cases fired) [
          | inl e ↦
              let (x, returned, h'') =
                and_then-eq-ok (forward_return pf series horizon i) _ (rw e at h') in
              rw e (added_cons i is s x returned ∙ ap (added is) (ok_same h''))
          | inr e ↦ rw e (ap (added is) (ok_same (rw e at h')))
        ])

    -- If the loop returns, its counters are what they were and the triggers on the candles that it
    -- went through, added up in order: each index at which the strategy triggers counts as one,
    -- each with a forward return as a scored one, and each of those that gains as a win.
    pub loop-added :
        (backtest_id first n left offset : ℕ) (s : Score Float) (w : World pf) (s' : Score Float)
        → (loop pf config series horizon backtest_id first n left offset s w).0 ≡ ok s'
        → s' ≡ added (hits (first + offset) left) s
    unfolding loop
    loop-added backtest_id first n zero offset s w s' k = sym (ok_same k) ∙ sym (added_nil s)
    loop-added backtest_id first n (suc left) offset s w s' k =
        continue_lem (λ out. out.0 ≡ ok s' → s' ≡ added (hits (first + offset) (suc left)) s)
          (judge_candle pf config series horizon (first + offset) s) w _ (λ e _ k. absurd (cc k))
          (λ s₁ done k.
            loop-added backtest_id first n left (offset + 1) s₁ _ s' k
            ∙ ap (λ j. added (hits j left) s₁) (the_sum first offset)
            ∙ sym (judge_candle-added (first + offset) (hits (first + offset + 1) left) s s₁ done))
          k
      where
        the_sum : (a b : ℕ) → a + (b + 1) ≡ a + b + 1
        the_sum a b = omega arith
