-- ===== src/Backtesting/Tasks/Counts.antt =====
-- The loop of `run_backtest`: its counters and its window.
use Prim.Native.Nat.{min}
use cryptovira.Prelude.{
  ℕ, zero, suc, ◌+◌, ◌-◌, ◌≤◌, ◌<◌, ◌≡◌, refl, sym, ap, ◌∙◌, Option, none, some, List, [], ◌∷◌,
  ◌++◌, take, drop, length, take-append-drop, length-take, Bool-cases, inl, inr, arith,
}
use cryptovira.Exec.{ok, ok_same, continue_lem, and_then-eq-ok}
use cryptovira.Strategy.Schema.{StrategyConfig}
use cryptovira.Strategy.Tasks.{history_candle_count}
use cryptovira.Backtesting.Tasks.{
  Score, window, Bar, tally, judge_candle, loop, triggers, forward_return,
}
use cryptovira.World.{Platform, World}

length-drop : {A : Type 0} (n : ℕ) (l : List A) → length (drop n l) ≡ length l - n
length-drop zero l = omega arith
length-drop (suc n) [] = omega arith
length-drop (suc n) (x ∷ l) = omega (arith, length-drop n l)

take_nil : {A : Type 0} (k : ℕ) → take {A = A} k [] ≡ []
take_nil zero = refl
take_nil (suc k) = refl

drop-take : {A : Type 0} (n m : ℕ) (l : List A) → take m (drop n l) ≡ drop n (take (n + m) l)
drop-take zero m l = ap (λ k. take k l) (omega arith)
drop-take (suc n) m [] = take_nil m ∙ sym (ap (drop (suc n)) (take_nil (suc n + m)))
drop-take (suc n) m (x ∷ l) =
    drop-take n m l ∙ ap (λ k. drop (suc n) (take k (x ∷ l))) (the_sum n m)
  where
    the_sum : (n m : ℕ) → suc (n + m) ≡ suc n + m
    the_sum n m = omega arith

-- For an index `i` of the series, the window at the candle `i` ends with it and has 200 candles,
-- or all up to it where there are fewer.
pub window-latest :
    {A : Type 0} (series : List A) (i : ℕ)
    → i < length series
    → (older : List A) × (older ++ window series i ≡ take (i + 1) series)
      × (length (window series i) ≡ min history_candle_count (i + 1))
unfolding window
window-latest series i h =
    let from : ℕ = i + 1 - history_candle_count in
    let whole : from + (i + 1 - from) ≡ i + 1 = omega arith in
    let at : take (i + 1 - from) (drop from series) ≡ drop from (take (i + 1) series) =
      drop-take from (i + 1 - from) series ∙ ap (λ k. drop from (take k series)) whole in
    (
      take from (take (i + 1) series),
      ap (λ l. take from (take (i + 1) series) ++ l) at
          ∙ take-append-drop from (take (i + 1) series),
      ap length at
          ∙ omega (arith, length-drop from (take (i + 1) series), length-take (i + 1) series),
    )

module _ (pf : Platform) where
  open pf use {python}

  -- wins among scored triggers among triggers among candles
  abbrev pub Consistent : ℕ → Score python.Float → Type 0
  Consistent n s =
      (s.win_count ≤ s.scored_trigger_count)
      × (s.scored_trigger_count ≤ s.trigger_count)
      × (s.trigger_count ≤ n)

  tally-Consistent :
      (n : ℕ) (x : Option python.Float) (s : Score python.Float)
      → Consistent n s
      → Consistent (n + 1) (tally pf x s)
  unfolding tally
  tally-Consistent n none s h = (omega arith, omega arith, omega arith)
  tally-Consistent n (some x) s h = (ground arith, omega arith, omega arith)

  module _ (config : StrategyConfig python) (series : List (Bar pf)) (horizon : ℕ) where
    judge_candle-Consistent :
        (n i : ℕ) (s s' : Score python.Float)
        → judge_candle pf config series horizon i s ≡ ok s'
        → Consistent n s
        → Consistent (n + 1) s'
    unfolding judge_candle
    judge_candle-Consistent n i s s' h k =
        let (fired, _, h') = and_then-eq-ok (triggers _) _ h in
        elim (Bool-cases fired) [
          | inl e ↦
              let (x, _, h'') =
                and_then-eq-ok (forward_return pf series horizon i) _ (rw e at h') in
              rw (sym (ok_same h'')) (tally-Consistent n x s k)
          | inr e ↦ rw (sym (ok_same (rw e at h'))) (omega arith, omega arith, omega arith)
        ]

    -- If the loop returns and its counters agreed with the candles before it, its result has at
    -- most as many wins as scored triggers, as many of those as triggers, and as many of those as
    -- candles.
    pub loop-Consistent :
        (backtest_id first n left offset : ℕ) (s : Score python.Float) (w : World pf)
        (s' : Score python.Float)
        → Consistent offset s
        → (loop pf config series horizon backtest_id first n left offset s w).0 ≡ ok s'
        → Consistent (offset + left) s'
    unfolding loop
    loop-Consistent backtest_id first n zero offset s w s' h k =
        rw (sym (ok_same k)) (omega arith, omega arith, omega arith)
    loop-Consistent backtest_id first n (suc left) offset s w s' h k₀ =
        continue_lem (λ out. out.0 ≡ ok s' → Consistent (offset + suc left) s')
          (judge_candle pf config series horizon (first + offset) s) w _ (λ e _ k. absurd (cc k))
          (λ s₁ done k.
            let rest =
              loop-Consistent backtest_id first n left (offset + 1) s₁ _ s'
                (judge_candle-Consistent offset (first + offset) s s₁ done h) k in
            (omega arith, omega arith, omega arith))
          k₀
