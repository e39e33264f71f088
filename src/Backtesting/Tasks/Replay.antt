-- ===== src/Backtesting/Tasks/Replay.antt =====
-- A backtest judges a candle on what a live evaluation would have seen when it was the latest.
use Prim.Native.Nat.{min}
use cryptovira.Prelude.{
  ℕ, String, Bool, false, ◌+◌, ◌≡◌, refl, sym, ◌∙◌, ap, ◌⊎◌, List, [], ◌∷◌, ◌++◌, append_assoc,
  Permᴰ, take, length, length-append, select, leb, inl, inr, arith,
}
use cryptovira.Orm.Merge.{IsUnique}
use cryptovira.Market.Models.{same_bar}
use cryptovira.Strategy.Models.{Strategy}
use cryptovira.Strategy.Tasks.{history, history_candle_count, audit, closes}
use cryptovira.Backtesting.Tasks.Series.{older_bars, live}
use cryptovira.Backtesting.Models.{Backtest}
use cryptovira.Backtesting.Tasks.{Bar, window, triggers, warmup_of, range_of, tail_of}
use cryptovira.Backtesting.Tasks.Counts.{window-latest}
use cryptovira.World.{Platform, World}
use cryptovira.Exec.{Result, ok, ok_same, err, insufficient_data_error}
use cryptovira.Strategy.Engine.{evaluate}
use cryptovira.Strategy.Tasks.Evaluate.{Ready}
use cryptovira.Backtesting.Tasks.Totals.{fires, fires_of}
use cryptovira.World.Matches.{contents}

-- Two lists that end alike, in as many items, end in the same.
suffix_unique : {A : Type 0} (xs ys h k : List A) → xs ++ h ≡ ys ++ k → length h ≡ length k → h ≡ k
suffix_unique [] [] h k e n = e
suffix_unique (x ∷ xs) (y ∷ ys) h k e n = suffix_unique xs ys h k (cc e) n
suffix_unique [] (y ∷ ys) h k e n = absurd (omega (arith, ap length e, length-append (y ∷ ys) k, n))
suffix_unique (x ∷ xs) [] h k e n = absurd (omega (arith, ap length e, length-append (x ∷ xs) h, n))

take_all : {A : Type 0} (xs ys : List A) → take (length xs) (xs ++ ys) ≡ xs
take_all [] ys = refl
take_all (x ∷ xs) ys = ap (λ l. x ∷ l) (take_all xs ys)

regroup :
    {A : Type 0} (a pre post rest : List A) (c : A)
    → a ++ (pre ++ c ∷ post) ++ rest ≡ (a ++ (pre ++ c ∷ [])) ++ (post ++ rest)
regroup [] [] post rest c = refl
regroup [] (x ∷ pre) post rest c = ap (λ l. x ∷ l) (regroup [] pre post rest c)
regroup (x ∷ a) pre post rest c = ap (λ l. x ∷ l) (regroup a pre post rest c)

length_to :
    {A : Type 0} (a pre : List A) (c : A)
    → length (a ++ (pre ++ c ∷ [])) ≡ length a + length pre + 1
length_to a pre c = omega (arith, length-append a (pre ++ c ∷ []), length-append pre (c ∷ []))

-- What an evaluation's audit row says is what the backtest goes by.
audit-triggers :
    (r : Result Bool) (verdict : Bool × String) → audit r ≡ ok verdict → triggers r ≡ ok verdict.0
unfolding audit triggers
audit-triggers (ok b) verdict h = let same : (b, "") ≡ verdict = ok_same h in rw⁻¹ same refl
audit-triggers (err (insufficient_data_error text)) verdict h =
    let same : (false, text) ≡ verdict = ok_same h in rw⁻¹ same refl
audit-triggers (err e) verdict h = cc h

-- How many candles the two take of as many, where the series has all of them or a full warmup.
ends_alike :
    (a m p : ℕ) {x y : ℕ}
    → (a ≡ history_candle_count) ⊎ (m ≡ 0)
    → x ≡ min history_candle_count (a + p + 1)
    → y ≡ min history_candle_count (m + (a + p + 1))
    → x ≡ y
ends_alike a m p (inl full) h k = omega arith
ends_alike a m p (inr none_left) h k = omega arith

module _ (pf : Platform) (s : Strategy) (b : Backtest pf.python) (w v : World pf) where
  -- For a candle of the period of a backtest, at its index of the series, the window on which the
  -- backtest judges it is the history that an evaluation of the strategy sees in a state in which
  -- just the candles are stored that are not later than it. Both states keep the constraint on
  -- candles.
  pub window-eq-history :
      (pre post : List (Bar pf)) (c : Bar pf)
      → range_of pf s b w ≡ pre ++ c ∷ post
      → Permᴰ
          (pf.orm.rows v.candles)
          (select (λ x. leb x.row.open_time c.row.open_time) (pf.orm.rows w.candles))
      → IsUnique same_bar (contents (pf.orm.rows w.candles))
      → IsUnique same_bar (contents (pf.orm.rows v.candles))
      → window
          (warmup_of pf s b w ++ range_of pf s b w ++ tail_of pf s b w)
          (length (warmup_of pf s b w) + length pre)
        ≡ history pf s v
  window-eq-history pre post c at past u u' =
      let warmup = warmup_of pf s b w in
      let tail = tail_of pf s b w in
      let o = older_bars pf s b w v in
      let i = length warmup + length pre in
      let head = warmup ++ (pre ++ c ∷ []) in
      let n = length_to warmup pre c in
      let series : warmup ++ range_of pf s b w ++ tail ≡ head ++ (post ++ tail) =
        rw at (regroup warmup pre post tail c) in
      let (older, same, seen) = live pf s b w v pre post c at o u past u' in
      let (before, up_to, m) =
        window-latest (warmup ++ range_of pf s b w ++ tail) i
          (omega (arith, n, ap length series, length-append head (post ++ tail))) in
      let here : take (i + 1) (warmup ++ range_of pf s b w ++ tail) ≡ head =
        rw (series, sym n) (take_all head (post ++ tail)) in
      suffix_unique (o.older ++ before) older _ (history pf s v)
        (append_assoc o.older before _
          ∙ ap (λ l. o.older ++ l) (up_to ∙ here)
          ∙ sym (append_assoc o.older warmup (pre ++ c ∷ []))
          ∙ sym same)
        (ends_alike (length warmup) (length o.older) (length pre) o.full m (
          seen
          ∙ ap (min history_candle_count) (
              ap length (append_assoc o.older warmup (pre ++ c ∷ []))
              ∙ length-append o.older head
              ∙ ap (λ k. length o.older + k) n)))

  -- A candle of the period of a backtest counts as a trigger, at its index of the series, exactly
  -- if an evaluation of the strategy returns the verdict that it triggered, in a state in which
  -- just the candles are stored that are not later than it. The strategy is ready for that
  -- evaluation, which raises nothing before its writes, and both states keep the constraint on
  -- candles.
  pub fires-eq-verdict :
      (pre post : List (Bar pf)) (c : Bar pf) (horizon strategy_id : ℕ) (r : Ready pf strategy_id v)
      → r.strategy.row ≡ s
      → range_of pf s b w ≡ pre ++ c ∷ post
      → Permᴰ
          (pf.orm.rows v.candles)
          (select (λ x. leb x.row.open_time c.row.open_time) (pf.orm.rows w.candles))
      → IsUnique same_bar (contents (pf.orm.rows w.candles))
      → IsUnique same_bar (contents (pf.orm.rows v.candles))
      → fires pf r.config
          (warmup_of pf s b w ++ range_of pf s b w ++ tail_of pf s b w)
          horizon
          (length (warmup_of pf s b w) + length pre)
        ≡ r.verdict.0
  fires-eq-verdict pre post c horizon strategy_id r is at past u u' =
      let same : window (warmup_of pf s b w ++ range_of pf s b w ++ tail_of pf s b w)
            (length (warmup_of pf s b w) + length pre)
          ≡ r.first ∷ r.others =
        window-eq-history pre post c at past u u' ∙ ap (λ t. history pf t v) (sym is) ∙ r.seen in
      fires_of pf r.config _ horizon _ (
        ap (λ l. triggers (evaluate pf.python pf.talib r.config (closes pf l))) same
        ∙ audit-triggers _ r.verdict r.judged)
