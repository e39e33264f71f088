-- ===== src/Backtesting/Tasks/Series.antt =====
-- The candles that a backtest puts in a series, and those that a live evaluation sees: both rise
-- in time, and end in the same ones.
use Prim.Native.Nat.{min}
use cryptovira.Prelude.{
  ◌<◌, ◌≡◌, sym, ◌∙◌, ap, subst, ◌⊎◌, Bool, true, ◌&&◌, List, [], ◌∷◌, ◌++◌, Permᴰ, length,
  length-append, perm-length, select, All, All-append, All-imply, All-pair, All-select,
  All-unselect, perm-All, leb, ltb, Bool-cases, inl, inr, arith,
}
use cryptovira.Orm.{ascending, IsOrdered}
use cryptovira.Orm.Merge.{IsUnique}
use cryptovira.Orm.Sorted.{
  All-prefix, All-suffix, All-of_implied, Rising, Rising-append, Rising-eq_of_items,
}
use cryptovira.Market.Models.{same_bar}
use cryptovira.Strategy.Models.{Strategy}
use cryptovira.Strategy.Tasks.{history, history_candle_count, is_bar_of}
use cryptovira.Strategy.Tasks.History.{history-latest, latest_rows}
use cryptovira.Backtesting.Models.{Backtest}
use cryptovira.Backtesting.Tasks.{Bar, warmup_of, range_of}
use cryptovira.World.{Platform, World}
use cryptovira.World.Matches.{contents}
use mathlib.Core.List.Permᴰ
use cryptovira.Backtesting.Tasks.Bars.{full_or_none, time, sorted-Rising, Rising-before}

module _ (pf : Platform) (s : Strategy) (b : Backtest pf.python) (w v : World pf) where
  abbrev is_before : Bar pf → Bool
  is_before x = is_bar_of pf s x && ltb x.row.open_time b.start_time

  abbrev is_within : Bar pf → Bool
  is_within x =
      is_bar_of pf s x && (leb b.start_time x.row.open_time && ltb x.row.open_time b.end_time)

  abbrev pub bars : List (Bar pf)
  bars = pf.orm.rows w.candles

  abbrev pub warmup : List (Bar pf)
  warmup = warmup_of pf s b w

  -- What is stored before the period: some older candles and the warmup.
  pub record Older : Type 0 where
    pub older : List (Bar pf)
    pub stored : Permᴰ (older ++ warmup) (select is_before bars)
    pub rising : IsOrdered ascending (time pf s) (older ++ warmup)
    pub full : (length warmup ≡ history_candle_count) ⊎ (length older ≡ 0)

  pub older_bars : Older
  unfolding warmup_of
  older_bars =
      let (older, perm, ordered, n) =
        latest_rows pf.orm (λ c. c.open_time) is_before history_candle_count w.candles in
      let all : length (older ++ warmup) ≡ length (select is_before bars) = perm-length perm in
      record {
        older = older;
        stored = perm;
        rising = ordered;
        full =
            full_or_none (length warmup) (length older) _ n (sym all ∙ length-append older warmup);
      }

  range-stored : Permᴰ (range_of pf s b w) (select is_within bars)
  unfolding range_of
  range-stored =
      Permᴰ.trans (pf.orm.order_by_law ascending _ _) (pf.orm.filter_law is_within w.candles)

  range-IsOrdered : IsOrdered ascending (time pf s) (range_of pf s b w)
  unfolding range_of
  range-IsOrdered = pf.orm.order_by_sorted ascending _ _

  module _ (pre post : List (Bar pf)) (c : Bar pf) (at : range_of pf s b w ≡ pre ++ c ∷ post)
      (o : Older) (u : IsUnique same_bar (contents bars)) where
    abbrev pub seen : List (Bar pf)
    seen = (o.older ++ warmup) ++ (pre ++ c ∷ [])

    within : (leb b.start_time c.row.open_time ≡ true) × (ltb c.row.open_time b.end_time ≡ true)
    within =
        let all = perm-All _ (Permᴰ.symm range-stored) (All-select is_within bars) in
        let here = (All-suffix _ pre (c ∷ post) (rw at at all)).0 in
        (ground (arith, here), ground (arith, here))

    split_range :
        All (λ x. x.row.open_time < c.row.open_time) pre
        × Rising (time pf s) (pre ++ c ∷ [])
        × All (λ x. c.row.open_time < x.row.open_time) post
    split_range = Rising-before (time pf s) c post pre (
        rw⁻¹ at (
          sorted-Rising pf s is_within (λ x h. ground (arith, h)) (range_of pf s b w) bars u
            range-stored range-IsOrdered))

    seen-Rising : Rising (time pf s) seen
    seen-Rising =
        Rising-append (time pf s) b.start_time (o.older ++ warmup) (pre ++ c ∷ [])
          (sorted-Rising pf s is_before (λ x h. ground (arith, h)) (o.older ++ warmup) bars u
            o.stored o.rising)
          split_range.1
          (All-imply _ _ (λ x h. ground (arith, h)) _
            (perm-All _ (Permᴰ.symm o.stored) (All-select is_before bars)))
          (All-append _ pre (c ∷ [])
            (All-imply _ _ (λ x h. ground (arith, h)) pre (All-prefix _ pre (c ∷ post) in_range))
            (ground (arith, within), tt))
      where
        in_range : All (λ x. is_within x ≡ true) (pre ++ c ∷ post)
        in_range =
            subst (All (λ x. is_within x ≡ true)) at
              (perm-All _ (Permᴰ.symm range-stored) (All-select is_within bars))

    -- The items of the series up to the candle are the strategy's candles up to its time.
    seen_of :
        (P : Bar pf → Type 0)
        → All (λ x. leb x.row.open_time c.row.open_time ≡ true → is_bar_of pf s x ≡ true → P x) bars
        → All P seen
    seen_of P h =
        All-append P (o.older ++ warmup) (pre ++ c ∷ [])
          (perm-All P (Permᴰ.symm o.stored) (
            All-of_implied P is_before bars
              (All-imply _ _ (λ x p k. p (ground (arith, k, within)) (ground (arith, k))) bars h)))
          (up_to_here (
            subst (All (λ x. leb x.row.open_time c.row.open_time ≡ true → P x)) at (
              perm-All _ (Permᴰ.symm range-stored) (
                All-of_implied _ is_within bars
                  (All-imply _ _ (λ x p k early. p early (ground (arith, k))) bars h)))))
      where
        up_to_here :
            All (λ x. leb x.row.open_time c.row.open_time ≡ true → P x) (pre ++ c ∷ post)
            → All P (pre ++ c ∷ [])
        up_to_here all =
            All-append P pre (c ∷ [])
              (All-imply _ _ (λ x (early, p). p (ground (arith, early))) pre
                (All-pair _ _ pre split_range.0 (All-prefix _ pre (c ∷ post) all)))
              ((All-suffix _ pre (c ∷ post) all).0 (ground arith), tt)

    of_seen :
        (P : Bar pf → Type 0)
        → All P seen
        → All (λ x. leb x.row.open_time c.row.open_time ≡ true → is_bar_of pf s x ≡ true → P x) bars
    of_seen P h =
        All-imply _ _
          (λ x (early, late) before bar. elim (Bool-cases (ltb x.row.open_time b.start_time)) [
            | inl e ↦ early (ground (arith, e, bar))
            | inr e ↦ late (ground (arith, e, bar, before, within)) before
          ])
          bars
          (All-pair _ _ bars
            (All-unselect P is_before bars
              (perm-All P o.stored (All-prefix P (o.older ++ warmup) (pre ++ c ∷ []) h)))
            (All-unselect _ is_within bars (
              perm-All (λ x. leb x.row.open_time c.row.open_time ≡ true → P x) range-stored
                (rw at (after_here (All-suffix P (o.older ++ warmup) (pre ++ c ∷ []) h))))))
      where
        after_here :
            All P (pre ++ c ∷ [])
            → All (λ x. leb x.row.open_time c.row.open_time ≡ true → P x) (pre ++ c ∷ post)
        after_here all =
            All-append _ pre (c ∷ post)
              (All-imply _ _ (λ x p _. p) pre (All-prefix P pre (c ∷ []) all))
              (
                (λ _. (All-suffix P pre (c ∷ []) all).0),
                All-imply _ _ (λ x later before. absurd (ground (arith, later, before))) post
                    split_range.2,
              )

    -- The live evaluation's candles are the last of them.
    module _
        (past : Permᴰ
          (pf.orm.rows v.candles)
          (select (λ x. leb x.row.open_time c.row.open_time) bars))
        (u' : IsUnique same_bar (contents (pf.orm.rows v.candles))) where
      pub live :
          (older : List (Bar pf)) × (older ++ history pf s v ≡ seen)
          × (length (history pf s v) ≡ min history_candle_count (length seen))
      live =
          let (older, perm, ordered, n) = history-latest pf s v in
          let same : older ++ history pf s v ≡ seen =
            Rising-eq_of_items (time pf s) (older ++ history pf s v) seen
              (sorted-Rising pf s (is_bar_of pf s) (λ x h. h) _ (pf.orm.rows v.candles) u' perm
                ordered)
              seen-Rising
              (λ P h. seen_of P (
                All-unselect _ _ bars (
                  perm-All _ past
                    (All-unselect P (is_bar_of pf s) (pf.orm.rows v.candles) (perm-All P perm h)))))
              (λ P h. perm-All P (Permᴰ.symm perm) (
                All-of_implied P (is_bar_of pf s) (pf.orm.rows v.candles)
                  (perm-All _ (Permᴰ.symm past) (All-of_implied _ _ bars (of_seen P h))))) in
          (older, same, n ∙ ap (min history_candle_count) (sym (perm-length perm) ∙ ap length same))
