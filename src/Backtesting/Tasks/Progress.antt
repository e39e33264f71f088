-- ===== src/Backtesting/Tasks/Progress.antt =====
-- The progress that the loop of `run_backtest` saves.
use Prim.Native.Nat.{max}
use cryptovira.Prelude.{
  ℕ, zero, suc, List, ◌+◌, ◌*◌, ◌/◌, ◌%◌, ◌≤◌, ◌<◌, ◌≡◌, refl, sym, ap, ◌∙◌, subst, ◌⊎◌, inl, inr,
  true, false, ◌==◌, eq_of_==, Bool-cases, All, arith,
}
use cryptovira.Exec.{Result, ok, err, Error, Result-cases}
use cryptovira.Strategy.Schema.{StrategyConfig}
use cryptovira.Backtesting.Tasks.{
  Score, Bar, start, update_every, percent, is_reported, with_progress, save_backtest, report,
  judge_candle, loop,
}
use cryptovira.World.{Platform, World}
use cryptovira.World.Queries.{saved-All}
use native.Mathlib.Nat.{div-add-mod, mul-mod_right, mul-div_cancel, zero-div}

percent_whole : (n : ℕ) → 1 ≤ n → percent n n ≡ 100
percent_whole n positive = ap (λ k. k / n) (the_product n) ∙ mul-div_cancel 100 (omega arith)
  where
    the_product : (n : ℕ) → n * 100 ≡ 100 * n
    the_product n = omega arith

-- A number that is not a multiple is not the next one.
before_next : (u q m : ℕ) → m < u * q + u + 1 → (m % u == 0) ≡ false → m < u * q + u
before_next u q m h other = elim (Bool-cases (m == u * q + u)) [
  | inl e ↦ absurd (
      let at : m ≡ u * suc q = eq_of_== m (u * q + u) e ∙ next u q in
      let whole : m % u ≡ 0 = ap (λ k. k % u) at ∙ mul-mod_right u (suc q) in
      ground (arith, whole, other))
  | inr e ↦ ground (arith, e)
]
  where
    next : (u q : ℕ) → u * q + u ≡ u * suc q
    next u q = ground arith

module _ (pf : Platform) where
  open pf use {python}

  -- Every backtest with that primary key has that progress.
  abbrev pub HasProgress : ℕ → ℕ → World pf → Type 0
  HasProgress i k w = All (λ x. (x.id == i) ≡ true → x.row.progress ≡ k) (pf.orm.rows w.backtests)

  -- The progress is that of the last candle that was reported, of those that were judged, and with
  -- `update_every` more there would have been another.
  pub record Reported (i n done : ℕ) (w : World pf) : Type 0 where
    pub last : ℕ
    pub count : ℕ
    pub multiple : last ≡ update_every n * count
    pub reached : last ≤ done
    pub recent : done < last + update_every n
    pub saved : HasProgress i (percent n last) w

  saved-HasProgress :
      (i k : ℕ) (w : World pf) → HasProgress i k (save_backtest pf i (with_progress pf k) w)
  saved-HasProgress i k w =
      saved-All pf.orm i (with_progress pf k) (λ b. b.progress ≡ k) w.backtests
        (λ a b. (refl, refl)) (λ b. refl)

  -- within the candles, or at their end
  Standing : ℕ → ℕ → ℕ → World pf → Type 0
  Standing i n offset w = (offset < n) × Reported i n offset w ⊎ (offset ≡ n) × HasProgress i 100 w

  module _ (config : StrategyConfig python) (series : List (Bar pf)) (horizon i first n : ℕ) where
    told :
        (m : ℕ) (w : World pf)
        → is_reported n m ≡ true
        → HasProgress i (percent n m) (report pf config series horizon i first n m w)
    told m w e = rw e (saved-HasProgress i (percent n m) w)

    untold :
        (m : ℕ) (w : World pf)
        → is_reported n m ≡ false
        → report pf config series horizon i first n m w ≡ w
    untold m w e = rw e refl

    report-Reported :
        (m : ℕ) (w : World pf)
        → (m % update_every n == 0) ≡ true
        → Reported i n m (report pf config series horizon i first n m w)
    report-Reported m w e =
        let zero_left : m % update_every n ≡ 0 = eq_of_== (m % update_every n) 0 e in
        record {
          last = m;
          count = m / update_every n;
          multiple =
              sym (div-add-mod m (update_every n))
              ∙ ap (λ k. update_every n * (m / update_every n) + k) zero_left
              ∙ add_zero (update_every n * (m / update_every n));
          reached = omega arith;
          recent = positive m (n / 100);
          saved = told m w (rw e refl);
        }
      where
        add_zero : (k : ℕ) → k + 0 ≡ k
        add_zero k = omega arith

        positive : (m k : ℕ) → m < m + max 1 k
        positive m k = omega arith

    -- One report.
    report-Standing :
        (offset : ℕ) (w : World pf)
        → offset < n
        → Reported i n offset w
        → Standing i n (offset + 1) (report pf config series horizon i first n (offset + 1) w)
    unfolding Standing
    report-Standing offset w inside r = elim (Bool-cases (offset + 1 == n)) [
      | inl e ↦
          let at : offset + 1 ≡ n = eq_of_== (offset + 1) n e in
          let full : percent n (offset + 1) ≡ 100 =
            ap (percent n) at ∙ percent_whole n (omega (arith, inside)) in
          inr (
            at,
            subst (λ k. HasProgress i k (report pf config series horizon i first n (offset + 1) w))
                full (told (offset + 1) w (ground (arith, e))),
          )
      | inr e ↦
          let inside' : offset + 1 < n = ground (arith, e, inside) in
          elim (Bool-cases ((offset + 1) % update_every n == 0)) [
            | inl e' ↦ inl (inside', report-Reported (offset + 1) w e')
            | inr e' ↦ inl (
              inside',
              subst (Reported i n (offset + 1)) (sym (untold (offset + 1) w (rw e' e))) (record {
                last = r.last;
                count = r.count;
                multiple = r.multiple;
                reached = let h = r.reached in omega (arith, h);
                recent =
                    subst (λ k. offset + 1 < k + update_every n) (sym r.multiple)
                      (before_next (update_every n) r.count (offset + 1)
                        (still_before offset r.last (update_every n) (update_every n * r.count)
                          r.recent r.multiple)
                        e');
                saved = r.saved;
              }),
            )
          ]
    ]
      where
        still_before : (offset last u k : ℕ) → offset < last + u → last ≡ k → offset + 1 < k + u + 1
        still_before offset last u k h e = omega (arith, h, e)

    -- What the loop leaves: 100 percent where it returns, and else the last report before the candle
    -- that raised.
    pub Left : Result (Score python.Float) × World pf → Type 0
    Left out =
        ((s : Score python.Float) × (out.0 ≡ ok s) × HasProgress i 100 out.1)
        ⊎ ((done : ℕ) × (s : Score python.Float) × (e : Error) × (done < n)
            × (judge_candle pf config series horizon (first + done) s ≡ err e)
            × (out.0 ≡ err e)
            × Reported i n done out.1)

    loop-Standing :
        (left offset : ℕ) (s : Score python.Float) (w : World pf)
        → offset + left ≡ n
        → Standing i n offset w
        → Left (loop pf config series horizon i first n left offset s w)
    unfolding loop Standing Left
    loop-Standing zero offset s w all (inl (inside, _)) = absurd (omega (arith, all, inside))
    loop-Standing zero offset s w all (inr (_, full)) = inl (s, refl, full)
    loop-Standing (suc left) offset s w all (inr (at, _)) = absurd (omega (arith, all, at))
    loop-Standing (suc left) offset s w all (inl (inside, r)) =
        elim (Result-cases (judge_candle pf config series horizon (first + offset) s)) [
          | inr (e, raised) ↦ inr (offset, s, e, inside, raised, rw raised refl, rw raised r)
          | inl (s', judged) ↦ rw judged (
              loop-Standing left (offset + 1) s' _ (omega (arith, all))
                (report-Standing offset w inside r))
        ]

    -- From the change to RUNNING on, and with one candle or more in the period, the loop leaves the
    -- backtest's progress at 100 if it returns. If it raises, it is at a candle of the period, the
    -- progress is the percentage of the last candle before that one whose number is a multiple of
    -- `update_every`, or 0 where there is none, and the candle that raised comes before the next
    -- multiple.
    pub loop-Left :
        (s : Score python.Float) (w : World pf)
        → 1 ≤ n
        → Left (loop pf config series horizon i first n n 0 s (save_backtest pf i (start pf) w))
    unfolding Standing
    loop-Left s w positive = loop-Standing n 0 s (save_backtest pf i (start pf) w) (omega arith) (
        inl (
          positive,
          record {
            last = 0;
            count = 0;
            multiple = sym (none_yet (update_every n));
            reached = omega arith;
            recent = one_at_least (n / 100);
            saved =
                subst (λ k. HasProgress i k (save_backtest pf i (start pf) w)) (nothing n)
                  (saved-All pf.orm i (start pf) (λ b. b.progress ≡ 0) w.backtests
                    (λ a b. (refl, refl)) (λ b. refl));
          },
        ))
      where
        none_yet : (u : ℕ) → u * 0 ≡ 0
        none_yet u = omega arith

        one_at_least : (k : ℕ) → 0 < 0 + max 1 k
        one_at_least k = omega arith

        nothing : (n : ℕ) → 0 ≡ percent n 0
        nothing n = sym (zero-div n)
