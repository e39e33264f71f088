-- ===== src/Backtesting/Tasks/Bars.antt =====
-- The candles of one currency and interval have distinct times, so that a sorted query of them rises.
use Prim.Native.Nat.{min}
use cryptovira.Prelude.{
  ℕ, zero, suc, ◌+◌, ◌<◌, ◌≡◌, refl, sym, ◌∙◌, ◌⊎◌, Bool, true, false, List, [], ◌∷◌, ◌++◌, Permᴰ,
  select, All, All-append, str_eq, eq_iff, Bool-cases, inl, inr, arith,
}
use cryptovira.Orm.{Stored, ascending, IsOrdered}
use cryptovira.Orm.Merge.{IsUnique}
use cryptovira.Orm.Sorted.{
  All-prefix, All-suffix, Rising, IsOrdered-Rising, IsUnique-perm, same_key,
}
use cryptovira.Market.Models.{Candle, same_bar}
use cryptovira.Strategy.Models.{Strategy}
use cryptovira.Strategy.Tasks.{history_candle_count, is_bar_of}
use cryptovira.Backtesting.Tasks.{Bar}
use cryptovira.World.{Platform}
use cryptovira.World.Matches.{contents}
use mathlib.Core.List.Permᴰ

-- Of a limited number, either all were wanted or none is left.
pub full_or_none :
    (a m k : ℕ) → a ≡ min history_candle_count k → k ≡ m + a → (a ≡ history_candle_count) ⊎ (m ≡ 0)
full_or_none a zero k h e = inr refl
full_or_none a (suc m) k h e = inl (omega arith)

module _ (pf : Platform) (s : Strategy) where
  abbrev pub time : Candle pf.python → ℕ
  time c = c.open_time

  bars_clash :
      (x y : Bar pf)
      → is_bar_of pf s x ≡ true
      → is_bar_of pf s y ≡ true
      → same_bar y.row x.row ≡ false
      → same_key time y x ≡ false
  bars_clash x y h k apart =
      let same : y.row.interval ≡ x.row.interval =
        (eq_iff y.row.interval s.interval).0 (ground (arith, k))
        ∙ sym ((eq_iff x.row.interval s.interval).0 (ground (arith, h))) in
      let told : str_eq y.row.interval x.row.interval ≡ true =
        (eq_iff y.row.interval x.row.interval).1 same in
      ground (arith, told, apart, h, k)

  apart_bars :
      (p : Bar pf → Bool)
      → ((x : Bar pf) → p x ≡ true → is_bar_of pf s x ≡ true)
      → (x : Bar pf) → is_bar_of pf s x ≡ true
      → (l : List (Bar pf)) → All (λ y. same_bar y x.row ≡ false) (contents l)
      → All (λ y. same_key time y x ≡ false) (select p l)
  apart_bars p bar x h [] u = tt
  apart_bars p bar x h (y ∷ l) u = elim (Bool-cases (p y)) [
    | inl e ↦ rw e (bars_clash x y h (bar y e) u.0, apart_bars p bar x h l u.1)
    | inr e ↦ rw e (apart_bars p bar x h l u.1)
  ]

  -- The candles of one currency and interval have distinct times.
  distinct_bars :
      (p : Bar pf → Bool)
      → ((x : Bar pf) → p x ≡ true → is_bar_of pf s x ≡ true)
      → (l : List (Bar pf)) → IsUnique same_bar (contents l)
      → IsUnique (same_key time) (select p l)
  distinct_bars p bar [] u = tt
  distinct_bars p bar (x ∷ l) u = elim (Bool-cases (p x)) [
    | inl e ↦ rw e (apart_bars p bar x (bar x e) l u.0, distinct_bars p bar l u.1)
    | inr e ↦ rw e (distinct_bars p bar l u.1)
  ]

  pub sorted-Rising :
      (p : Bar pf → Bool)
      → ((x : Bar pf) → p x ≡ true → is_bar_of pf s x ≡ true)
      → (l rows : List (Bar pf)) → IsUnique same_bar (contents rows)
      → Permᴰ l (select p rows)
      → IsOrdered ascending time l
      → Rising time l
  sorted-Rising p bar l rows u perm ordered = IsOrdered-Rising time l ordered (
      IsUnique-perm (same_key time) (λ a b. ground arith) (Permᴰ.symm perm)
        (distinct_bars p bar rows u))

-- In a rising list, what stands before an item and behind it.
module _ {Row : Type 0} (key : Row → ℕ) (c : Stored Row) (post : List (Stored Row)) where
  pub Rising-before :
      (pre : List (Stored Row))
      → Rising key (pre ++ c ∷ post)
      → All (λ x. key x.row < key c.row) pre
        × Rising key (pre ++ c ∷ [])
        × All (λ x. key c.row < key x.row) post
  Rising-before [] r = (tt, (tt, tt), r.0)
  Rising-before (x ∷ pre) r =
      let (before, rising, behind) = Rising-before pre r.1 in
      let here : key x.row < key c.row = (All-suffix _ pre (c ∷ post) r.0).0 in
      (
        (here, before),
        (All-append _ pre (c ∷ []) (All-prefix _ pre (c ∷ post) r.0) (here, tt), rising),
        behind,
      )
