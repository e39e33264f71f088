-- ===== src/Strategy/Tasks/History.antt =====
-- The candles that an evaluation sees.
use Prim.Native.Nat.{min}
use cryptovira.Prelude.{
  ℕ, ◌≤◌, ◌≡◌, Bool, sym, ap, ◌∙◌, List, [], ◌∷◌, ◌++◌, reverse, take, drop, length, select, All,
  All-trivial, All-pair, take-append-drop, length-take, length-reverse, perm-length, perm_none,
  Permᴰ,
}
use cryptovira.Orm.{Orm, Stored, ascending, descending, IsOrdered}
use cryptovira.Market.Models.{Candle}
use cryptovira.Strategy.Models.{Strategy}
use cryptovira.Strategy.Tasks.{history, history_candle_count, is_bar_of}
use cryptovira.World.{Platform, World}
use mathlib.Core.List.Permᴰ
use mathlib.Core.List.{reverse_aux, reverse-append}

module _ {Row : Type 0} (key : Row → ℕ) where
  reverse_aux-IsOrdered :
      (l r : List (Stored Row))
      → IsOrdered descending key l
      → IsOrdered ascending key r
      → All (λ y. All (λ x. key y.row ≤ key x.row) r) l
      → IsOrdered ascending key (reverse_aux l r)
  reverse_aux-IsOrdered [] r falling rising below = rising
  reverse_aux-IsOrdered (x ∷ l) r falling rising below =
      reverse_aux-IsOrdered l (x ∷ r) falling.1 (below.0, rising)
        (All-pair (λ y. key y.row ≤ key x.row) _ l falling.0 below.1)

  -- A falling list, reversed, rises.
  pub reverse-IsOrdered :
      (l : List (Stored Row)) → IsOrdered descending key l → IsOrdered ascending key (reverse l)
  reverse-IsOrdered l falling = reverse_aux-IsOrdered l [] falling tt (All-trivial l)

reverse-take-drop :
    {A : Type 0} (n : ℕ) (l : List A) → reverse (drop n l) ++ reverse (take n l) ≡ reverse l
reverse-take-drop n l =
    sym (reverse-append (take n l) (drop n l)) ∙ ap reverse (take-append-drop n l)

-- The latest rows of a query: `order_by("-key")[:n]`, reversed.
module _ (orm : Orm) {Row : Type 0} {clash : Row → Row → Bool} (key : Row → ℕ)
    (p : Stored Row → Bool) (n : ℕ) (t : orm.Table Row clash) where
  abbrev pub fallen : List (Stored Row)
  fallen = orm.order_by descending key (orm.filter p t)

  pub fallen-perm : Permᴰ fallen (select p (orm.rows t))
  fallen-perm = Permᴰ.trans (orm.order_by_law descending _ _) (orm.filter_law _ t)

  -- The rows that match are some older ones and those, in rising order, and those are `n`, or all
  -- where there are fewer.
  pub latest_rows :
      (older : List (Stored Row)) × Permᴰ (older ++ reverse (take n fallen)) (select p (orm.rows t))
      × IsOrdered ascending key (older ++ reverse (take n fallen))
      × (length (reverse (take n fallen)) ≡ min n (length (select p (orm.rows t))))
  latest_rows = (
    reverse (drop n fallen),
    rw (reverse-take-drop n fallen) (Permᴰ.trans (Permᴰ.reverse fallen) fallen-perm),
    rw (reverse-take-drop n fallen)
        (reverse-IsOrdered key fallen (orm.order_by_sorted descending _ _)),
    length-reverse (take n fallen) ∙ length-take n fallen ∙ ap (min n) (perm-length fallen-perm),
  )

module _ (pf : Platform) (s : Strategy) (w : World pf) where
  -- An evaluation sees the latest candles of the strategy's currency and interval, oldest first: the
  -- stored ones are some older ones and those, in rising order of their opening times, and those
  -- are 200, or all where there are fewer.
  pub history-latest :
      let stored = select (is_bar_of pf s) (pf.orm.rows w.candles) in
      (older : List (Stored (Candle pf.python))) × Permᴰ (older ++ history pf s w) stored
      × IsOrdered ascending (λ c. c.open_time) (older ++ history pf s w)
      × (length (history pf s w) ≡ min history_candle_count (length stored))
  unfolding history
  history-latest =
      latest_rows pf.orm (λ c. c.open_time) (is_bar_of pf s) history_candle_count w.candles

  -- No stored candle, no history.
  pub history_nil : select (is_bar_of pf s) (pf.orm.rows w.candles) ≡ [] → history pf s w ≡ []
  unfolding history
  history_nil missing =
      ap (λ l. reverse (take history_candle_count l))
        (perm_none
          (fallen-perm pf.orm (λ c. c.open_time) (is_bar_of pf s) history_candle_count w.candles)
          missing)
