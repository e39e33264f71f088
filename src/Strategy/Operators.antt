-- ===== src/Strategy/Operators.antt =====
-- apps/strategy/operators.py: comparisons of an indicator's series with a value. A series is a list
-- of floats; `none` stands for the `IndexError` of a series that is too short.
use cryptovira.Prelude.{
  ◌≡◌, refl, Bool, true, false, not, ◌&&◌, Option, none, some, List, [], ◌∷◌, ◌++◌, arith,
  item_from_end, item_from_end-append, append_assoc,
}
use cryptovira.Python.{Python, IsIeee}
use cryptovira.Strategy.Schema.{OperatorName, gt, lt, eq, crosses_above, crosses_below}

abbrev on_one : {A : Type 0} → Option A → (A → Bool) → Option Bool
on_one none f = none
on_one (some a) f = some (f a)

abbrev on_two : {A : Type 0} → Option A → Option A → (A → A → Bool) → Option Bool
on_two (some a) (some b) f = some (f a b)
on_two _ _ f = none

module _ (p : Python) where
  open p use {Float, is_close}

  greater : List Float → Float → Option Bool
  greater series value = on_one (item_from_end series 1) (λ x. p.lt value x)

  less : List Float → Float → Option Bool
  less series value = on_one (item_from_end series 1) (λ x. p.lt x value)

  close_to : List Float → Float → Option Bool
  close_to series value = on_one (item_from_end series 1) (λ x. is_close x value)

  -- `series[-2] <= value < series[-1]`
  above : List Float → Float → Option Bool
  above series value =
      on_two (item_from_end series 2) (item_from_end series 1) (λ x y. p.le x value && p.lt value y)

  -- `series[-2] >= value > series[-1]`
  below : List Float → Float → Option Bool
  below series value =
      on_two (item_from_end series 2) (item_from_end series 1) (λ x y. p.le value x && p.lt y value)

  -- `OPERATORS[name](series, value)`
  unfoldable pub apply_operator : OperatorName → List Float → Float → Option Bool
  unfolding greater less close_to above below
  apply_operator gt = greater
  apply_operator lt = less
  apply_operator eq = close_to
  apply_operator crosses_above = above
  apply_operator crosses_below = below

  -- What an operator asks of the last two points.
  abbrev pub compare_points : OperatorName → Float → Float → Float → Bool
  compare_points gt x y value = p.lt value y
  compare_points lt x y value = p.lt y value
  compare_points eq x y value = is_close y value
  compare_points crosses_above x y value = p.le x value && p.lt value y
  compare_points crosses_below x y value = p.le value x && p.lt y value

  -- On a series of two or more points no operator raises, and each looks at the last two.
  pub apply_operator-append :
      (o : OperatorName) (front : List Float) (x y value : Float)
      → apply_operator o (front ++ x ∷ y ∷ []) value ≡ some (compare_points o x y value)
  unfolding apply_operator
  apply_operator-append gt front x y value =
      rw (item_from_end-append front (x ∷ y ∷ []) 1 (omega arith)) refl
  apply_operator-append lt front x y value =
      rw (item_from_end-append front (x ∷ y ∷ []) 1 (omega arith)) refl
  apply_operator-append eq front x y value =
      rw (item_from_end-append front (x ∷ y ∷ []) 1 (omega arith)) refl
  apply_operator-append crosses_above front x y value =
      rw
        (
          item_from_end-append front (x ∷ y ∷ []) 2 (omega arith),
          item_from_end-append front (x ∷ y ∷ []) 1 (omega arith),
        )
        refl
  apply_operator-append crosses_below front x y value =
      rw
        (
          item_from_end-append front (x ∷ y ∷ []) 2 (omega arith),
          item_from_end-append front (x ∷ y ∷ []) 1 (omega arith),
        )
        refl

  module _ (ieee : IsIeee p) where
    -- On a series that ends in two points of which the first is a number, `crosses_above` for a
    -- level that is a number tells whether the level is exceeded at the last point and not at the
    -- one before.
    crosses_above-eq-edge :
        (front : List Float) (x y value : Float)
        → p.is_nan x ≡ false
        → p.is_nan value ≡ false
        → apply_operator crosses_above (front ++ x ∷ y ∷ []) value
          ≡ some (not (p.lt value x) && p.lt value y)
    crosses_above-eq-edge front x y value h k =
        rw apply_operator-append (ground (arith, ieee.le_or_gt x value h k))

    once :
        (x y z value : Float)
        → some (compare_points crosses_above x y value) ≡ some true
        → some (compare_points crosses_above y z value) ≡ some false
    once x y z value h = ground (arith, ieee.lt_nan value y, ieee.le_or_gt y value)

    not_nan :
        (x : Float) → p.is_nan x ≡ true → (y : Float) → (p.le x y ≡ false) × (p.le y x ≡ false)
    not_nan x h y = ground (arith, ieee.le_nan x y, ieee.le_nan y x)

    -- Where `crosses_above` holds at a point, it does not hold at the next, whatever that point
    -- is.
    crosses_above_once :
        (front : List Float) (x y z value : Float)
        → apply_operator crosses_above (front ++ x ∷ y ∷ []) value ≡ some true
        → apply_operator crosses_above (front ++ x ∷ y ∷ z ∷ []) value ≡ some false
    crosses_above_once front x y z value h =
        rw (← append_assoc front (x ∷ []) (y ∷ z ∷ []), apply_operator-append)
          (once x y z value (rw apply_operator-append at h))

    -- Where the point before the last is NaN, neither crossing operator holds.
    crosses_nan :
        (front : List Float) (x y value : Float)
        → p.is_nan x ≡ true
        → (apply_operator crosses_above (front ++ x ∷ y ∷ []) value ≡ some false)
          × (apply_operator crosses_below (front ++ x ∷ y ∷ []) value ≡ some false)
    crosses_nan front x y value h = simp apply_operator-append (ground (arith, not_nan x h value))
