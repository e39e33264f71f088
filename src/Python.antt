-- ===== src/Python.antt =====
-- What the program uses of Python's decimals, floats and datetimes. Floats have no exact model, so
-- the types and their operations are a parameter; `IsIeee` states the comparisons' documented laws.
-- A datetime is the number of microseconds since the epoch, in UTC: there is none before 1970.
use Prim.Native.Char.{code}
use cryptovira.Prelude.{
  ℕ, ◌+◌, ◌-◌, ◌*◌, ◌/◌, String, ◌≡◌, ◌⊎◌, Bool, true, false, Option, none, some, List, ℤ, arith,
  ltb, leb, ◌==◌, if◌then◌else◌,
}

pub record Python : Type 1 where
  pub Decimal : Type 0
  -- `Decimal(text)`; `none` stands for `decimal.InvalidOperation`
  pub to_decimal : String → Option Decimal
  -- `Decimal(n)` of an integer
  pub int_decimal : ℤ → Decimal
  -- `str(d)`
  pub show_decimal : Decimal → String
  pub Float : Type 0
  -- `Decimal(x)` of a float
  pub float_decimal : Float → Decimal
  -- `Decimal(list)`, which takes a sign, digits and an exponent; `none` stands for an exception
  pub list_decimal : String → Option Decimal
  -- What a column of a `DecimalField(max_digits=20, decimal_places=8)` stores of a decimal. `none`
  -- stands for an exception of Django or the database, as for a number with too many digits.
  pub to_column : Decimal → Option Decimal
  -- `float(d)`
  pub to_float : Decimal → Float
  pub zero_float : Float
  -- `x + y`, `x - y`, `x * 100`, `x * 1000`
  pub add : Float → Float → Float
  pub sub : Float → Float → Float
  pub times_100 : Float → Float
  pub times_1000 : Float → Float
  -- `int(x)` of a float that is not negative
  pub truncate : Float → ℕ
  -- `x / y`; `none` stands for `ZeroDivisionError`
  pub div : Float → Float → Option Float
  -- `a / b` of two integers with `b` not zero
  pub int_div : ℕ → ℕ → Float
  -- `x < y`, `x <= y`, `math.isnan(x)`, `math.isclose(x, y)`
  pub lt : Float → Float → Bool
  pub le : Float → Float → Bool
  pub is_nan : Float → Bool
  pub is_close : Float → Float → Bool
  -- `str(n)`, and `str(d)` of a dict from texts to integers
  pub show_int : ℕ → String
  pub show_dict : List (String × ℤ) → String
  -- `datetime.fromtimestamp(x, tz=UTC)`; `none` stands for an exception, or a time before 1970
  pub fromtimestamp : Float → Option ℕ
  -- `t.timestamp()` of a UTC datetime
  pub timestamp : ℕ → Float
  -- `t.isoformat()` of a UTC datetime
  pub isoformat : ℕ → String

-- IEEE 754 comparisons: false on NaN, a total order on the rest.
pub record IsIeee (p : Python) : Type 0 where
  pub lt_nan : (x y : p.Float) → p.lt x y ≡ true → (p.is_nan x ≡ false) × (p.is_nan y ≡ false)
  pub le_nan : (x y : p.Float) → p.le x y ≡ true → (p.is_nan x ≡ false) × (p.is_nan y ≡ false)
  pub le_or_gt :
      (x y : p.Float)
      → p.is_nan x ≡ false
      → p.is_nan y ≡ false
      → ((p.le x y ≡ true) × (p.lt y x ≡ false)) ⊎ ((p.le x y ≡ false) × (p.lt y x ≡ true))
  pub lt-le : (x y : p.Float) → p.lt x y ≡ true → p.le x y ≡ true

-- Whole numbers with a NaN: a value of the parameter, for tests.
abbrev pub Whole : Type 0
Whole = Option ℕ

abbrev pub on_both : (ℕ → ℕ → Bool) → Whole → Whole → Bool
on_both f (some a) (some b) = f a b
on_both f _ _ = false

abbrev pub map_both : (ℕ → ℕ → ℕ) → Whole → Whole → Whole
map_both f (some a) (some b) = some (f a b)
map_both f _ _ = none

abbrev pub divide : Whole → Whole → Option Whole
divide (some a) (some b) = if b == 0 then none else some (some (a / b))
divide none (some b) = if b == 0 then none else some none
divide _ none = some none

abbrev pub missing : Whole → Bool
missing none = true
missing (some _) = false

abbrev pub or_zero : Whole → ℕ
or_zero none = 0
or_zero (some n) = n

abbrev pub seconds : Whole → Option ℕ
seconds none = none
seconds (some n) = some (n * 1000000)

-- a decimal of the tests is its text, and its float is the number that its digits spell
abbrev pub spelled : ℕ → String → ℕ
spelled n String.[] = n
spelled n (String.◌∷◌ c s) = spelled (n * 10 + (code c - 48)) s

abbrev pub whole : Python
whole = record {
  Decimal = String;
  to_decimal = λ t. some t;
  int_decimal = λ n. "0";
  float_decimal = λ x. "0";
  show_decimal = λ d. d;
  Float = Whole;
  list_decimal = λ t. none;
  to_column = λ d. some d;
  to_float = λ d. some (spelled 0 d);
  zero_float = some 0;
  add = map_both (λ a b. a + b);
  sub = map_both (λ a b. a - b);
  times_100 = λ x. map_both (λ a b. a * b) x (some 100);
  times_1000 = λ x. map_both (λ a b. a * b) x (some 1000);
  truncate = λ x. or_zero x;
  fromtimestamp = λ x. seconds x;
  timestamp = λ t. some (t / 1000000);
  div = divide;
  int_div = λ a b. some (a / b);
  lt = on_both ltb;
  le = on_both leb;
  is_nan = missing;
  is_close = on_both (λ a b. a == b);
  show_int = λ n. "";
  show_dict = λ d. "";
  isoformat = λ t. "";
}

whole-IsIeee : IsIeee whole
whole-IsIeee = ground arith
