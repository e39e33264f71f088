-- ===== src/Orm/Rows.antt =====
-- Rows as the database stores them, and the order of a sorted query.
use cryptovira.Prelude.{ℕ, ◌≤◌, Bool, List, [], ◌∷◌, All, ◌==◌, if◌then◌else◌}

-- A row with its primary key.
pub record Stored (Row : Type 0) : Type 0 where
  pub id : ℕ
  pub row : Row

pub data Direction : Type 0 where
  ascending descending : Direction

abbrev pub same_id : {Row : Type 0} → Stored Row → Stored Row → Bool
same_id a b = a.id == b.id

-- the row with primary key `i`, written by `f`; any other as it is
abbrev pub written : {Row : Type 0} → ℕ → (Row → Row) → Stored Row → Stored Row
written i f s = if s.id == i then record s { row = f s.row } else s

abbrev pub Precedes : Direction → ℕ → ℕ → Type 0
Precedes ascending a b = a ≤ b
Precedes descending a b = b ≤ a

-- Each row precedes all rows behind it.
abbrev pub IsOrdered : {Row : Type 0} → Direction → (Row → ℕ) → List (Stored Row) → Type 0
IsOrdered d key [] = Unit
IsOrdered d key (x ∷ l) = All (λ y. Precedes d (key x.row) (key y.row)) l × IsOrdered d key l
