-- ===== src/Schedule.antt =====
-- The beat schedule of src/cryptovira/celery.py. A cron field is kept as the expression that is
-- written there, and read as Celery documents it.
pub mod Routing
use cryptovira.Prelude.{
  ℕ, ◌+◌, ◌%◌, String, ◌≡◌, refl, Bool, true, false, ◌&&◌, List, [], ◌∷◌, select, any, str_eq, ◌==◌,
  arith,
}
use cryptovira.Market.Models.{
  Interval, value, one_minute, five_minutes, fifteen_minutes, thirty_minutes, one_hour, four_hours,
  one_day, one_week,
}

-- `*`, `*/n`, and a list of numbers
pub data Field : Type 0 where
  every : Field
  every_nth : ℕ → Field
  at : List ℕ → Field

-- `crontab(minute=..., hour=..., day_of_week=...)`
pub record Crontab : Type 0 where
  pub minute : Field
  pub hour : Field
  pub day_of_week : Field

pub data TaskName : Type 0 where
  fan_out_ingest fan_out_evaluate : TaskName

-- an entry: the task, its schedule, and its argument `interval`
pub record Entry : Type 0 where
  pub task : TaskName
  pub schedule : Crontab
  pub interval : String

abbrev in_field : ℕ → Field → Bool
in_field n every = true
in_field n (every_nth k) = n % k == 0
in_field n (at ns) = any (λ k. k == n) ns

-- whether an entry runs at that minute of that hour of that day of the week
abbrev pub is_due_at : Entry → ℕ → ℕ → ℕ → Bool
is_due_at e minute hour day =
    in_field minute e.schedule.minute
    && (in_field hour e.schedule.hour && in_field day e.schedule.day_of_week)

abbrev entry : TaskName → Field → Field → Field → String → Entry
entry task minute hour day interval = record {
  task = task;
  schedule = record { minute = minute; hour = hour; day_of_week = day };
  interval = interval;
}

-- `beat_schedule`
abbrev pub beat_schedule : List Entry
beat_schedule =
    entry fan_out_ingest every every every "1m"
    ∷ entry fan_out_ingest (every_nth 5) every every "5m"
    ∷ entry fan_out_ingest (every_nth 15) every every "15m"
    ∷ entry fan_out_ingest (at (5 ∷ 35 ∷ [])) every every "30m"
    ∷ entry fan_out_ingest (at (5 ∷ [])) every every "1h"
    ∷ entry fan_out_ingest (at (5 ∷ [])) (every_nth 4) every "4h"
    ∷ entry fan_out_ingest (at (5 ∷ [])) (at (0 ∷ [])) every "1d"
    ∷ entry fan_out_ingest (at (5 ∷ [])) (at (0 ∷ [])) (at (1 ∷ [])) "1w"
    ∷ entry fan_out_evaluate every every every "1m"
    ∷ entry fan_out_evaluate (every_nth 5) every every "5m"
    ∷ entry fan_out_evaluate (every_nth 15) every every "15m"
    ∷ entry fan_out_evaluate (at (8 ∷ 38 ∷ [])) every every "30m"
    ∷ entry fan_out_evaluate (at (8 ∷ [])) every every "1h"
    ∷ entry fan_out_evaluate (at (8 ∷ [])) (every_nth 4) every "4h"
    ∷ entry fan_out_evaluate (at (8 ∷ [])) (at (0 ∷ [])) every "1d"
    ∷ entry fan_out_evaluate (at (8 ∷ [])) (at (0 ∷ [])) (at (1 ∷ [])) "1w"
    ∷ []

abbrev same_task : TaskName → TaskName → Bool
same_task fan_out_ingest fan_out_ingest = true
same_task fan_out_evaluate fan_out_evaluate = true
same_task _ _ = false

-- the entries of a task for an interval
abbrev pub entries : TaskName → Interval → List Entry
entries task i = select (λ e. same_task e.task task && str_eq e.interval (value i)) beat_schedule

-- the minutes by which evaluation follows ingestion
abbrev pub lag : Interval → ℕ
lag one_minute = 0
lag five_minutes = 0
lag fifteen_minutes = 0
lag _ = 3

-- One entry ingests an interval and one evaluates it, and the second runs when the first does, or
-- so many minutes later.
pub record Paired (i : Interval) : Type 0 where
  pub ingests : Entry
  pub evaluates : Entry
  pub one_ingests : entries fan_out_ingest i ≡ ingests ∷ []
  pub one_evaluates : entries fan_out_evaluate i ≡ evaluates ∷ []
  pub follows :
      (minute hour day : ℕ)
      → is_due_at evaluates (minute + lag i) hour day ≡ is_due_at ingests minute hour day

-- Every interval has one entry that ingests its candles and one that evaluates its strategies; the
-- second runs at the same minutes as the first for intervals below 30 minutes, and three minutes
-- after it for the others.
pub beat_schedule-Paired : (i : Interval) → Paired i
beat_schedule-Paired one_minute = record {
  ingests = _;
  evaluates = _;
  one_ingests = refl;
  one_evaluates = refl;
  follows = λ m h d. refl;
}
beat_schedule-Paired five_minutes = record {
  ingests = _;
  evaluates = _;
  one_ingests = refl;
  one_evaluates = refl;
  follows = λ m h d. ground arith;
}
beat_schedule-Paired fifteen_minutes = record {
  ingests = _;
  evaluates = _;
  one_ingests = refl;
  one_evaluates = refl;
  follows = λ m h d. ground arith;
}
beat_schedule-Paired thirty_minutes = record {
  ingests = _;
  evaluates = _;
  one_ingests = refl;
  one_evaluates = refl;
  follows = λ m h d. ground arith;
}
beat_schedule-Paired one_hour = record {
  ingests = _;
  evaluates = _;
  one_ingests = refl;
  one_evaluates = refl;
  follows = λ m h d. ground arith;
}
beat_schedule-Paired four_hours = record {
  ingests = _;
  evaluates = _;
  one_ingests = refl;
  one_evaluates = refl;
  follows = λ m h d. ground arith;
}
beat_schedule-Paired one_day = record {
  ingests = _;
  evaluates = _;
  one_ingests = refl;
  one_evaluates = refl;
  follows = λ m h d. ground arith;
}
beat_schedule-Paired one_week = record {
  ingests = _;
  evaluates = _;
  one_ingests = refl;
  one_evaluates = refl;
  follows = λ m h d. ground arith;
}
