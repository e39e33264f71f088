-- ===== src/Lib.antt =====
-- A model of cryptovira: a Django and Celery program that ingests candles from an exchange,
-- evaluates strategies on them, records a signal for each evaluation that triggers, notifies the
-- recipients of the strategy's owner, and backtests strategies on stored candles.
--
-- The parts and the files. Paths are from the repository's root.
--   Market: src/cryptovira/apps/market. Market/Models is models.py, Market/Binance is sources/base.py
--   and sources/binance.py, Market/Tasks is tasks.py (`fan_out_ingest_candles`, `ingest_candles`).
--   Strategy: src/cryptovira/apps/strategy. Schema, Operators, Indicators, Engine, Models and Tasks
--   are the files of those names (`StrategyConfig.model_validate`, `evaluate`, `evaluate_strategy`).
--   Signals: src/cryptovira/apps/signals. Models, Messages, Services, Channels and Tasks are the files
--   of those names (`record_signal`, `dispatch_notifications`, `send_notification`).
--   Backtesting: src/cryptovira/apps/backtesting. Models and Tasks are models.py and tasks.py
--   (`run_backtest`), with the actions of the two admin.py files that publish a task again.
-- The parts meet in World: the tables of the database and the messages published to the broker.
-- `evaluate_strategy` reads the candles that `ingest_candles` writes and calls `record_signal`, which
-- publishes `dispatch_notifications`, which publishes `send_notification` for each delivery.
--
-- System puts the parts together: a step relation with a step for each task, admin action and edit,
-- any number of them in any order. System/Invariant says what holds of every state and between a
-- state and a later one, System/Reachable proves it, System/FirstDispatch follows a signal to its
-- recipients, and System/EndToEnd an evaluation that triggers. Backtesting/Tasks/Replay relates a
-- backtest to the live evaluations of Strategy/Tasks, and Backtesting/Tasks/Rerun two runs of a
-- backtest. Strategy/Schema/Shape describes the JSON of a configuration.
--
-- A task is a function from a world to a result and a world (Exec). An exception is a value of the
-- result, and what was written before it stays written. A theorem about a task holds of every world
-- that it may start in; in System other tasks run between tasks, not within one.
--
-- Concurrent lets them run at the same time. Concurrent/Programs and Concurrent/Backtests are the
-- tasks once more, split into their statements (`Code`): queries, writes, calls and messages, each
-- of which takes effect at once. `interleave` runs the statements of any number of tasks in the
-- order of a schedule. A query that joins tables counts as one statement for each, so that there is
-- no interleaving less than in a run. Concurrent/Safe is the method: a statement keeps the
-- invariant and what others rely on, wherever they have led. Concurrent/Assess, Deliver, Attempt,
-- Ingest and Edits apply it, Concurrent/Done says what a task has done once it has ended, in terms of
-- the states that the run passes through, Concurrent/Alone, Serial and Whole compare the programs
-- with the functions, and Concurrent/Race is about two runs of `send_notification` for one delivery.
--
-- What the repository only calls is a parameter, `Platform`: Python's floats and decimals (Python),
-- Django's ORM (Orm, with the laws that are used of it), TA-Lib, pydantic's reading of numbers, and
-- Celery's backoff. The HTTP client, the clock and the data source are arguments. `whole` and
-- `memory` are values of the parameters, with which Tests runs the tasks. A foreign key is followed
-- by a query for its primary key. A datetime is the number of microseconds since the epoch in UTC.
--
-- No task runs on fuel but `run_to_end`, which stands for the task queue and runs
-- `send_notification` at most as often as it is told; six runs are enough, for five retries are
-- allowed. `deliver_all` runs the messages of a list. The loop of `run_backtest` is structural in
-- the number of candles left.
--
-- Schedule is the beat schedule of src/cryptovira/celery.py, and Schedule/Routing its queues and
-- worker options. Settings is src/cryptovira/config.py, and Settings/Deployment what
-- src/cryptovira/settings.py and src/cryptovira/logging_config.py make of it. Health is the
-- readiness probe of src/cryptovira/apps/common/views.py. Accounts is src/cryptovira/apps/accounts:
-- the users, their manager and registration, in Accounts/Registering registrations at the same time
-- (with `Code` and `interleave` of Concurrent), and in Accounts/Api the views of registration,
-- logout and the profile, over simplejwt as a parameter. Admin is the permissions of the pages that
-- the admin.py files of accounts, market, strategy, signals and backtesting register, and what the
-- form of a backtest writes, with Django's admin site as a parameter (`AdminSite`).
--
-- Migrations is the operations of the five apps' migrations, and Migrations/Constraints compares
-- the constraints that they make with those of the model's tables. Deletion says what `on_delete`
-- makes go with a row and what it protects; a deletion is no step of System, and is given by the
-- rows it leaves.
--
-- A decimal that is written to a column of a candle goes through `to_column` of Python, which stands
-- for what NUMERIC(20, 8) stores, or for the exception of a number that does not fit.
--
-- Not modelled: the bound 32767 of the column `attempts` of a delivery, the lengths of text columns
-- when a task writes them, times before 1970; throttling, the update of a profile, login and the
-- refresh of tokens, which are REST framework's and simplejwt's; bookkeeping time stamps, what the
-- admin site's pages show, URL tables, which are declarations for the frameworks without logic of
-- their own.
pub mod Prelude
pub mod Python
pub mod Exec
pub mod Orm
pub mod Market
pub mod Strategy
pub mod Signals
pub mod Backtesting
pub mod World
pub mod Schedule
pub mod System
pub mod Settings
pub mod Health
pub mod Migrations
pub mod Deletion
pub mod Concurrent
pub mod Admin
pub mod Accounts
pub mod Tests
