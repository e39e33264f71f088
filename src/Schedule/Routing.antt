-- ===== src/Schedule/Routing.antt =====
-- The queues and the worker's options of src/cryptovira/celery.py. A route's pattern ends in `.*`; it
-- is kept as the module before it, since the name of a task is its module, a dot and its function.
use cryptovira.Prelude.{ℕ, String, ◌≡◌, refl, Bool, true, List, [], ◌∷◌, str_eq, if◌then◌else◌}

-- the applications that have tasks
pub data App : Type 0 where
  market strategy signals backtesting : App

-- the module of an application's tasks
abbrev pub task_module : App → String
task_module market = "cryptovira.apps.market.tasks"
task_module strategy = "cryptovira.apps.strategy.tasks"
task_module signals = "cryptovira.apps.signals.tasks"
task_module backtesting = "cryptovira.apps.backtesting.tasks"

-- `task_default_queue`
abbrev pub default_queue : String
default_queue = "default"

-- `task_routes`
abbrev pub task_routes : List (String × String)
task_routes =
    ("cryptovira.apps.market.tasks", "market")
    ∷ ("cryptovira.apps.strategy.tasks", "strategy")
    ∷ ("cryptovira.apps.signals.tasks", "notifications")
    ∷ ("cryptovira.apps.brokers.tasks", "orders")
    ∷ ("cryptovira.apps.backtesting.tasks", "backtesting")
    ∷ []

-- the queue of the first route that matches
abbrev pub route : List (String × String) → String → String
route [] m = default_queue
route ((pattern, queue) ∷ routes) m =
    let rest = route routes m in if str_eq pattern m then queue else rest

unfoldable pub queue_of : App → String
queue_of app = route task_routes (task_module app)

-- the rest of `app.conf.update(...)`; the time limits are in seconds
pub record WorkerOptions : Type 0 where
  pub task_acks_late : Bool
  pub task_reject_on_worker_lost : Bool
  pub worker_prefetch_multiplier : ℕ
  pub task_time_limit : ℕ
  pub task_soft_time_limit : ℕ
  pub task_serializer : String
  pub result_serializer : String
  pub accept_content : List String
  pub result_extended : Bool

abbrev pub worker_options : WorkerOptions
worker_options = record {
  task_acks_late = true;
  task_reject_on_worker_lost = true;
  worker_prefetch_multiplier = 1;
  task_time_limit = 300;
  task_soft_time_limit = 270;
  task_serializer = "json";
  result_serializer = "json";
  accept_content = "json" ∷ [];
  result_extended = true;
}

-- Tasks of two applications never share a queue.
queue_of-Injective : (a b : App) → queue_of a ≡ queue_of b → a ≡ b
unfolding queue_of
queue_of-Injective market market h = refl
queue_of-Injective strategy strategy h = refl
queue_of-Injective signals signals h = refl
queue_of-Injective backtesting backtesting h = refl
queue_of-Injective market strategy h = cc h
queue_of-Injective a b h = cc h
