-- ===== src/Runner/Start.antt =====
-- `event_handler_start_task` of webserver/task_runner/runner.py.
pub mod Wakeup
use auto_test_system.Prelude.{ℕ, ◌==◌, Option, none, some, List, [], ◌∷◌, if◌then◌else◌}
use auto_test_system.Mongo.Defs.{Mongo, find_one}
use auto_test_system.Documents.{Message}
use auto_test_system.World.{World}
use auto_test_system.Runner.Reset.{reset_task_queue_status}
use auto_test_system.Runner.Cancel.{counter, set_counter, endpoint_query}

module _ (m : Mongo) where
  -- `asyncio.create_task(process_task_per_endpoint(...))` and the counter of the new loop
  abbrev pub spawn : ℕ → World m → World m
  spawn endpoint w = record w {
    loops = endpoint ∷ w.loops;
    task_per_endpoint = set_counter endpoint 1 w.task_per_endpoint;
  }

  unfoldable pub schedule : ℕ → ℕ → Option ℕ → World m → World m
  schedule endpoint organization team w = elim (counter endpoint w.task_per_endpoint) [
    | none ↦ spawn endpoint (reset_task_queue_status m organization team w).1
    | some _ ↦ record w { task_per_endpoint = set_counter endpoint 2 w.task_per_endpoint }
  ]

  unfoldable pub event_handler_start_task : ℕ → ℕ → Option ℕ → World m → World m
  unfolding schedule
  event_handler_start_task uid organization team w =
      elim (find_one m (endpoint_query uid organization team) w.endpoints) [
        | none ↦ w
        | some (endpoint, _) ↦ schedule endpoint organization team w
      ]

  -- The done callback of the loop's task: `del TASK_PER_ENDPOINT[endpoint_id]`.
  abbrev pub del_counter : ℕ → List (ℕ × ℕ) → List (ℕ × ℕ)
  del_counter e [] = []
  del_counter e ((k, n) ∷ l) = let rest = del_counter e l in if e == k then rest else (k, n) ∷ rest

  unfoldable pub delete_task : ℕ → World m → World m
  delete_task endpoint w = record w { task_per_endpoint = del_counter endpoint w.task_per_endpoint }
