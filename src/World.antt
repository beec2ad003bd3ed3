-- ===== src/World.antt =====
-- The state that the web server and the task runner share: the collections, and the module-level
-- tables of webserver/task_runner/runner.py.
use auto_test_system.Prelude.{ℕ, List, String}
use auto_test_system.Mongo.Defs.{Mongo}
use auto_test_system.Documents.{
  Task, TaskQueue, Endpoint, Event, EventQueue, User, Organization, Team, Test, TestResult, Package,
  PackageFile, Documentation,
}

pub record World (m : Mongo) : Type 0 where
  pub blacklist : m.Collection String
  pub users : m.Collection User
  pub organizations : m.Collection Organization
  pub teams : m.Collection Team
  pub tests : m.Collection Test
  pub tasks : m.Collection Task
  pub test_results : m.Collection TestResult
  pub endpoints : m.Collection Endpoint
  pub task_queues : m.Collection TaskQueue
  pub events : m.Collection Event
  pub event_queues : m.Collection EventQueue
  pub packages : m.Collection Package
  pub package_files : m.Collection PackageFile
  pub documents : m.Collection Documentation
  -- `ROBOT_PROCESSES`: the tasks that have a running process
  pub robot_processes : List ℕ
  -- the processes that were sent a termination signal
  pub terminated : List ℕ
  -- `TASK_PER_ENDPOINT`: the idle counter of each endpoint whose loop is alive
  pub task_per_endpoint : List (ℕ × ℕ)
  -- the endpoints for which a task loop has been started, last first
  pub loops : List ℕ
