-- ===== src/Tests/Data.antt =====
-- A small installation: one organization with a team, an endpoint with its queues, a few tasks.
use auto_test_system.Prelude.{ℕ, Bool, true, false, none, some, List, [], ◌∷◌}
use auto_test_system.Mongo.Assoc.{assoc, assoc_with}
use auto_test_system.Documents.{Task, TaskQueue, TaskStatus, Endpoint, offline}
use auto_test_system.World.{World}
use auto_test_system.Queue.{Handle}

abbrev pub empty_world : (b : Bool) → World (assoc_with b)
empty_world b = record {
  blacklist = [];
  users = [];
  organizations = [];
  teams = [];
  tests = [];
  tasks = [];
  test_results = [];
  endpoints = [];
  task_queues = [];
  events = [];
  event_queues = [];
  packages = [];
  package_files = [];
  documents = [];
  robot_processes = [];
  terminated = [];
  task_per_endpoint = [];
  loops = [];
}

-- Nobody else does anything.
abbrev pub quiet : ℕ → World assoc → World assoc
quiet n w = w

abbrev pub task : TaskStatus → Task
task s = record {
  test = some 1;
  test_suite = "demo";
  status = s;
  kickedoff = 0;
  endpoint_list = 7 ∷ [];
  parallelization = false;
  endpoint_run = some 5;
  test_results = [];
  priority = 2;
  organization = some 1;
  team = none;
}

abbrev pub queue_of : List ℕ → TaskQueue
queue_of ts = record {
  priority = 2;
  tasks = ts;
  endpoint = 5;
  running_task = none;
  rw_lock = false;
  organization = some 1;
  team = none;
  to_delete = false;
}

abbrev pub endpoint : Endpoint
endpoint = record {
  uid = 7;
  name = "site";
  status = offline;
  enable = true;
  tests = [];
  organization = some 1;
  team = none;
}

-- Queue 3 of endpoint 5 holds the tasks 11 and 12.
abbrev pub busy_queue : TaskQueue
busy_queue = queue_of (11 ∷ 12 ∷ [])

abbrev pub site : World assoc
site = record (empty_world true) {
  tasks = (11, task TaskStatus.waiting) ∷ (12, task TaskStatus.waiting) ∷ [];
  endpoints = (5, endpoint) ∷ [];
  task_queues = (3, busy_queue) ∷ [];
}

abbrev pub fresh_copy : Handle TaskQueue
fresh_copy = record { pk = 3; doc = busy_queue }

-- A copy that was read before the tasks were pushed.
abbrev pub stale_copy : Handle TaskQueue
stale_copy = record { pk = 3; doc = queue_of [] }
