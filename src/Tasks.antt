-- ===== src/Tasks.antt =====
-- The task handlers of webserver/app/main/controller/task_controller.py: a test suite is run on a list
-- of endpoints, and a task is cancelled.
pub mod Schedule
pub mod Statistics
use auto_test_system.Prelude.{
  ℕ, Bool, true, false, not, ◌||◌, ◌&&◌, Option, none, some, List, [], ◌∷◌, ◌++◌, String, str_eq,
  ◌==◌, ltb, contains, is_empty, if◌then◌else◌, opt_eq, length,
}
use auto_test_system.Exec.{
  Exec, Result, ok, stop, raised, runtime_error, pure, gets, raise, respond, or_respond, or_raise,
  stop_if, modify, when, enoent, einval, eperm, erange, unknown_error, attribute_error,
  document_missing, ◌>>=◌, ◌>>◌,
}
use auto_test_system.Mongo.Defs.{Mongo, find, find_one}
use auto_test_system.Documents.{
  Task, TaskStatus, TaskQueue, Test, event_code_start_task, event_code_cancel_task,
  queue_priority_min, queue_priority_default, queue_priority_max,
}
use auto_test_system.World.{World}
use auto_test_system.Queue.{Handle, push, commit_task}
use auto_test_system.EventQueue.{push_event}
use auto_test_system.Util.{Value, js2python_bool}
use auto_test_system.Access.{Context, pk_of}
use auto_test_system.Organization.{fetch_if, fetch, deref}
use auto_test_system.Runner.Cancel.{queue_query}
use auto_test_system.Endpoint.{by_uid, start_message, cancel_message}

-- What a request for a run holds. The inner `none` of `endpoint_list` is a value that is no list; a
-- negative priority, as far out of range as 0, is given as 0.
pub record RunRequest : Type 0 where
  pub test_suite : Option String
  pub path : Option String
  pub endpoint_list : Option (Option (List String))
  pub priority : Option ℕ
  pub parallelization : Value
  pub variables_is_dict : Bool
  pub test_cases_is_list : Bool

-- The three lists of task ids that the answer is made of
pub record Outcome : Type 0 where
  pub failed : List ℕ
  pub succeeded : List ℕ
  pub running : List ℕ

abbrev pub add_failed : ℕ → Outcome → Outcome
add_failed k o = record o { failed = o.failed ++ (k ∷ []) }

abbrev pub add_succeeded : ℕ → Outcome → Outcome
add_succeeded k o = record o { succeeded = o.succeeded ++ (k ∷ []) }

abbrev pub add_running : Bool → ℕ → Outcome → Outcome
add_running b k o = if b then record o { running = o.running ++ (k ∷ []) } else o

-- `not taskqueue.running_task and len(taskqueue.tasks) == 0`
abbrev pub is_idle : TaskQueue → Bool
is_idle q = opt_eq q.running_task none && is_empty q.tasks

abbrev pub both : List ℕ → List ℕ → List ℕ
both [] ys = []
both (x ∷ xs) ys = let rest = both xs ys in if contains x ys then x ∷ rest else rest

module _ (m : Mongo) (uuid : String → Option ℕ) (others : ℕ → World m → World m) where
  -- `Endpoint.find_one({'uid': ...})` and `TaskQueue.find_one(...)` for one of the task's endpoints
  unfoldable pub queue_for : ℕ → ℕ → Context → World m → Option (Handle TaskQueue)
  queue_for uid priority ctx w = elim (find_one m (λ e. e.uid == uid) w.endpoints) [
    | none ↦ none
    | some (e, _) ↦
        elim (find_one m (queue_query ctx.organization.pk (pk_of ctx.team) e priority)
          w.task_queues) [ none ↦ none | some (k, q) ↦ some (record { pk = k; doc = q }) ]
  ]

  -- `try: await taskqueue.push(task)`, with `except RuntimeError`: whether it was pushed
  unfoldable pub try_push : ℕ → Handle TaskQueue → Exec (World m) Bool
  try_push task q w =
      let (r, w') = push m others task q w in
      elim r [
        | ok _ ↦ (ok true, w')
        | stop c t ↦ (stop c t, w')
        | raised runtime_error ↦ (ok false, w')
        | raised x ↦ (raised x, w')
      ]

  -- The round of the loop for an endpoint of a task that is not parallel
  unfoldable pub schedule_single : ℕ → Task → Context → Outcome → ℕ → Exec (World m) Outcome
  unfolding try_push queue_for
  schedule_single task doc ctx o uid = do
    found ← gets (queue_for uid doc.priority ctx)
    elim found [
      | none ↦ pure (add_failed task o)
      | some q ↦ (do
        pushed ← try_push task q
        let o' = add_running (is_idle q.doc) task o
        if pushed
            then (do
              done ←
                  push_event m others ctx.organization.pk (pk_of ctx.team) event_code_start_task
                    (start_message uid task false)
              stop_if (not done) eperm "Pushing the event to event queue failed"
              pure (add_succeeded task o'))
            else pure (add_failed task o'))
    ]

  -- The round for an endpoint of a parallel task, which gets a copy of it. The value that `push`
  -- returns is taken for its success.
  unfoldable pub schedule_parallel : Task → Context → Outcome → ℕ → Exec (World m) Outcome
  unfolding queue_for
  schedule_parallel doc ctx o uid = do
    task ← gets (λ w. m.new_id w.tasks)
    modify (λ w. record w { tasks = m.insert w.tasks task doc })
    found ← gets (queue_for uid doc.priority ctx)
    elim found [
      | none ↦ pure (add_failed task o)
      | some q ↦ (do
        let o' = add_running (is_idle q.doc) task o
        (pushed, _) ← push m others task q
        elim pushed [
          | none ↦ pure (add_failed task o')
          | some _ ↦ (do
            k ← or_raise doc.test attribute_error
            test ← fetch m (λ w. w.tests) k
            organization ← or_raise test.doc.organization attribute_error
            done ←
                push_event m others organization test.doc.team event_code_start_task
                  (start_message uid task false)
            stop_if (not done) eperm "Pushing the event to event queue failed"
            pure (add_succeeded task o'))
        ])
    ]

  -- The flag is `task.parallelization`.
  unfoldable pub schedule_by : Bool → ℕ → Task → Context → Outcome → ℕ → Exec (World m) Outcome
  unfolding schedule_single schedule_parallel
  schedule_by true task doc ctx o uid = schedule_parallel doc ctx o uid
  schedule_by false task doc ctx o uid = schedule_single task doc ctx o uid

  unfoldable pub schedule_each : ℕ → Task → Context → List ℕ → Outcome → Exec (World m) Outcome
  unfolding schedule_by
  schedule_each task doc ctx [] o = pure o
  schedule_each task doc ctx (uid ∷ uids) o = do
    o' ← schedule_by doc.parallelization task doc ctx o uid
    schedule_each task doc ctx uids o'

  -- The endpoints of the request, each of which has to be known
  unfoldable pub known_endpoints : List String → Exec (World m) (List ℕ)
  known_endpoints [] = pure []
  known_endpoints (s ∷ ss) = do
    found ← by_uid m uuid s
    e ← or_respond found einval "One of the uid in the endpoint list is invalid"
    rest ← known_endpoints ss
    pure (e.doc.uid ∷ rest)

  abbrev pub test_query : String → String → Context → Test → Bool
  test_query suite path ctx t =
      str_eq t.test_suite suite
      && str_eq t.path path
      && opt_eq t.organization (some ctx.organization.pk)
      && opt_eq t.team (pk_of ctx.team)

  abbrev pub priority_of : Option ℕ → ℕ
  priority_of none = queue_priority_default
  priority_of (some p) = p

  -- The rest of the checks, and the new task with its endpoints
  unfoldable pub task_for :
      RunRequest → Context → String × ℕ → List ℕ → Exec (World m) (Task × List ℕ)
  task_for r ctx (suite, test) uids = do
    let priority = priority_of r.priority
    stop_if (ltb priority queue_priority_min || ltb queue_priority_max priority) erange
        "Task priority is out of range"
    stop_if (not r.variables_is_dict) einval "Variables should be a dictionary"
    stop_if (not r.test_cases_is_list) einval "Testcases should be a list"
    pure (
      record {
        test = some test;
        test_suite = suite;
        status = TaskStatus.waiting;
        kickedoff = 0;
        endpoint_list = uids;
        parallelization = js2python_bool r.parallelization;
        endpoint_run = none;
        test_results = [];
        priority = priority;
        organization = some ctx.organization.pk;
        team = pk_of ctx.team;
      },
      uids,
    )

  -- The name of the suite and its only test
  unfoldable pub requested_test : RunRequest → Context → Exec (World m) (String × ℕ)
  requested_test r ctx = do
    suite ← or_respond r.test_suite einval "Field test_suite is required"
    path ← or_respond r.path einval "Field path is required"
    tests ← gets (λ w. find m (test_query suite path ctx) w.tests)
    test ←
        or_respond (elim tests [ [] ↦ none | t ∷ _ ↦ some t ]) enoent
          "The requested test suite is not found"
    stop_if (not (length tests == 1)) einval "Found duplicate test suites"
    pure (suite, test.0)

  unfoldable pub requested_endpoints : RunRequest → Exec (World m) (List String)
  requested_endpoints r = do
    given ← or_respond r.endpoint_list einval "Endpoint list is not included in the request"
    texts ← or_respond given einval "Endpoint list is not a list"
    stop_if (is_empty texts) einval "Endpoint list is empty"
    pure texts

  -- The checks of a request, and the task that it asks for with its endpoints
  unfoldable pub requested_task : RunRequest → Context → Exec (World m) (Task × List ℕ)
  unfolding requested_test requested_endpoints known_endpoints task_for
  requested_task r ctx = do
    test ← requested_test r ctx
    texts ← requested_endpoints r
    uids ← known_endpoints texts
    task_for r ctx test uids

  -- `else: if task.parallelization: task.delete()` makes a coroutine that nobody awaits: nothing is
  -- deleted.
  unfoldable pub run_scheduled : Context → Task × List ℕ → ℕ → Exec (World m) Outcome
  unfolding schedule_each
  run_scheduled ctx (doc, uids) task = do
    o ← schedule_each task doc ctx uids (record { failed = []; succeeded = []; running = [] })
    stop_if (not (is_empty o.failed)) unknown_error "Task scheduling failed"
    pure (record o { running = both o.running o.succeeded })

  unfoldable pub run_requested : Context → Task × List ℕ → Exec (World m) Outcome
  unfolding run_scheduled
  run_requested ctx (doc, uids) = do
    task ← gets (λ w. m.new_id w.tasks)
    modify (λ w. record w { tasks = m.insert w.tasks task doc })
    run_scheduled ctx (doc, uids) task

  unfoldable pub post_task : RunRequest → Context → Exec (World m) Outcome
  unfolding requested_task run_requested
  post_task r ctx = do wanted ← requested_task r ctx; run_requested ctx wanted

  unfoldable pub delete_task_request : Option ℕ → Handle Task → Exec (World m) (Unit {0})
  delete_task_request priority task = do
    p ← or_respond priority einval "Field priority is required"
    endpoint ← fetch_if m (λ w. w.endpoints) task.doc.endpoint_run
    k ← or_raise task.doc.test attribute_error
    test ← fetch m (λ w. w.tests) k
    o ← or_raise test.doc.organization attribute_error
    organization ← fetch m (λ w. w.organizations) o
    team ← fetch_if m (λ w. w.teams) test.doc.team
    done ←
        push_event m others organization.pk (pk_of team) event_code_cancel_task
          (cancel_message (elim endpoint [ none ↦ none | some e ↦ some e.doc.uid ]) p task.pk)
    stop_if (not done) eperm "Pushing the event to event queue failed"
