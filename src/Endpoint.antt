-- ===== src/Endpoint.antt =====
-- The handlers of webserver/app/main/controller/endpoint_controller.py that change state. The queue
-- handlers and the endpoint's connection are in children. `uuid.UUID` is a parameter.
pub mod Queues
pub mod Forbidden
pub mod Connection
use auto_test_system.Prelude.{
  ℕ, zero, suc, ◌<>◌, Bool, true, false, not, ◌||◌, ◌&&◌, Option, none, some, List, [], ◌∷◌, ◌++◌,
  String, str_eq, ◌==◌, contains, is_empty, if◌then◌else◌, opt_eq, present,
}
use auto_test_system.Exec.{
  Exec, Result, ok, stop, raised, pure, gets, raise, respond, or_respond, or_raise, stop_if, modify,
  when, enoent, einval, eperm, invalid_id, ◌>>=◌, ◌>>◌,
}
use auto_test_system.Mongo.Defs.{Mongo, find, find_one}
use auto_test_system.Documents.{
  Endpoint, EndpointStatus, offline, forbidden, TaskQueue, Task, Test, Message, queue_priority,
  event_code_start_task, event_code_cancel_task,
}
use auto_test_system.World.{World}
use auto_test_system.Queue.{Handle, commit_queue, flush}
use auto_test_system.EventQueue.{push_event}
use auto_test_system.Util.{Value, js2python_bool, nonempty}
use auto_test_system.Access.{Context, pk_of}
use auto_test_system.Store.{commit_endpoint}
use auto_test_system.Organization.{fetch}

-- The message of a start event, which has no priority.
abbrev pub start_message : ℕ → ℕ → Bool → Message
start_message uid task to_delete = record {
  endpoint_uid = some uid;
  priority = 0;
  task_id = task;
  to_delete = to_delete;
}

abbrev pub cancel_message : Option ℕ → ℕ → ℕ → Message
cancel_message uid priority task = record {
  endpoint_uid = uid;
  priority = priority;
  task_id = task;
  to_delete = false;
}

-- `{'endpoint': endpoint.pk, 'organization': organization.pk, 'team': team.pk if team else None}`
abbrev pub endpoint_queues : ℕ → Context → TaskQueue → Bool
endpoint_queues endpoint ctx q =
    q.endpoint == endpoint
    && opt_eq q.organization (some ctx.organization.pk)
    && opt_eq q.team (pk_of ctx.team)

-- `to_list(n)`
abbrev pub take : {A : Type 0} → ℕ → List A → List A
take _ [] = []
take zero (x ∷ xs) = []
take (suc n) (x ∷ xs) = x ∷ take n xs

module _ (m : Mongo) (uuid : String → Option ℕ) where
  -- `Endpoint.find_one({'uid': uuid.UUID(text)})`
  abbrev pub by_uid : String → Exec (World m) (Option (Handle Endpoint))
  by_uid s w = elim (uuid s) [
    | none ↦ (raised invalid_id, w)
    | some u ↦ elim (find_one m (λ e. e.uid == u) w.endpoints) [
      | none ↦ (ok none, w)
      | some (k, d) ↦ (ok (some (record { pk = k; doc = d })), w)
    ]
  ]

  -- A queue for each priority, highest first
  unfoldable pub create_queues : ℕ → Context → List ℕ → Exec (World m) (Unit {0})
  create_queues endpoint ctx [] = pure tt
  create_queues endpoint ctx (p ∷ ps) = do
    modify (λ w. record w {
      task_queues = m.insert w.task_queues (m.new_id w.task_queues) (record {
        priority = p;
        tasks = [];
        endpoint = endpoint;
        running_task = none;
        rw_lock = false;
        organization = some ctx.organization.pk;
        team = pk_of ctx.team;
        to_delete = false;
      });
    })
    create_queues endpoint ctx ps

  unfoldable pub refresh_queues : ℕ → List (ℕ × TaskQueue) → Exec (World m) (Unit {0})
  refresh_queues endpoint [] = pure tt
  refresh_queues endpoint ((k, _) ∷ qs) = do
    commit_queue m k (λ q. record q { endpoint = endpoint })
    refresh_queues endpoint qs

  unfoldable pub ensure_queues : ℕ → Context → Exec (World m) (Unit {0})
  unfolding create_queues refresh_queues
  ensure_queues endpoint ctx = do
    qs ← gets (λ w. find m (endpoint_queues endpoint ctx) w.task_queues)
    if is_empty qs then create_queues endpoint ctx queue_priority else refresh_queues endpoint qs

  unfoldable pub new_endpoint : ℕ → String → EndpointStatus → Context → Exec (World m) ℕ
  new_endpoint uid name status ctx = do
    k ← gets (λ w. m.new_id w.endpoints)
    modify (λ w. record w {
      endpoints = m.insert w.endpoints k (record {
        uid = uid;
        name = name;
        status = status;
        enable = true;
        tests = [];
        organization = some ctx.organization.pk;
        team = pk_of ctx.team;
      });
    })
    pure k

  -- `name` is the random one of a new site.
  unfoldable pub authorize : Option String → String → Context → Exec (World m) (Unit {0})
  unfolding new_endpoint ensure_queues
  authorize endpoint_uid name ctx = do
    s ← or_respond endpoint_uid einval "Field endpoint_uid is required"
    u ← or_raise (uuid s) invalid_id
    found ← by_uid s
    k ← elim found [
      | none ↦ new_endpoint u name offline ctx
      | some e ↦ (do
        commit_endpoint m e.pk (λ d. record d { name = name; status = offline })
        pure e.pk)
    ]
    ensure_queues k ctx

  unfoldable pub forbid : Option String → Context → Exec (World m) (Unit {0})
  unfolding new_endpoint
  forbid endpoint_uid ctx = do
    s ← or_respond endpoint_uid einval "Field endpoint_uid is required"
    u ← or_raise (uuid s) invalid_id
    found ← by_uid s
    elim found [
      | none ↦ new_endpoint u "" forbidden ctx >> pure tt
      | some e ↦ commit_endpoint m e.pk (λ d. record d { status = forbidden })
    ]

  -- The tests of an endpoint, given by the names of their suites
  unfoldable pub tests_of : Context → List String → Exec (World m) (List ℕ)
  tests_of ctx [] = pure []
  tests_of ctx (t ∷ ts) = do
    found ← gets (λ w.
        find_one m
          (λ d.
            str_eq d.test_suite t
            && opt_eq d.organization (some ctx.organization.pk)
            && opt_eq d.team (pk_of ctx.team))
          w.tests)
    test ← or_respond found enoent ("Test suite " <> t <> " not found")
    rest ← tests_of ctx ts
    pure (test.0 ∷ rest)

  -- `tests` is `none` where it is not a list; a missing name is `test site #1`.
  pub record EndpointUpdate : Type 0 where
    pub tests : Option (List String)
    pub uid : Option String
    pub endpoint_name : Option String
    pub enable : Value

  abbrev pub or_default : String → Option String → String
  or_default s none = s
  or_default s (some t) = t

  unfoldable pub update_endpoint : EndpointUpdate → Context → Exec (World m) (Unit {0})
  unfolding tests_of ensure_queues
  update_endpoint r ctx = do
    suites ← or_respond r.tests einval "Tests is not a list"
    s ← or_respond (nonempty r.uid) einval "Endpoint uid is invalid"
    tests ← tests_of ctx suites
    found ← by_uid s
    e ← or_respond found enoent "Endpoint not found"
    ensure_queues e.pk ctx
    commit_endpoint m e.pk (λ d. record d {
      name = or_default "test site #1" r.endpoint_name;
      enable = js2python_bool r.enable;
      tests = tests;
    })

  unfoldable pub mark_to_delete : List (ℕ × TaskQueue) → Exec (World m) (Unit {0})
  mark_to_delete [] = pure tt
  mark_to_delete ((k, _) ∷ qs) = do
    commit_queue m k (λ q. record q { to_delete = true })
    mark_to_delete qs

  module _ (others : ℕ → World m → World m) where
    -- The result of `gather`: an exception of one flush does not keep the other flushes from running.
    abbrev pub gather : {A B : Type 0} → Result A → Result B → Result B
    gather (ok a) r = r
    gather (stop c t) r = stop c t
    gather (raised x) r = raised x

    unfoldable pub flush_each : List (ℕ × TaskQueue) → Exec (World m) (Unit {0})
    flush_each [] w = (ok tt, w)
    flush_each ((k, d) ∷ qs) w =
        let (r, w') = flush m others true (record { pk = k; doc = d }) w in
        let (rs, w'') = flush_each qs w' in (gather r rs, w'')

    -- A cancel event for each running task
    unfoldable pub cancel_each : ℕ → Context → List (ℕ × TaskQueue) → Exec (World m) (Unit {0})
    cancel_each uid ctx [] = pure tt
    cancel_each uid ctx ((_, q) ∷ qs) = elim q.running_task [
      | none ↦ cancel_each uid ctx qs
      | some t ↦ (do
        task ← fetch m (λ w. w.tasks) t
        done ←
            push_event m others ctx.organization.pk (pk_of ctx.team) event_code_cancel_task
              (cancel_message (some uid) q.priority task.pk)
        stop_if (not done) eperm "Pushing the event to event queue failed"
        cancel_each uid ctx qs)
    ]

    unfoldable pub delete_endpoint : Option String → Context → Exec (World m) (Unit {0})
    unfolding mark_to_delete flush_each cancel_each
    delete_endpoint endpoint_uid ctx = do
      s ← or_respond endpoint_uid einval "Field endpoint_uid is required"
      u ← or_raise (uuid s) invalid_id
      found ← by_uid s
      e ← or_respond found einval "Endpoint not found"
      all ← gets (λ w. find m (endpoint_queues e.pk ctx) w.task_queues)
      if is_empty all then modify (λ w. record w { endpoints = m.delete w.endpoints e.pk }) else (do
        let qs = take 3 all
        mark_to_delete qs
        flush_each qs
        cancel_each u ctx qs
        done ←
            push_event m others ctx.organization.pk (pk_of ctx.team) event_code_start_task
              (start_message u 0 true)
        stop_if (not done) eperm "Pushing the event to event queue failed")
