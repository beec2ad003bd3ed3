-- ===== src/Runner/Cancel.antt =====
-- `event_handler_cancel_task` of webserver/task_runner/runner.py.
pub mod Outcome
use auto_test_system.Prelude.{
  ℕ, zero, suc, Bool, true, false, not, ◌&&◌, Option, none, some, List, [], ◌∷◌, ◌==◌,
  if◌then◌else◌, opt_eq, contains, remove?, present,
}
use auto_test_system.Exec.{
  Exec, ok, raised, Exn, value_error, document_missing, pure, gets, or_raise, modify, when, ◌>>=◌,
  ◌>>◌,
}
use auto_test_system.Mongo.Defs.{Mongo, find_one}
use auto_test_system.Documents.{
  Task, TaskQueue, TaskStatus, waiting, running, successful, failed, Endpoint, Message,
}
use auto_test_system.World.{World}
use auto_test_system.Queue.{Handle, commit_queue, commit_task, set_queue, set_task}

abbrev pub is_waiting : TaskStatus → Bool
is_waiting waiting = true
is_waiting _ = false

abbrev pub is_running : TaskStatus → Bool
is_running running = true
is_running _ = false

abbrev pub is_cancelled : TaskStatus → Bool
is_cancelled TaskStatus.cancelled = true
is_cancelled _ = false

-- `endpoint_id in TASK_PER_ENDPOINT`, and the idle counter.
abbrev pub counter : ℕ → List (ℕ × ℕ) → Option ℕ
counter e [] = none
counter e ((k, n) ∷ l) = if e == k then some n else counter e l

abbrev pub set_counter : ℕ → ℕ → List (ℕ × ℕ) → List (ℕ × ℕ)
set_counter e n [] = (e, n) ∷ []
set_counter e n ((k, v) ∷ l) = if e == k then (e, n) ∷ l else (k, v) ∷ set_counter e n l

-- The queries of the handlers.
abbrev pub endpoint_query : ℕ → ℕ → Option ℕ → Endpoint → Bool
endpoint_query uid organization team e =
    e.uid == uid && opt_eq e.organization (some organization) && opt_eq e.team team

abbrev pub queue_query : ℕ → Option ℕ → ℕ → ℕ → TaskQueue → Bool
queue_query organization team endpoint priority q =
    opt_eq q.organization (some organization)
    && opt_eq q.team team
    && q.endpoint == endpoint
    && q.priority == priority

abbrev pub queued_query : ℕ → Option ℕ → ℕ → ℕ → TaskQueue → Bool
queued_query organization team priority task q =
    opt_eq q.organization (some organization)
    && opt_eq q.team team
    && q.priority == priority
    && contains task q.tasks

module _ (m : Mongo) where
  abbrev pub drop_running : ℕ → Exec (World m) (Unit {0})
  drop_running pk = commit_queue m pk (λ q. record q { running_task = none })

  abbrev pub mark_cancelled : ℕ → Exec (World m) (Unit {0})
  mark_cancelled task = commit_task m task (λ t. record t { status = TaskStatus.cancelled })

  -- `taskqueue.tasks.remove(task)` on the copy, and the commit of the list.
  unfoldable pub unqueue : ℕ → Handle TaskQueue → Exec (World m) (Unit {0})
  unqueue task q = do
    ts ← or_raise (remove? task q.doc.tasks) value_error
    commit_queue m q.pk (λ d. record d { tasks = ts })

  module _ (others : ℕ → World m → World m) where
    -- `for i in range(20)`: true where the task is seen running, false from the loop's `else`.
    unfoldable pub wait_running : ℕ → ℕ → Exec (World m) Bool
    wait_running zero task w = (ok false, w)
    wait_running (suc n) task w = elim (m.get w.tasks task) [
      | none ↦ (raised document_missing, w)
      | some t ↦ elim (is_running t.status) [
        | true ↦ (ok true, w)
        | false ↦ wait_running n task (others n w)
      ]
    ]

    -- `if task.status == 'running'` at the end of the handler
    unfoldable pub cancel_running : ℕ → ℕ → ℕ → Exec (World m) (Unit {0})
    cancel_running endpoint queue task w =
        if present (counter endpoint w.task_per_endpoint) && contains task w.robot_processes
        then (do
          drop_running queue
          mark_cancelled task
          modify (λ v. record v { terminated = task ∷ v.terminated }))
            w
        else (do drop_running queue; mark_cancelled task) w

    -- `if task.status == 'waiting'`: false where the handler has returned, or the task was not seen
    -- running.
    unfoldable pub cancel_waiting : ℕ → Handle TaskQueue → ℕ → Exec (World m) Bool
    unfolding unqueue
    cancel_waiting endpoint q task w =
        let mine = opt_eq q.doc.running_task (some task) in
        if mine && present (counter endpoint w.task_per_endpoint)
        then (do
          seen ← wait_running 20 task
          if seen then pure true else (do drop_running q.pk; mark_cancelled task; pure false))
            w
        else (do when mine (drop_running q.pk); unqueue task q; mark_cancelled task; pure false) w

    unfoldable pub cancel_found : ℕ → Handle TaskQueue → ℕ → TaskStatus → Exec (World m) (Unit {0})
    unfolding cancel_waiting cancel_running
    cancel_found endpoint q task waiting = do
      seen ← cancel_waiting endpoint q task
      when seen (cancel_running endpoint q.pk task)
    cancel_found endpoint q task running = cancel_running endpoint q.pk task
    cancel_found endpoint q task _ = pure tt

    -- The queries for the endpoint's queue; `None` of either ends the handler.
    unfoldable pub cancel_at : ℕ → Message → ℕ → Option ℕ → TaskStatus → Exec (World m) (Unit {0})
    unfolding cancel_found
    cancel_at uid msg organization team status w =
        elim (find_one m (endpoint_query uid organization team) w.endpoints) [
          | none ↦ (ok tt, w)
          | some (endpoint, _) ↦
              elim (find_one m (queue_query organization team endpoint msg.priority)
                w.task_queues) [
                  | none ↦ (ok tt, w)
                  | some (pk, q) ↦
                      cancel_found endpoint (record { pk = pk; doc = q }) msg.task_id status w
                ]
        ]

    unfoldable pub cancel_queued : Message → ℕ → Option ℕ → Exec (World m) (Unit {0})
    unfolding unqueue
    cancel_queued msg organization team w =
        elim (find_one m (queued_query organization team msg.priority msg.task_id) w.task_queues) [
          | none ↦ (ok tt, w)
          | some (pk, q) ↦
              (do unqueue msg.task_id (record { pk = pk; doc = q }); mark_cancelled msg.task_id) w
        ]

    unfoldable pub event_handler_cancel_task : Message → ℕ → Option ℕ → Exec (World m) (Unit {0})
    unfolding cancel_at cancel_queued
    event_handler_cancel_task msg organization team w = elim (m.get w.tasks msg.task_id) [
      | none ↦ (ok tt, w)
      | some task ↦ elim msg.endpoint_uid [
        | none ↦ cancel_queued msg organization team w
        | some uid ↦ cancel_at uid msg organization team task.status w
      ]
    ]
