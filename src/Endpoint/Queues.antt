-- ===== src/Endpoint/Queues.antt =====
-- The queue handlers of webserver/app/main/controller/endpoint_controller.py.
-- The numbers in the texts of the refusals are left out.
use auto_test_system.Prelude.{
  ℕ, Bool, true, false, not, ◌||◌, ◌&&◌, Option, none, some, List, [], ◌∷◌, ◌++◌, String, ◌<>◌,
  ◌==◌, if◌then◌else◌, opt_eq, length,
}
use auto_test_system.Exec.{
  Exec, pure, gets, respond, or_respond, or_raise, stop_if, when, enoent, einval, eperm, eacces,
  key_error, ◌>>=◌, ◌>>◌,
}
use auto_test_system.Mongo.Defs.{Mongo, find, find_one}
use auto_test_system.Documents.{EndpointStatus, TaskQueue, Task, TaskStatus}
use auto_test_system.World.{World}
use auto_test_system.Queue.{Handle, commit_task, acquired, release_lock, flush, push}
use auto_test_system.Util.{nonempty}
use auto_test_system.Access.{Context, pk_of, by_id}
use auto_test_system.Organization.{fetch}
use auto_test_system.Runner.Cancel.{queue_query, is_waiting}
use auto_test_system.Endpoint.{by_uid}

-- One task of a listing; the flag says `Running` or `Waiting`.
pub record TaskEntry : Type 0 where
  pub endpoint : String
  pub priority : ℕ
  pub task : String
  pub task_id : ℕ
  pub running : Bool

pub record QueueEntry : Type 0 where
  pub endpoint : String
  pub priority : ℕ
  pub waiting : ℕ
  pub status : EndpointStatus
  pub endpoint_uid : ℕ
  pub tasks : List TaskEntry

-- A queue of the request, in which a field may be missing.
pub record TaskItem : Type 0 where
  pub task_id : Option String
  pub priority : Option ℕ

pub record QueueItem : Type 0 where
  pub endpoint_uid : Option String
  pub priority : Option ℕ
  pub tasks : Option (List TaskItem)

module _ (m : Mongo) (uuid : String → Option ℕ) where
  unfoldable pub waiting_entries : String → List ℕ → Exec (World m) (List TaskEntry)
  waiting_entries name [] = pure []
  waiting_entries name (t ∷ ts) = do
    task ← fetch m (λ w. w.tasks) t
    es ← waiting_entries name ts
    pure (
        record {
          endpoint = name;
          priority = task.doc.priority;
          task = task.doc.test_suite;
          task_id = task.pk;
          running = false;
        }
        ∷ es)

  unfoldable pub running_entry : String → TaskQueue → Exec (World m) (List TaskEntry)
  running_entry name q = elim q.running_task [
    | none ↦ pure []
    | some t ↦ (do
      task ← fetch m (λ w. w.tasks) t
      pure (
          record {
            endpoint = name;
            priority = q.priority;
            task = task.doc.test_suite;
            task_id = task.pk;
            running = true;
          }
          ∷ []))
  ]

  unfoldable pub queue_entries : List (ℕ × TaskQueue) → Exec (World m) (List QueueEntry)
  unfolding waiting_entries running_entry
  queue_entries [] = pure []
  queue_entries ((_, q) ∷ qs) = do
    endpoint ← fetch m (λ w. w.endpoints) q.endpoint
    r ← running_entry endpoint.doc.name q
    ws ← waiting_entries endpoint.doc.name q.tasks
    es ← queue_entries qs
    pure (
        record {
          endpoint = endpoint.doc.name;
          priority = q.priority;
          waiting = length q.tasks;
          status = endpoint.doc.status;
          endpoint_uid = endpoint.doc.uid;
          tasks = r ++ ws;
        }
        ∷ es)

  -- The endpoint that a listing is restricted to, if any
  unfoldable pub listed_endpoint : Option String → Exec (World m) (Option ℕ)
  listed_endpoint none = pure none
  listed_endpoint (some s) = do
    found ← by_uid m uuid s
    e ← or_respond found einval "endpoint not found"
    pure (some e.pk)

  unfoldable pub list_queues : Option String → Context → Exec (World m) (List QueueEntry)
  unfolding listed_endpoint queue_entries
  list_queues uid ctx = do
    only ← listed_endpoint (nonempty uid)
    qs ← gets (λ w.
        find m
          (λ q.
            opt_eq q.organization (some ctx.organization.pk)
            && opt_eq q.team (pk_of ctx.team)
            && elim only [ none ↦ true | some e ↦ q.endpoint == e ])
          w.task_queues)
    queue_entries qs

  unfoldable pub requested_tasks : ℕ → List TaskItem → Exec (World m) (List (Handle Task))
  requested_tasks priority [] = pure []
  requested_tasks priority (t ∷ ts) = do
    id ← or_respond t.task_id einval "Task lacks the field task_id"
    p ← or_raise t.priority key_error
    stop_if (not (p == priority)) einval "task's priority is not equal to taskqueue's"
    found ← by_id m (λ w. w.tasks) id
    task ← or_respond found enoent ("task not found for " <> id)
    rest ← requested_tasks priority ts
    pure (task ∷ rest)

  abbrev pub has_pk : ℕ → List (Handle Task) → Bool
  has_pk k [] = false
  has_pk k (t ∷ ts) = k == t.pk || has_pk k ts

  -- The tasks of the first list that are not among the second are cancelled.
  unfoldable pub cancel_missing : List ℕ → List (Handle Task) → Exec (World m) (Unit {0})
  cancel_missing [] kept = pure tt
  cancel_missing (t ∷ ts) kept = do
    when (not (has_pk t kept)) (commit_task m t (λ d. record d { status = TaskStatus.cancelled }))
    cancel_missing ts kept

  module _ (others : ℕ → World m → World m) where
    -- `if not await queue.push(task)`: an answer of `None` counts as a failure.
    unfoldable pub push_waiting : List (Handle Task) → Handle TaskQueue → Exec (World m) (Unit {0})
    push_waiting [] q = pure tt
    push_waiting (t ∷ ts) q =
        if is_waiting t.doc.status
        then (do
          (pushed, q') ← push m others t.pk q
          stop_if (not (elim pushed [ none ↦ false | some b ↦ b ])) eacces
              "failed to push the task to task queue"
          push_waiting ts q')
        else push_waiting ts q

    unfoldable pub update_queue : QueueItem → Context → Exec (World m) (Unit {0})
    unfolding requested_tasks cancel_missing push_waiting
    update_queue r ctx = do
      uid ←
          or_respond r.endpoint_uid einval
            "Task queue lacks the field endpoint_uid and field priority"
      p ← or_respond r.priority einval "Task queue lacks the field endpoint_uid and field priority"
      found ← by_uid m uuid uid
      e ← or_respond found einval ("endpoint not found for uid " <> uid)
      at ←
          gets (λ w.
            find_one m (queue_query ctx.organization.pk (pk_of ctx.team) e.pk p) w.task_queues)
      (k, d) ← or_respond at einval "Task queue querying failed"
      items ← or_raise r.tasks key_error
      tasks ← requested_tasks p items
      (flushed, q) ← flush m others false (record { pk = k; doc = d })
      stop_if (not flushed) eperm "task queue flushing failed"
      got ← acquired m others q.pk
      cancel_missing q.doc.tasks tasks
      release_lock m q.pk
      push_waiting tasks q

    -- The handler returns at the end of the first round of its loop.
    unfoldable pub update_queues : Option (List QueueItem) → Context → Exec (World m) (Unit {0})
    unfolding update_queue
    update_queues none ctx = respond einval "Field taskqueues is required"
    update_queues (some []) ctx = respond einval "Field taskqueues is required"
    update_queues (some (r ∷ rs)) ctx = update_queue r ctx
