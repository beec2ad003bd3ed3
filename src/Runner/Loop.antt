-- ===== src/Runner/Loop.antt =====
-- `process_task_per_endpoint` of webserver/task_runner/runner.py: the loop that runs the tasks of one
-- endpoint, one round of its `while True` at a time.
pub mod Claim
pub mod Rounds
use auto_test_system.Prelude.{
  ℕ, zero, suc, ◌+◌, Bool, true, false, not, ◌&&◌, Option, none, some, List, [], ◌∷◌, ◌++◌, ◌==◌,
  if◌then◌else◌, contains, remove?,
}
use auto_test_system.Exec.{
  Exec, ok, raised, Exn, key_error, document_missing, pure, gets, or_raise, modify, when, raise_if,
  ◌>>=◌, ◌>>◌,
}
use auto_test_system.Mongo.Defs.{Mongo}
use auto_test_system.Documents.{
  Task, TaskQueue, TaskStatus, running, successful, failed, queue_priority,
}
use auto_test_system.World.{World}
use auto_test_system.Queue.{commit_queue, commit_task, set_task, pop}
use auto_test_system.Runner.Cancel.{counter, set_counter, drop_running, is_cancelled}

-- The search for the queue of a priority: a queue that is to be deleted ends it.
pub data Pick : Type 0 where
  exit_task unknown : Pick
  found : ℕ → Pick

-- How the body of the `for` over the priorities goes on: with the next priority, out of the loop, or
-- out of it after a run.
pub data Next : Type 0 where
  search_on start_over ran : Next

-- How a round ends: the queues are deleted, another round follows, or the loop is over.
pub data Round : Type 0 where
  aborted again finished : Round

module _ (m : Mongo) where
  -- `for taskqueue in taskqueues: await taskqueue.reload(); ...`
  unfoldable pub pick : ℕ → List ℕ → Exec (World m) Pick
  pick priority [] w = (ok unknown, w)
  pick priority (k ∷ ks) w = elim (m.get w.task_queues k) [
    | none ↦ (raised document_missing, w)
    | some q ↦ elim q.to_delete [
      | true ↦ (ok exit_task, w)
      | false ↦ elim (q.priority == priority) [
        | true ↦ (ok (found k), w)
        | false ↦ pick priority ks w
      ]
    ]
  ]

  abbrev pub inc_kickedoff : Task → Task
  inc_kickedoff t = record t { kickedoff = t.kickedoff + 1 }

  module _ (others : ℕ → World m → World m) where
    -- Whether this loop takes the popped task: nobody has taken it before, and nobody takes it between
    -- the test and the increment. `others 0` is what happens in between.
    unfoldable pub claim : ℕ → Exec (World m) Bool
    claim t w = elim (m.get w.tasks t) [
      | none ↦ (ok false, w)
      | some task ↦
          if not (task.kickedoff == 0) && not task.parallelization
          then (ok false, w)
          else (let w1 = set_task m t inc_kickedoff (others 0 w) in
              elim (m.get w1.tasks t) [
                | none ↦ (raised document_missing, w1)
                | some task' ↦
                    (ok (not (not (task'.kickedoff == 1) && not task'.parallelization)), w1)
              ])
    ]

    -- The robot process: its return code, and the state when its output has ended.
    module _ (robot : ℕ → World m → ℕ × World m) where
      abbrev pub begin : ℕ → ℕ → Exec (World m) (Unit {0})
      begin endpoint t = do
        modify (λ w. record w {
          robot_processes =
              if contains t w.robot_processes then w.robot_processes else t ∷ w.robot_processes;
        })
        commit_task m t (λ d. record d { status = running; endpoint_run = some endpoint })

      abbrev pub reap : ℕ → Exec (World m) (Unit {0})
      reap t = do
        ps ← gets (λ w. remove? t w.robot_processes)
        rest ← or_raise ps key_error
        modify (λ w. record w { robot_processes = rest })

      -- The status that the return code gives. Only after a failure is the stored status read again.
      unfoldable pub settle : ℕ → ℕ → Exec (World m) (Unit {0})
      settle t zero = commit_task m t (λ d. record d { status = successful })
      settle t (suc code) = λ w. elim (m.get w.tasks t) [
        | none ↦ (raised document_missing, w)
        | some d ↦
            if is_cancelled d.status
            then (ok tt, w)
            else commit_task m t (λ x. record x { status = failed }) w
      ]

      unfoldable pub run_task : ℕ → ℕ → ℕ → Exec (World m) (Unit {0})
      unfolding settle
      run_task endpoint queue t = do
        begin endpoint t
        code ← (λ w. let (c, w') = robot t w in (ok c, w'))
        reap t
        settle t code
        drop_running m queue
        modify (λ w. record w { task_per_endpoint = set_counter endpoint 1 w.task_per_endpoint })

      unfoldable pub take_task : ℕ → ℕ → ℕ → Exec (World m) Next
      unfolding claim run_task
      take_task endpoint queue t = do
        mine ← claim t
        if mine
            then (do run_task endpoint queue t; pure ran)
            else (do drop_running m queue; pure start_over)

      unfoldable pub on_pop : ℕ → ℕ → Option ℕ → Exec (World m) Next
      unfolding take_task
      on_pop endpoint queue none = pure search_on
      on_pop endpoint queue (some t) = take_task endpoint queue t

      unfoldable pub on_pick : ℕ → Pick → Exec (World m) Next
      unfolding on_pop
      on_pick endpoint exit_task = pure start_over
      on_pick endpoint unknown = pure search_on
      on_pick endpoint (found queue) = do t ← pop m others queue; on_pop endpoint queue t

      -- `for priority in QUEUE_PRIORITY`; `search_on` from its `else`
      unfoldable pub search_priorities : ℕ → List ℕ → List ℕ → Exec (World m) Next
      unfolding on_pick
      search_priorities endpoint queues [] = pure search_on
      search_priorities endpoint queues (p ∷ ps) = pick p queues >>= on_pick endpoint >>= λ next.
          elim next [
            | search_on ↦ search_priorities endpoint queues ps
            | start_over ↦ pure start_over
            | ran ↦ pure ran
          ]

      abbrev pub delete_queues : List ℕ → World m → World m
      delete_queues [] w = w
      delete_queues (k ∷ ks) w =
          delete_queues ks (record w { task_queues = m.delete w.task_queues k })

      unfoldable pub after_scan : ℕ → Next → Exec (World m) Round
      after_scan endpoint start_over = pure again
      after_scan endpoint ran = pure again
      after_scan endpoint search_on = do
        c ← gets (λ w. counter endpoint w.task_per_endpoint)
        n ← or_raise c key_error
        if n == 1 then pure finished else (do
          modify (λ w. record w { task_per_endpoint = set_counter endpoint 1 w.task_per_endpoint })
          pure again)

      unfoldable pub after_reload : ℕ → List ℕ → TaskQueue → Exec (World m) Round
      unfolding search_priorities after_scan
      after_reload endpoint queues first =
          if first.to_delete
          then (do
            modify (delete_queues queues)
            modify (λ w. record w { endpoints = m.delete w.endpoints endpoint })
            pure aborted)
          else search_priorities endpoint queues queue_priority >>= after_scan endpoint

      -- One round of `while True`, for the queues `first ∷ rest` of the endpoint.
      unfoldable pub round : ℕ → ℕ → List ℕ → Exec (World m) Round
      unfolding after_reload
      round endpoint first rest = do
        q ← gets (λ w. m.get w.task_queues first)
        taskqueue_first ← or_raise q document_missing
        after_reload endpoint (first ∷ rest) taskqueue_first
