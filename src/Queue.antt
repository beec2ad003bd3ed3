-- ===== src/Queue.antt =====
-- `TaskQueue` of webserver/app/main/model/database.py: the lock in the stored document, and the
-- methods that work on a local copy of the document between taking and releasing it.
pub mod Lock
pub mod Fifo
pub mod Order
pub mod Flush
pub mod Exclusion
use auto_test_system.Prelude.{
  ℕ, zero, suc, Bool, true, false, Option, none, some, List, [], ◌∷◌, ◌++◌, ◌≡◌, arith,
  if◌then◌else◌,
}
use auto_test_system.Exec.{
  Exec, ok, raised, runtime_error, attribute_error, document_missing, pure, gets, or_raise, modify,
  raise, raise_if, ◌>>=◌, ◌>>◌,
}
use auto_test_system.Mongo.Defs.{Mongo}
use auto_test_system.Documents.{TaskQueue, Task, TaskStatus, lock_timeout}
use auto_test_system.World.{World}

-- An umongo object: the `_id`, and the copy of the fields that the program works on.
pub record Handle (D : Type 0) : Type 0 where
  pub pk : ℕ
  pub doc : D

module _ (m : Mongo) where
  -- `collection.update`: what other requests and the server do meanwhile is not part of it.
  abbrev pub set_queue : ℕ → (TaskQueue → TaskQueue) → World m → World m
  set_queue pk f w = record w { task_queues = m.update w.task_queues pk f }

  abbrev pub set_task : ℕ → (Task → Task) → World m → World m
  set_task pk f w = record w { tasks = m.update w.tasks pk f }

  -- `commit` of the changed fields; it raises where the document is gone.
  unfoldable pub commit_queue : ℕ → (TaskQueue → TaskQueue) → Exec (World m) (Unit {0})
  commit_queue pk f w = elim (m.get w.task_queues pk) [
    | none ↦ (raised document_missing, w)
    | some d ↦ (ok tt, set_queue pk f w)
  ]

  unfoldable pub commit_task : ℕ → (Task → Task) → Exec (World m) (Unit {0})
  commit_task pk f w = elim (m.get w.tasks pk) [
    | none ↦ (raised document_missing, w)
    | some d ↦ (ok tt, set_task pk f w)
  ]

  pub commit_queue_ok :
      (pk : ℕ) (f : TaskQueue → TaskQueue) (w : World m) {d : TaskQueue}
      → m.get w.task_queues pk ≡ some d
      → commit_queue pk f w ≡ (ok tt, set_queue pk f w)
  unfolding commit_queue
  commit_queue_ok pk f w e = ground arith

  pub commit_task_ok :
      (pk : ℕ) (f : Task → Task) (w : World m) {d : Task}
      → m.get w.tasks pk ≡ some d
      → commit_task pk f w ≡ (ok tt, set_task pk f w)
  unfolding commit_task
  commit_task_ok pk f w e = ground arith

  -- `find_one_and_update({'_id': pk, 'rw_lock': False}, {'$set': {'rw_lock': True}})`
  unfoldable pub try_lock : ℕ → World m → Option (World m)
  try_lock pk w = elim (m.get w.task_queues pk) [
    | none ↦ none
    | some q ↦ if q.rw_lock then none else some (set_queue pk (λ d. record d { rw_lock = true }) w)
  ]

  unfoldable pub release_lock : ℕ → Exec (World m) (Unit {0})
  release_lock pk = modify (set_queue pk (λ d. record d { rw_lock = false }))

  module _ (others : ℕ → World m → World m) where
    -- The rounds left of `for i in range(LOCK_TIMEOUT)`. `others` is what the rest of the program
    -- does during the sleep of a round.
    unfoldable pub acquire_from : ℕ → ℕ → World m → Bool × World m
    acquire_from zero pk w = (false, w)
    acquire_from (suc n) pk w = elim (try_lock pk w) [
      | some w' ↦ (true, w')
      | none ↦ acquire_from n pk (others n w)
    ]

    unfoldable pub acquire_lock : ℕ → World m → Bool × World m
    unfolding acquire_from
    acquire_lock = acquire_from lock_timeout

    abbrev pub acquired : ℕ → Exec (World m) Bool
    acquired pk w = let (got, w') = acquire_lock pk w in (ok got, w')

    -- The tail of `pop` for a queue that holds a task.
    unfoldable pub take_first : ℕ → TaskQueue → List ℕ → Exec (World m) (Option ℕ)
    unfolding release_lock
    take_first pk q [] = do release_lock pk; pure none
    take_first pk q (t ∷ ts) = do
      found ← gets (λ w. m.get w.tasks t)
      task ← or_raise found document_missing
      commit_queue pk (λ d. record d { tasks = ts; running_task = some t })
      release_lock pk
      pure (some t)

    unfoldable pub pop : ℕ → Exec (World m) (Option ℕ)
    unfolding take_first
    pop pk = do
      got ← acquired pk
      if got
          then (do
            q ← gets (λ w. m.get w.task_queues pk)
            self ← or_raise q document_missing
            take_first pk self self.tasks)
          else pure none

    -- `push` returns nothing, so its value is Python's `None`; the copy keeps the new task.
    unfoldable pub push : ℕ → Handle TaskQueue → Exec (World m) (Option Bool × Handle TaskQueue)
    unfolding release_lock
    push task self = do
      got ← acquired self.pk
      raise_if (if got then false else true) runtime_error
      let tasks = self.doc.tasks ++ (task ∷ [])
      commit_queue self.pk (λ d. record d { tasks = tasks })
      release_lock self.pk
      pure (none, record self { doc = record self.doc { tasks = tasks } })

    -- `task.status = 'cancelled'; await task.commit()` for the references of the copy. They are not
    -- fetched, and a reference has no `commit`: the first one raises, and its task stays as it is stored.
    unfoldable pub cancel_all : List ℕ → Exec (World m) (Unit {0})
    cancel_all [] = pure tt
    cancel_all (t ∷ ts) = raise attribute_error

    unfoldable pub flush : Bool → Handle TaskQueue → Exec (World m) (Bool × Handle TaskQueue)
    unfolding release_lock
    flush cancelled self = do
      got ← acquired self.pk
      raise_if (if got then false else true) runtime_error
      (if cancelled then cancel_all self.doc.tasks else pure tt)
      commit_queue self.pk (λ d. record d { tasks = [] })
      release_lock self.pk
      pure (true, record self { doc = record self.doc { tasks = [] } })
