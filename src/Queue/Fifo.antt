-- ===== src/Queue/Fifo.antt =====
-- The methods of a queue against a first-in-first-out list: each at a lock that is free when it is
-- called, on the stored document, on the other queues and on the tasks.
use auto_test_system.Prelude.{
  ℕ, ◌≡◌, ◌≢◌, refl, Bool, true, false, Option, none, some, List, [], ◌∷◌, ◌++◌, arith, ◌==◌,
  present, ==_refl, if◌then◌else◌, contains, contains-append,
}
use auto_test_system.Exec.{ok, raised, runtime_error, document_missing}
use auto_test_system.Mongo.Defs.{Mongo, IsLawful, map_at}
use auto_test_system.Documents.{TaskQueue}
use auto_test_system.World.{World}
use auto_test_system.Queue.{
  commit_queue_ok, Handle, acquire_lock, try_lock, set_queue, take_first, pop, push, flush,
}
use auto_test_system.Queue.Lock.{acquire_lock_free}

-- The abstract queue: what a pop returns, and the document that it leaves.
abbrev pub front : List ℕ → Option ℕ
front [] = none
front (t ∷ ts) = some t

abbrev pub without_front : TaskQueue → List ℕ → TaskQueue
without_front q [] = record q { rw_lock = false }
without_front q (t ∷ ts) = record q { tasks = ts; running_task = some t; rw_lock = false }

module _ (m : Mongo) (L : IsLawful m) (others : ℕ → World m → World m) where
  abbrev pub locked : ℕ → World m → World m
  locked pk w = set_queue m pk (λ d. record d { rw_lock = true }) w

  abbrev pub unlocked : ℕ → World m → World m
  unlocked pk w = set_queue m pk (λ d. record d { rw_lock = false }) w

  pub get-locked :
      (pk : ℕ) (w : World m) {q : TaskQueue}
      → m.get w.task_queues pk ≡ some q
      → m.get (locked pk w).task_queues pk ≡ some (record q { rw_lock = true })
  get-locked pk w e = simp (L.get-update, ==_refl, e)

  -- What a critical section leaves: the document after lock, change and unlock.
  abbrev pub section : ℕ → (TaskQueue → TaskQueue) → World m → World m
  section pk f w = unlocked pk (set_queue m pk f (locked pk w))

  get-section :
      (pk j : ℕ) (f : TaskQueue → TaskQueue) (w : World m)
      → m.get (section pk f w).task_queues j ≡ (
          if pk == j
          then map_at
              (λ q. record (f (record q { rw_lock = true })) { rw_lock = false })
              (m.get w.task_queues j)
          else m.get w.task_queues j)
  get-section pk j f w = simp L.get-update (ground arith)

  push_run :
      (t : ℕ) (self : Handle TaskQueue) (w : World m) {q : TaskQueue}
      → m.get w.task_queues self.pk ≡ some q
      → q.rw_lock ≡ false
      → let ts = self.doc.tasks ++ (t ∷ []) in
        push m others t self w ≡ (
          ok (none, record self { doc = record self.doc { tasks = ts } }),
          section self.pk (λ d. record d { tasks = ts }) w,
        )
  unfolding push
  push_run t self w {q} e free = ground (
    arith,
    acquire_lock_free m others self.pk w e free,
    commit_queue_ok m self.pk (λ d. record d { tasks = self.doc.tasks ++ (t ∷ []) })
        (locked self.pk w) (get-locked self.pk w e),
  )

  pop_run :
      (pk : ℕ) (w : World m) {q : TaskQueue}
      → m.get w.task_queues pk ≡ some q
      → q.rw_lock ≡ false
      → pop m others pk w
        ≡ take_first m others pk (record q { rw_lock = true }) q.tasks (locked pk w)
  unfolding pop
  pop_run pk w {q} e free =
      ground (arith, acquire_lock_free m others pk w e free, get-locked pk w e)

  take_first_run :
      (pk t : ℕ) (ts : List ℕ) (w : World m) (q : TaskQueue) {d : TaskQueue}
      → m.get w.task_queues pk ≡ some d
      → present (m.get w.tasks t) ≡ true
      → take_first m others pk q (t ∷ ts) w ≡ (
        ok (some t),
        unlocked pk (set_queue m pk (λ d. record d { tasks = ts; running_task = some t }) w),
      )
  unfolding take_first
  take_first_run pk t ts w q e known =
      ground (
        arith,
        known,
        commit_queue_ok m pk (λ d. record d { tasks = ts; running_task = some t }) w e,
      )

  -- On a free lock `pop` returns the first task, which is to be stored, and stores it as the running
  -- one; no other queue and no task changes, and the lock is free again.
  pub pop_lem :
      (pk : ℕ) (w : World m) {q : TaskQueue}
      → m.get w.task_queues pk ≡ some q
      → q.rw_lock ≡ false
      → ((t : ℕ) → front q.tasks ≡ some t → present (m.get w.tasks t) ≡ true)
      → let (r, w') = pop m others pk w in
        (r ≡ ok (front q.tasks))
        × (m.get w'.task_queues pk ≡ some (without_front q q.tasks))
        × ((j : ℕ) → pk ≢ j → m.get w'.task_queues j ≡ m.get w.task_queues j)
        × (w'.tasks ≡ w.tasks)
  pop_lem pk w {q} e free known = rw (pop_run pk w e free) (by_tasks q.tasks known)
    where
      by_tasks :
          (ts : List ℕ)
          → ((t : ℕ) → front ts ≡ some t → present (m.get w.tasks t) ≡ true)
          → let (r, w') = take_first m others pk (record q { rw_lock = true }) ts (locked pk w) in
            (r ≡ ok (front ts))
            × (m.get w'.task_queues pk ≡ some (without_front q ts))
            × ((j : ℕ) → pk ≢ j → m.get w'.task_queues j ≡ m.get w.task_queues j)
            × (w'.tasks ≡ w.tasks)
      by_tasks [] h =
          unfold take_first in
          (refl, simp (L.get-update, ==_refl, e), λ j h. simp L.get-update (ground arith), refl)
      by_tasks (t ∷ ts) h =
          rw (take_first_run pk t ts (locked pk w) _ (get-locked pk w e) (h t refl))
            (refl, simp (L.get-update, ==_refl, e), λ j h. simp L.get-update (ground arith), refl)

  -- Where the first task of a queue is no longer stored, `pop` raises and leaves the lock taken, so that
  -- whoever tries it next, and does not wait, fails.
  pub pop_gone :
      (pk t : ℕ) (ts : List ℕ) (w : World m) {q : TaskQueue}
      → m.get w.task_queues pk ≡ some q
      → q.rw_lock ≡ false
      → q.tasks ≡ t ∷ ts
      → m.get w.tasks t ≡ none
      → let (r, w') = pop m others pk w in (r ≡ raised document_missing) × (try_lock m pk w' ≡ none)
  unfolding take_first try_lock
  pop_gone pk t ts w {q} e free first gone =
      rw (pop_run pk w e free, first)
        (ground (arith, gone), ground (arith, gone, get-locked pk w e))

  -- `push` on a free lock stores the tasks of the caller's copy with the new one behind them, returns
  -- nothing, and keeps the new task in the copy; no other queue and no task changes.
  pub push_lem :
      (t : ℕ) (self : Handle TaskQueue) (w : World m) {q : TaskQueue}
      → m.get w.task_queues self.pk ≡ some q
      → q.rw_lock ≡ false
      → let (r, w') = push m others t self w in
        let ts = self.doc.tasks ++ (t ∷ []) in
        (r ≡ ok (none, record self { doc = record self.doc { tasks = ts } }))
        × (m.get w'.task_queues self.pk ≡ some (record q { tasks = ts; rw_lock = false }))
        × ((j : ℕ) → self.pk ≢ j → m.get w'.task_queues j ≡ m.get w.task_queues j)
        × (w'.tasks ≡ w.tasks)
  push_lem t self w {q} e free =
      rw (push_run t self w e free)
        (refl, simp (L.get-update, ==_refl, e), λ j h. simp L.get-update (ground arith), refl)

  -- A push of another task, at a free lock and through a copy that lacks a task which is stored in the
  -- queue, removes that task from the queue.
  pub push_stale :
      (t lost : ℕ) (self : Handle TaskQueue) (w : World m) {q : TaskQueue}
      → m.get w.task_queues self.pk ≡ some q
      → q.rw_lock ≡ false
      → contains lost q.tasks ≡ true
      → contains lost self.doc.tasks ≡ false
      → lost ≢ t
      → (q' : TaskQueue) × (m.get (push m others t self w).1.task_queues self.pk ≡ some q')
        × (contains lost q'.tasks ≡ false)
  push_stale t lost self w {q} e free there gone other = (
    record q { tasks = self.doc.tasks ++ (t ∷ []); rw_lock = false },
    (push_lem t self w e free).1,
    rw contains-append (rw gone (ground arith)),
  )

  -- Where the lock is never free while it is tried, a pop returns nothing, and a push or a flush
  -- raises `RuntimeError`; none of them has written anything.
  pub contended :
      (pk t : ℕ) (cancelled : Bool) (self : Handle TaskQueue) (w : World m)
      → (acquire_lock m others pk w).0 ≡ false
      → (acquire_lock m others self.pk w).0 ≡ false
      → (pop m others pk w ≡ (ok none, (acquire_lock m others pk w).1))
        × (push m others t self w ≡ (raised runtime_error, (acquire_lock m others self.pk w).1))
        × (flush m others cancelled self w
            ≡ (raised runtime_error, (acquire_lock m others self.pk w).1))
  unfolding pop push flush
  contended pk t cancelled self w h k = (ground arith, ground arith, ground arith)

  pub flush_run :
      (self : Handle TaskQueue) (w : World m) {q : TaskQueue}
      → m.get w.task_queues self.pk ≡ some q
      → q.rw_lock ≡ false
      → flush m others false self w ≡ (
        ok (true, record self { doc = record self.doc { tasks = [] } }),
        section self.pk (λ d. record d { tasks = [] }) w,
      )
  unfolding flush
  flush_run self w {q} e free = ground (
    arith,
    acquire_lock_free m others self.pk w e free,
    commit_queue_ok m self.pk (λ d. record d { tasks = [] }) (locked self.pk w)
        (get-locked self.pk w e),
  )
