-- ===== src/Queue/Flush.antt =====
-- Flushing a queue: the stored list is emptied, unless tasks are to be cancelled.
use auto_test_system.Prelude.{
  ℕ, ◌≡◌, ◌≢◌, refl, Bool, true, false, some, List, [], ◌∷◌, arith, ==_refl, if◌then◌else◌,
}
use auto_test_system.Exec.{ok, raised, attribute_error, Result}
use auto_test_system.Mongo.Defs.{Mongo, IsLawful}
use auto_test_system.Documents.{TaskQueue}
use auto_test_system.World.{World}
use auto_test_system.Queue.{Handle, commit_queue_ok, cancel_all, flush}
use auto_test_system.Queue.Lock.{acquire_lock_free}
use auto_test_system.Queue.Fifo.{locked, get-locked, flush_run, section}

-- Whether tasks are to be cancelled and the copy has any.
abbrev pub has_to_cancel : Bool → List ℕ → Bool
has_to_cancel false ts = false
has_to_cancel true [] = false
has_to_cancel true (t ∷ ts) = true

abbrev pub emptied : Handle TaskQueue → Handle TaskQueue
emptied self = record self { doc = record self.doc { tasks = [] } }

module _ (m : Mongo) (L : IsLawful m) (others : ℕ → World m → World m) where
  -- What a flush at a free lock leaves.
  abbrev pub Flushed :
      Bool
      → Handle TaskQueue
      → TaskQueue
      → World m
      → Result (Bool × Handle TaskQueue) × World m
      → Type 0
  Flushed stuck self q w p =
      (p.0 ≡ (if stuck then raised attribute_error else ok (true, emptied self)))
      × (m.get p.1.task_queues self.pk
          ≡ some (
              if stuck
              then record q { rw_lock = true }
              else record q { tasks = []; rw_lock = false }))
      × ((j : ℕ) → self.pk ≢ j → m.get p.1.task_queues j ≡ m.get w.task_queues j)
      × (p.1.tasks ≡ w.tasks)

  emptied-Flushed :
      (self : Handle TaskQueue) (w : World m) (q : TaskQueue)
      → m.get w.task_queues self.pk ≡ some q
      → Flushed false self q w
          (ok (true, emptied self), section m L others self.pk (λ d. record d { tasks = [] }) w)
  emptied-Flushed self w q e =
      (refl, simp (L.get-update, ==_refl, e), λ j h. simp L.get-update (ground arith), refl)

  flush_empty :
      (self : Handle TaskQueue) (w : World m) (q : TaskQueue)
      → self.doc.tasks ≡ []
      → m.get w.task_queues self.pk ≡ some q
      → q.rw_lock ≡ false
      → flush m others true self w
        ≡ (ok (true, emptied self), section m L others self.pk (λ d. record d { tasks = [] }) w)
  unfolding flush cancel_all
  flush_empty self w q has e free = ground (
    arith,
    has,
    acquire_lock_free m others self.pk w e free,
    commit_queue_ok m self.pk (λ d. record d { tasks = [] }) (locked m L others self.pk w)
        (get-locked m L others self.pk w e),
  )

  flush_stuck :
      (t : ℕ) (ts : List ℕ) (self : Handle TaskQueue) (w : World m) (q : TaskQueue)
      → self.doc.tasks ≡ t ∷ ts
      → m.get w.task_queues self.pk ≡ some q
      → q.rw_lock ≡ false
      → flush m others true self w ≡ (raised attribute_error, locked m L others self.pk w)
  unfolding flush cancel_all
  flush_stuck t ts self w q has e free =
      ground (arith, has, acquire_lock_free m others self.pk w e free)

  by_tasks :
      (cancelled : Bool) (ts : List ℕ) (self : Handle TaskQueue) (w : World m) (q : TaskQueue)
      → self.doc.tasks ≡ ts
      → m.get w.task_queues self.pk ≡ some q
      → q.rw_lock ≡ false
      → Flushed (has_to_cancel cancelled ts) self q w (flush m others cancelled self w)
  by_tasks false ts self w q has e free =
      rw (flush_run m L others self w e free) (emptied-Flushed self w q e)
  by_tasks true [] self w q has e free =
      rw (flush_empty self w q has e free) (emptied-Flushed self w q e)
  by_tasks true (t ∷ ts) self w q has e free =
      rw (flush_stuck t ts self w q has e free)
        (refl, get-locked m L others self.pk w e, λ j h. simp L.get-update (ground arith), refl)

  -- A flush at a free lock of a stored queue, by cases. Where tasks are to be cancelled and the caller's copy
  -- has any, it raises AttributeError and the lock stays taken; the stored list is as it was. Otherwise it
  -- returns `True`, the stored list is empty and the lock is free. Either way no other queue and no task
  -- changes.
  pub flush_lem :
      (cancelled : Bool) (self : Handle TaskQueue) (w : World m) {q : TaskQueue}
      → m.get w.task_queues self.pk ≡ some q
      → q.rw_lock ≡ false
      → Flushed (has_to_cancel cancelled self.doc.tasks) self q w (flush m others cancelled self w)
  flush_lem cancelled self w {q} e free = by_tasks cancelled self.doc.tasks self w q refl e free
