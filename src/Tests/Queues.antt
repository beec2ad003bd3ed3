-- ===== src/Tests/Queues.antt =====
-- Tests of the queue, and its theorems at the data of `Tests/Data.antt`.
use auto_test_system.Prelude.{
  ◌<◌, ◌≡◌, ◌≢◌, ◌↔◌, refl, true, false, some, [], ◌∷◌, arith, contains, ℕ, present,
}
use auto_test_system.Exec.{ok}
use auto_test_system.Mongo.Assoc.{assoc, assoc_with-IsLawful}
use auto_test_system.Documents.{TaskQueue, lock_timeout}
use auto_test_system.World.{World}
use auto_test_system.Queue.{acquire_lock, acquire_from, try_lock, pop, push, flush, set_queue}
use auto_test_system.Queue.Lock.{slept, acquire_lock_iff}
use auto_test_system.Queue.Fifo.{without_front, pop_lem, push_stale}
use auto_test_system.Queue.Order.{Holds, push_all, drain, drain-push_all}
use auto_test_system.Queue.Flush.{Flushed, flush_lem}
use auto_test_system.Queue.Exclusion.{
  System, Reach, IsExclusive, Reach-IsExclusive, here, next, enter, enter_at,
}
use auto_test_system.Tests.Data.{quiet, queue_of, busy_queue, site, fresh_copy, stale_copy}

-- Somebody holds the lock of queue 3 throughout.
-- The queue names a task 13 that is not stored.
abbrev haunted : World assoc
haunted = record site { task_queues = (3, queue_of (13 ∷ [])) ∷ [] }

abbrev held : World assoc
held = record site { task_queues = (3, record busy_queue { rw_lock = true }) ∷ [] }

acquire_lock_iff_example : ((acquire_lock assoc quiet 3 site).0 ≡ true) ↔ (
    (k : ℕ) × (k < lock_timeout)
    × (try_lock assoc 3 (slept assoc quiet lock_timeout k site)
        ≡ some (acquire_lock assoc quiet 3 site).1))
acquire_lock_iff_example = acquire_lock_iff assoc quiet 3 site

-- The tasks 11 and 12 are stored.
site-known : (t : ℕ) → contains t (11 ∷ 12 ∷ []) ≡ true → present (assoc.get site.tasks t) ≡ true
site-known t e = ground (arith, e)

pop_lem_example :
    let (r, w') = pop assoc quiet 3 site in
    (r ≡ ok (some 11))
    × (assoc.get w'.task_queues 3 ≡ some (without_front busy_queue (11 ∷ 12 ∷ [])))
    × ((j : ℕ) → 3 ≢ j → assoc.get w'.task_queues j ≡ assoc.get site.task_queues j)
    × (w'.tasks ≡ site.tasks)
pop_lem_example =
    pop_lem assoc (assoc_with-IsLawful true) quiet 3 site refl refl
      (λ t e. site-known t (ground (arith, e)))

push_stale_example :
    (q' : TaskQueue) × (assoc.get (push assoc quiet 13 stale_copy site).1.task_queues 3 ≡ some q')
    × (contains 11 q'.tasks ≡ false)
push_stale_example =
    push_stale assoc (assoc_with-IsLawful true) quiet 13 11 stale_copy site refl refl refl refl
      (omega arith)

held_acquire : (acquire_lock assoc quiet 3 held).0 ≡ false
unfolding acquire_lock acquire_from try_lock
held_acquire = refl

site-Holds : Holds assoc 3 site (11 ∷ 12 ∷ [])
site-Holds = record {
  doc = busy_queue;
  stored = refl;
  free = refl;
  tasks = refl;
  known = site-known;
}

drain-push_all_example :
    drain assoc quiet 3 3 (push_all assoc quiet (11 ∷ []) fresh_copy site)
    ≡ ok (some 11) ∷ ok (some 12) ∷ ok (some 11) ∷ []
drain-push_all_example =
    drain-push_all assoc quiet (assoc_with-IsLawful true) (11 ∷ []) fresh_copy site site-Holds
      (λ t e. site-known t (ground (arith, e)))

flush_lem_example :
    Flushed assoc
      (assoc_with-IsLawful true)
      quiet
      true
      fresh_copy
      busy_queue
      site
      (flush assoc quiet true fresh_copy site)
flush_lem_example = flush_lem assoc (assoc_with-IsLawful true) quiet true fresh_copy site refl refl

abbrev start : System assoc 3
start = record { world = site; inside = λ c. false }

start-IsExclusive : IsExclusive assoc 3 start
start-IsExclusive = record { locked = λ c e. absurd (cc); alone = λ c d e f. absurd (cc) }

abbrev locked_site : World assoc
locked_site = set_queue assoc 3 (λ d. record d { rw_lock = true }) site

abbrev one_inside : System assoc 3
one_inside = record { world = locked_site; inside = enter_at assoc 3 start.inside 4 true }

one_enters : Reach assoc 3 start one_inside
unfolding try_lock
one_enters = next here (enter start 4 locked_site refl refl)

Reach-IsExclusive_example : IsExclusive assoc 3 one_inside
Reach-IsExclusive_example =
    Reach-IsExclusive assoc 3 (assoc_with-IsLawful true) start-IsExclusive one_enters
