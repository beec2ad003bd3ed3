-- ===== src/Queue/Lock.antt =====
-- The lock of a queue: what `acquire_lock` returns, in terms of the rounds of its loop.
use auto_test_system.Prelude.{
  ℕ, zero, suc, ◌<◌, ◌≡◌, ◌↔◌, true, false, some, arith, present, Option-cases, inl, inr,
}
use auto_test_system.Mongo.Defs.{Mongo}
use auto_test_system.Documents.{TaskQueue, lock_timeout}
use auto_test_system.World.{World}
use auto_test_system.Queue.{try_lock, acquire_from, acquire_lock, set_queue}

module _ (m : Mongo) (others : ℕ → World m → World m) where
  -- The state at the `k`-th try of a loop with `n` rounds left.
  abbrev pub slept : ℕ → ℕ → World m → World m
  slept n zero w = w
  slept zero (suc k) w = w
  slept (suc n) (suc k) w = slept n k (others n w)

  pub acquire_from-true :
      (n pk : ℕ) (w : World m)
      → (acquire_from m others n pk w).0 ≡ true
      → (k : ℕ) × (k < n) × (try_lock m pk (slept n k w) ≡ some (acquire_from m others n pk w).1)
  unfolding acquire_from
  acquire_from-true zero pk w h = absurd (cc)
  acquire_from-true (suc n) pk w h = elim (Option-cases (try_lock m pk w)) [
    | inr (v, e) ↦ (0, omega arith, ground arith)
    | inl e ↦
        let (k, below, found) = acquire_from-true n pk (others n w) (ground arith) in
        (suc k, omega arith, ground (arith, found))
  ]

  pub acquire_from-free :
      (n pk k : ℕ) (w : World m)
      → k < n
      → present (try_lock m pk (slept n k w)) ≡ true
      → (acquire_from m others n pk w).0 ≡ true
  unfolding acquire_from
  acquire_from-free zero pk k w h e = absurd (omega arith)
  acquire_from-free (suc n) pk zero w h e = ground arith
  acquire_from-free (suc n) pk (suc k) w h e = ground (arith, acquire_from-free n pk k (others n w))

  -- `acquire_lock` succeeds exactly when the lock is free at one of its twenty tries, and the state
  -- it ends in is then the one in which that try has set the lock.
  pub acquire_lock_iff :
      (pk : ℕ) (w : World m)
      → ((acquire_lock m others pk w).0 ≡ true) ↔ (
          (k : ℕ) × (k < lock_timeout)
          × (try_lock m pk (slept lock_timeout k w) ≡ some (acquire_lock m others pk w).1))
  unfolding acquire_lock
  acquire_lock_iff pk w = (
    λ h. acquire_from-true lock_timeout pk w h,
    λ (k, below, found). acquire_from-free lock_timeout pk k w below (ground (arith, found)),
  )

  -- At a free lock the first try succeeds.
  pub acquire_lock_free :
      (pk : ℕ) (w : World m) {q : TaskQueue}
      → m.get w.task_queues pk ≡ some q
      → q.rw_lock ≡ false
      → acquire_lock m others pk w ≡ (true, set_queue m pk (λ d. record d { rw_lock = true }) w)
  unfolding acquire_lock acquire_from try_lock
  acquire_lock_free pk w e free = ground arith
