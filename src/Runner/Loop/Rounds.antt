-- ===== src/Runner/Loop/Rounds.antt =====
-- How a run leaves its task and its queue, and which queue a round takes its task from.
use auto_test_system.Prelude.{
  ℕ, zero, suc, ◌≡◌, ◌≢◌, refl, true, false, some, List, [], ◌∷◌, arith, ◌==◌, Option-cases,
  Bool-cases, inl, inr, contains, subst,
}
use auto_test_system.Exec.{ok}
use auto_test_system.Mongo.Defs.{Mongo, IsLawful}
use auto_test_system.Documents.{Task, TaskQueue, TaskStatus, successful, failed}
use auto_test_system.World.{World}
use auto_test_system.Queue.{set_task, commit_task_ok}
use auto_test_system.Runner.Cancel.{is_cancelled}
use auto_test_system.Runner.Cancel.Outcome.{status_of}
use auto_test_system.Runner.Loop.{settle, pick, found}

-- The status of a task whose process has returned a code.
abbrev pub final_status : ℕ → TaskStatus → TaskStatus
final_status zero s = successful
final_status (suc code) TaskStatus.cancelled = TaskStatus.cancelled
final_status (suc code) _ = failed

module _ (m : Mongo) (L : IsLawful m) (others : ℕ → World m → World m)
    (robot : ℕ → World m → ℕ × World m) where
  -- The return code 0 makes a task successful, whatever was stored; any other code makes it failed,
  -- unless it was cancelled meanwhile. No other task changes.
  pub settle_lem :
      (t code : ℕ) (w : World m) {d : Task}
      → m.get w.tasks t ≡ some d
      → let (r, w') = settle m others robot t code w in
        (r ≡ ok tt)
        × (status_of m t w' ≡ some (final_status code d.status))
        × ((j : ℕ) → t ≢ j → m.get w'.tasks j ≡ m.get w.tasks j)
  unfolding settle
  settle_lem t zero w {d} e = rw (commit_task_ok m t (λ x. record x { status = successful }) w e) (
    refl,
    ground (arith, L.get-update Task w.tasks t t (λ x. record x { status = successful })),
    λ j h. simp L.get-update (ground arith),
  )
  settle_lem t (suc code) w {d} e = by_status d.status refl
    where
      fails :
          (s : TaskStatus)
          → d.status ≡ s
          → is_cancelled s ≡ false
          → (settle m others robot t (suc code) w
              ≡ (ok tt, set_task m t (λ x. record x { status = failed }) w))
      fails s at_s other =
          ground (arith, commit_task_ok m t (λ x. record x { status = failed }) w e, at_s, other)

      failing :
          settle m others robot t (suc code) w
            ≡ (ok tt, set_task m t (λ x. record x { status = failed }) w)
          → let (r, w') = settle m others robot t (suc code) w in
            (r ≡ ok tt)
            × (status_of m t w' ≡ some failed)
            × ((j : ℕ) → t ≢ j → m.get w'.tasks j ≡ m.get w.tasks j)
      failing run = rw run (
        refl,
        ground (arith, L.get-update Task w.tasks t t (λ x. record x { status = failed })),
        λ j h. simp L.get-update (ground arith),
      )

      by_status :
          (s : TaskStatus)
          → d.status ≡ s
          → let (r, w') = settle m others robot t (suc code) w in
            (r ≡ ok tt)
            × (status_of m t w' ≡ some (final_status (suc code) s))
            × ((j : ℕ) → t ≢ j → m.get w'.tasks j ≡ m.get w.tasks j)
      by_status TaskStatus.cancelled at_s =
          let run : settle m others robot t (suc code) w ≡ (ok tt, w) = ground (arith, at_s) in
          rw run (refl, ground (arith, at_s), λ j h. refl)
      by_status TaskStatus.waiting at_s = failing (fails TaskStatus.waiting at_s refl)
      by_status TaskStatus.running at_s = failing (fails TaskStatus.running at_s refl)
      by_status TaskStatus.successful at_s = failing (fails TaskStatus.successful at_s refl)
      by_status TaskStatus.failed at_s = failing (fails TaskStatus.failed at_s refl)

  -- A cancelled task whose process still exits with 0 is stored as successful: the cancellation is
  -- lost.
  pub cancelled_then_successful :
      (t : ℕ) (w : World m)
      → status_of m t w ≡ some TaskStatus.cancelled
      → status_of m t (settle m others robot t 0 w).1 ≡ some successful
  cancelled_then_successful t w e = elim (Option-cases (m.get w.tasks t)) [
    | inl gone ↦ absurd (ground arith)
    | inr (d, stored) ↦ (settle_lem t 0 w stored).1
  ]

  -- The queue of a priority that a round looks at is one of the endpoint's, is stored with that
  -- priority, and neither it nor a queue before it is to be deleted.
  pub pick-found :
      (p k : ℕ) (ks : List ℕ) (w : World m)
      → (pick m p ks w).0 ≡ ok (found k)
      → (contains k ks ≡ true)
        × ((q : TaskQueue) × (m.get w.task_queues k ≡ some q)
            × (q.priority ≡ p)
            × (q.to_delete ≡ false))
  unfolding pick
  pick-found p k [] w e = absurd (cc)
  pick-found p k (j ∷ ks) w e = elim (Option-cases (m.get w.task_queues j)) [
    | inl gone ↦ absurd (ground arith)
    | inr (q, stored) ↦ elim (Bool-cases q.to_delete) [
      | inl dead ↦ absurd (ground arith)
      | inr alive ↦ elim (Bool-cases (q.priority == p)) [
        | inl fits ↦
            let same : j ≡ k = ground (arith, stored, alive, fits) in
            (
              ground (arith, same),
              (
                q,
                subst (λ i. m.get w.task_queues i ≡ some q) same stored,
                ground (arith, fits),
                alive,
              ),
            )
        | inr other ↦
            let below = pick-found p k ks w (ground (arith, stored, alive, other)) in
            (ground (arith, below.0), below.1)
      ]
    ]
  ]
