-- ===== src/Results/Last.antt =====
-- Which results the handlers of webserver/app/main/controller/testresult_controller.py change.
use auto_test_system.Prelude.{
  ℕ, ◌≡◌, ◌≢◌, refl, some, List, [], ◌∷◌, ◌++◌, String, ==_iff, arith, Option-cases, inl, inr,
}
use auto_test_system.Exec.{Result, ok, stop, raised, resume}
use auto_test_system.Mongo.Defs.{Mongo, IsLawful}
use auto_test_system.Documents.{Task, TestResult}
use auto_test_system.World.{World}
use auto_test_system.Store.{commit_result}
use auto_test_system.Results.{ResultClass, last, set_items, update_result}

pub last-append : (xs : List ℕ) (x : ℕ) → last (xs ++ (x ∷ [])) ≡ some x
last-append [] x = refl
last-append (y ∷ []) x = refl
last-append (y ∷ (z ∷ r)) x = last-append (z ∷ r) x

module _ (m : Mongo) (L : IsLawful m) (class : ResultClass) (w : World m) where
  -- Where the result is not stored, nothing is written.
  pub commit-others :
      (k j : ℕ) (f : TestResult → TestResult)
      → k ≢ j
      → m.get (commit_result m k f w).1.test_results j ≡ m.get w.test_results j
  unfolding commit_result
  commit-others k j f other = elim (Option-cases (m.get w.test_results k)) [
    | inl e ↦ rw (e, commit_result) refl
    | inr (d, e) ↦
        rw (e, commit_result)
          (ground (arith, L.get-update TestResult w.test_results k j f, other, ==_iff k j))
  ]

  changed-others :
      (r : Result TestResult) (k j : ℕ)
      → k ≢ j
      → m.get (resume r (λ d. commit_result m k (λ _. d)) w).1.test_results j
        ≡ m.get w.test_results j
  changed-others (ok d) k j other = commit-others k j (λ _. d) other
  changed-others (stop c t) k j other = refl
  changed-others (raised e) k j other = refl

  pub update-run :
      (task_id : String) (items : List (String × String)) (t k : ℕ) (task : Task) (d : TestResult)
      → m.object_id task_id ≡ some t
      → m.get w.tasks t ≡ some task
      → last task.test_results ≡ some k
      → m.get w.test_results k ≡ some d
      → update_result m class task_id items w
        ≡ resume (set_items m class items d) (λ d. commit_result m k (λ _. d)) w
  unfolding update_result
  update-run task_id items t k task d e f g h = ground (arith, e, f, g, h)

  -- An update of a task changes no result but the last one of the task, however it ends.
  pub update-last :
      (task_id : String) (items : List (String × String)) (t k j : ℕ) (task : Task)
      → m.object_id task_id ≡ some t
      → m.get w.tasks t ≡ some task
      → last task.test_results ≡ some k
      → k ≢ j
      → m.get (update_result m class task_id items w).1.test_results j ≡ m.get w.test_results j
  unfolding update_result
  update-last task_id items t k j task e f g other = elim (Option-cases (m.get w.test_results k)) [
    | inl h ↦ ground (arith, e, f, g, h)
    | inr (d, h) ↦
        rw (update-run task_id items t k task d e f g h)
          (changed-others (set_items m class items d) k j other)
  ]
