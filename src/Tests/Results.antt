-- ===== src/Tests/Results.antt =====
-- The results of a task that runs on the endpoint of the test data.
use auto_test_system.Prelude.{ℕ, ◌≡◌, ◌≢◌, refl, true, none, some, [], ◌∷◌, str_eq, arith}
use auto_test_system.Documents.{Task, TaskStatus}
use auto_test_system.Mongo.Assoc.{assoc, assoc_with-IsLawful}
use auto_test_system.World.{World}
use auto_test_system.Results.{ResultClass, new_result, create_result, update_result}
use auto_test_system.Text.{text_length}
use auto_test_system.Results.Last.{update-last}
use auto_test_system.Results.Reported.{create-update}
use auto_test_system.Tests.Data.{site, task, endpoint}

abbrev class : ResultClass
class = record { has_attribute = λ k. str_eq k "status"; other_field = λ k v. none }

abbrev running_task : Task
running_task = record (task TaskStatus.running) { test_results = 3 ∷ 4 ∷ [] }

-- Two test cases of task 1 have begun.
abbrev begun : World assoc
begun = record site {
  tasks = (1, running_task) ∷ [];
  test_results = (3, new_result 1 "first" "site") ∷ (4, new_result 1 "second" "site") ∷ [];
}

-- The status goes to the second case, also where the first one reports it.
update-last_example :
    assoc.get (update_result assoc class "1" (("status", "PASS") ∷ []) begun).1.test_results 3
    ≡ assoc.get begun.test_results 3
update-last_example =
    update-last assoc (assoc_with-IsLawful true) class begun "1" (("status", "PASS") ∷ []) 1 4 3
      running_task refl refl refl (omega arith)

create-update_example :
    let w = (create_result assoc (some "1") (some "third") begun).1 in
    let ended = (update_result assoc class "1" (("status", "PASS") ∷ []) w).1 in
    (assoc.get ended.test_results (assoc.new_id begun.test_results)
      ≡ some (record (new_result 1 "third" "site") { status = "PASS" }))
    × ((j : ℕ)
        → assoc.new_id begun.test_results ≢ j
        → assoc.get ended.test_results j ≡ assoc.get begun.test_results j)
unfolding text_length
create-update_example =
    create-update assoc (assoc_with-IsLawful true) begun class "1" "third" "PASS" 1 5 running_task
      endpoint refl refl refl refl refl refl refl refl
