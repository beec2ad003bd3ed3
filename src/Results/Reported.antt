-- ===== src/Results/Reported.antt =====
-- A test case that is begun and then reported to webserver/app/main/controller/testresult_controller.py.
use auto_test_system.Prelude.{
  ℕ, ◌≡◌, ◌≢◌, refl, true, false, some, [], ◌∷◌, ◌++◌, String, str_eq, ==_refl, ==_iff, arith,
  if◌then◌else◌, Bool-cases, inl, inr,
}
use auto_test_system.Exec.{ok}
use auto_test_system.Mongo.Defs.{Mongo, IsLawful}
use auto_test_system.Documents.{Task, TestResult, Endpoint}
use auto_test_system.World.{World}
use auto_test_system.Store.{commit_result_ok}
use auto_test_system.Queue.{commit_task_ok, set_task}
use auto_test_system.Text.{fits}
use auto_test_system.Markdown.{put}
use auto_test_system.Results.{ResultClass, new_result, set_items, create_result, update_result}
use auto_test_system.Results.Last.{last-append, update-run}

module _ (m : Mongo) (L : IsLawful m) (w : World m) where
  -- The state behind the creation of a result.
  abbrev pub with_result : ℕ → Task → String → Endpoint → World m
  with_result t task case ep =
      set_task m t
        (λ d. record d { test_results = task.test_results ++ (m.new_id w.test_results ∷ []) })
        (record w {
          test_results =
              m.insert w.test_results (m.new_id w.test_results) (new_result t case ep.name);
        })

  create-run :
      (s case : String) (t n : ℕ) (task : Task) (ep : Endpoint)
      → str_eq s "" ≡ false
      → m.object_id s ≡ some t
      → m.get w.tasks t ≡ some task
      → task.endpoint_run ≡ some n
      → m.get w.endpoints n ≡ some ep
      → fits 100 case ≡ true
      → fits 50 ep.name ≡ true
      → create_result m (some s) (some case) w ≡ (ok tt, with_result t task case ep)
  unfolding create_result
  create-run s case t n task ep b e f g h short shorter = ground (
    arith,
    b,
    e,
    f,
    g,
    h,
    short,
    shorter,
    commit_task_ok m t
        (λ d. record d { test_results = task.test_results ++ (m.new_id w.test_results ∷ []) })
        (record w {
          test_results =
              m.insert w.test_results (m.new_id w.test_results) (new_result t case ep.name);
        })
        f,
  )

  -- Where a reported status ends: in the field where the class of documents has an attribute of that
  -- name, and in `more_result` where it has none.
  abbrev pub with_status : ResultClass → String → TestResult → TestResult
  with_status class v r =
      if class.has_attribute "status"
      then record r { status = v }
      else record r { more_result = put "status" v r.more_result }

  set_status :
      (class : ResultClass) (v : String) (r : TestResult)
      → fits 10 v ≡ true
      → set_items m class (("status", v) ∷ []) r ≡ ok (with_status class v r)
  unfolding set_items
  set_status class v r short = elim (Bool-cases (class.has_attribute "status")) [
    | inl e ↦ rw (e, short) refl
    | inr e ↦ rw e refl
  ]

  -- A test case that is begun for a stored task with a stored endpoint, where the names of the case
  -- and the endpoint fit into their fields, and an update of its status to a text of at most ten
  -- characters behind it, leave a result of the case that has the reported text as its status if the
  -- umongo class has an attribute `status`, and otherwise the status FAIL and the reported text under
  -- "status" in `more_result`; every other result is as it was.
  pub create-update :
      (class : ResultClass) (s case v : String) (t n : ℕ) (task : Task) (ep : Endpoint)
      → str_eq s "" ≡ false
      → m.object_id s ≡ some t
      → m.get w.tasks t ≡ some task
      → task.endpoint_run ≡ some n
      → m.get w.endpoints n ≡ some ep
      → fits 100 case ≡ true
      → fits 50 ep.name ≡ true
      → fits 10 v ≡ true
      → let begun = (create_result m (some s) (some case) w).1 in
        let ended = (update_result m class s (("status", v) ∷ []) begun).1 in
        let rid = m.new_id w.test_results in
        (m.get ended.test_results rid ≡ some (with_status class v (new_result t case ep.name)))
        × ((j : ℕ) → rid ≢ j → m.get ended.test_results j ≡ m.get w.test_results j)
  create-update class s case v t n task ep b e f g h short shorter shortest =
      let rid = m.new_id w.test_results in
      let begun = with_result t task case ep in
      let stored : m.get begun.tasks t
          ≡ some (record task { test_results = task.test_results ++ (rid ∷ []) }) =
        rw
          (
            L.get-update Task w.tasks t t
                (λ d. record d { test_results = task.test_results ++ (rid ∷ []) }),
            ==_refl t,
            f,
          )
          refl in
      let created : m.get begun.test_results rid ≡ some (new_result t case ep.name) =
        rw (L.get-insert TestResult w.test_results rid rid (new_result t case ep.name), ==_refl rid)
          refl in
      let set : TestResult → TestResult = λ _. with_status class v (new_result t case ep.name) in
      rw
        (
          create-run s case t n task ep b e f g h short shorter,
          update-run m L class begun s (("status", v) ∷ []) t rid
              (record task { test_results = task.test_results ++ (rid ∷ []) })
              (new_result t case ep.name) e stored (last-append task.test_results rid) created,
          set_status class v (new_result t case ep.name) shortest,
          commit_result_ok m rid set begun created,
        )
        (
          rw (L.get-update TestResult begun.test_results rid rid set, ==_refl rid, created) refl,
          λ j other. ground (
            arith,
            L.get-update TestResult begun.test_results rid j set,
            L.get-insert TestResult w.test_results rid j (new_result t case ep.name),
            other,
            ==_iff rid j,
          ),
        )
