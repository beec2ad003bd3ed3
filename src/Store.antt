-- ===== src/Store.antt =====
-- `commit` of a user, an organization, a team, an endpoint, a package or a
-- test: the changed fields go to the stored document.
use auto_test_system.Prelude.{ℕ, ◌≡◌, none, some, List, [], arith}
use auto_test_system.Exec.{Exec, ok, raised, document_missing}
use auto_test_system.Mongo.Defs.{Mongo}
use auto_test_system.Documents.{
  User, Organization, Team, Endpoint, Package, Test, TestResult, Documentation,
}
use auto_test_system.World.{World}

module _ (m : Mongo) where
  abbrev pub set_user : ℕ → (User → User) → World m → World m
  set_user pk f w = record w { users = m.update w.users pk f }

  abbrev pub set_organization : ℕ → (Organization → Organization) → World m → World m
  set_organization pk f w = record w { organizations = m.update w.organizations pk f }

  abbrev pub set_team : ℕ → (Team → Team) → World m → World m
  set_team pk f w = record w { teams = m.update w.teams pk f }

  unfoldable pub commit_user : ℕ → (User → User) → Exec (World m) (Unit {0})
  commit_user pk f w = elim (m.get w.users pk) [
    | none ↦ (raised document_missing, w)
    | some d ↦ (ok tt, set_user pk f w)
  ]

  unfoldable pub commit_organization : ℕ → (Organization → Organization) → Exec (World m) (Unit {0})
  commit_organization pk f w = elim (m.get w.organizations pk) [
    | none ↦ (raised document_missing, w)
    | some d ↦ (ok tt, set_organization pk f w)
  ]

  unfoldable pub commit_team : ℕ → (Team → Team) → Exec (World m) (Unit {0})
  commit_team pk f w = elim (m.get w.teams pk) [
    | none ↦ (raised document_missing, w)
    | some d ↦ (ok tt, set_team pk f w)
  ]

  abbrev pub set_endpoint : ℕ → (Endpoint → Endpoint) → World m → World m
  set_endpoint pk f w = record w { endpoints = m.update w.endpoints pk f }

  unfoldable pub commit_endpoint : ℕ → (Endpoint → Endpoint) → Exec (World m) (Unit {0})
  commit_endpoint pk f w = elim (m.get w.endpoints pk) [
    | none ↦ (raised document_missing, w)
    | some d ↦ (ok tt, set_endpoint pk f w)
  ]

  abbrev pub set_package : ℕ → (Package → Package) → World m → World m
  set_package pk f w = record w { packages = m.update w.packages pk f }

  unfoldable pub commit_package : ℕ → (Package → Package) → Exec (World m) (Unit {0})
  commit_package pk f w = elim (m.get w.packages pk) [
    | none ↦ (raised document_missing, w)
    | some d ↦ (ok tt, set_package pk f w)
  ]

  abbrev pub set_test : ℕ → (Test → Test) → World m → World m
  set_test pk f w = record w { tests = m.update w.tests pk f }

  unfoldable pub commit_test : ℕ → (Test → Test) → Exec (World m) (Unit {0})
  commit_test pk f w = elim (m.get w.tests pk) [
    | none ↦ (raised document_missing, w)
    | some d ↦ (ok tt, set_test pk f w)
  ]

  abbrev pub set_result : ℕ → (TestResult → TestResult) → World m → World m
  set_result pk f w = record w { test_results = m.update w.test_results pk f }

  unfoldable pub commit_result : ℕ → (TestResult → TestResult) → Exec (World m) (Unit {0})
  commit_result pk f w = elim (m.get w.test_results pk) [
    | none ↦ (raised document_missing, w)
    | some d ↦ (ok tt, set_result pk f w)
  ]

  pub commit_result_ok :
      (pk : ℕ) (f : TestResult → TestResult) (w : World m) {d : TestResult}
      → m.get w.test_results pk ≡ some d
      → commit_result pk f w ≡ (ok tt, set_result pk f w)
  unfolding commit_result
  commit_result_ok pk f w e = ground arith

  abbrev pub set_page : ℕ → (Documentation → Documentation) → World m → World m
  set_page pk f w = record w { documents = m.update w.documents pk f }

  unfoldable pub commit_page : ℕ → (Documentation → Documentation) → Exec (World m) (Unit {0})
  commit_page pk f w = elim (m.get w.documents pk) [
    | none ↦ (raised document_missing, w)
    | some d ↦ (ok tt, set_page pk f w)
  ]

  pub commit_page_ok :
      (pk : ℕ) (f : Documentation → Documentation) (w : World m) {d : Documentation}
      → m.get w.documents pk ≡ some d
      → commit_page pk f w ≡ (ok tt, set_page pk f w)
  unfolding commit_page
  commit_page_ok pk f w e = ground arith

  pub commit_package_ok :
      (pk : ℕ) (f : Package → Package) (w : World m) {d : Package}
      → m.get w.packages pk ≡ some d
      → commit_package pk f w ≡ (ok tt, set_package pk f w)
  unfolding commit_package
  commit_package_ok pk f w e = ground arith

  pub commit_test_ok :
      (pk : ℕ) (f : Test → Test) (w : World m) {d : Test}
      → m.get w.tests pk ≡ some d
      → commit_test pk f w ≡ (ok tt, set_test pk f w)
  unfolding commit_test
  commit_test_ok pk f w e = ground arith

  pub commit_endpoint_ok :
      (pk : ℕ) (f : Endpoint → Endpoint) (w : World m) {d : Endpoint}
      → m.get w.endpoints pk ≡ some d
      → commit_endpoint pk f w ≡ (ok tt, set_endpoint pk f w)
  unfolding commit_endpoint
  commit_endpoint_ok pk f w e = ground arith

  pub commit_user_ok :
      (pk : ℕ) (f : User → User) (w : World m) {d : User}
      → m.get w.users pk ≡ some d
      → commit_user pk f w ≡ (ok tt, set_user pk f w)
  unfolding commit_user
  commit_user_ok pk f w e = ground arith

  pub commit_organization_ok :
      (pk : ℕ) (f : Organization → Organization) (w : World m) {d : Organization}
      → m.get w.organizations pk ≡ some d
      → commit_organization pk f w ≡ (ok tt, set_organization pk f w)
  unfolding commit_organization
  commit_organization_ok pk f w e = ground arith

  pub commit_team_ok :
      (pk : ℕ) (f : Team → Team) (w : World m) {d : Team}
      → m.get w.teams pk ≡ some d
      → commit_team pk f w ≡ (ok tt, set_team pk f w)
  unfolding commit_team
  commit_team_ok pk f w e = ground arith

-- The references of stored documents; a document that is not stored has none.
module _ (m : Mongo) (w : World m) where
  abbrev pub organizations_of : ℕ → List ℕ
  organizations_of u = elim (m.get w.users u) [ none ↦ [] | some d ↦ d.organizations ]

  abbrev pub teams_of : ℕ → List ℕ
  teams_of u = elim (m.get w.users u) [ none ↦ [] | some d ↦ d.teams ]

  abbrev pub members_of : ℕ → List ℕ
  members_of o = elim (m.get w.organizations o) [ none ↦ [] | some d ↦ d.members ]

  abbrev pub team_members_of : ℕ → List ℕ
  team_members_of t = elim (m.get w.teams t) [ none ↦ [] | some d ↦ d.members ]
