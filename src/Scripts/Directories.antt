-- ===== src/Scripts/Directories.antt =====
-- Which tests go with a directory of scripts.
use auto_test_system.Prelude.{
  ℕ, ◌≡◌, refl, ap, ◌∙◌, Bool, true, false, not, ◌&&◌, none, List, [], ◌∷◌, String, contains, arith,
  Bool-cases, Option-cases, inl, inr, if◌then◌else◌,
}
use auto_test_system.Exec.{Code, stop_if, eio, IsStill, resume-IsStill}
use auto_test_system.Mongo.Defs.{Mongo, IsLawful, find, match_in}
use auto_test_system.Mongo.Find.{matches}
use auto_test_system.Documents.{Test}
use auto_test_system.World.{World}
use auto_test_system.Access.{Context}
use auto_test_system.Text.{starts_with, dirname}
use auto_test_system.Paths.{Directory, opened}
use auto_test_system.Scripts.{
  ScriptType, test_scripts, Disk, of_context, delete_under, delete_directory,
}

abbrev under_keys : String → List (ℕ × Test) → List ℕ
under_keys dir [] = []
under_keys dir ((k, t) ∷ ts) =
    if starts_with dir t.path then k ∷ under_keys dir ts else under_keys dir ts

stop_if-IsStill : {S : Type 0} (b : Bool) (c : Code) (t : String) → IsStill {S = S} (stop_if b c t)
stop_if-IsStill true c t s = refl
stop_if-IsStill false c t s = refl

module _ (m : Mongo) (L : IsLawful m) (disk : Disk) (root : ScriptType → Directory)
    (ctx : Context) where
  delete_under-get :
      (dir : String) (ts : List (ℕ × Test)) (w : World m) (k : ℕ)
      → m.get (delete_under m disk root ctx dir ts w).1.tests k
        ≡ (if contains k (under_keys dir ts) then none else m.get w.tests k)
  unfolding delete_under
  delete_under-get dir [] w k = refl
  delete_under-get dir ((j, t) ∷ ts) w k = elim (Bool-cases (starts_with dir t.path)) [
    | inl under ↦ rw under (
        delete_under-get dir ts (record w { tests = m.delete w.tests j }) k
        ∙ ground (arith, L.get-delete Test w.tests j k))
    | inr beside ↦ rw beside (delete_under-get dir ts w k)
  ]

  abbrev goes : String → Test → Bool
  goes dir t = of_context ctx t && starts_with dir t.path

  contains-under_keys :
      (dir : String) (c : m.Collection Test) (k : ℕ) (ks : List ℕ)
      → contains k (under_keys dir (match_in m (of_context ctx) c ks))
        ≡ (contains k ks && matches (goes dir) (m.get c k))
  unfolding match_in
  contains-under_keys dir c k [] = refl
  contains-under_keys dir c k (j ∷ ks) = elim (Option-cases (m.get c j)) [
    | inl e ↦ ground (arith, contains-under_keys dir c k ks)
    | inr (d, e) ↦ ground (arith, contains-under_keys dir c k ks)
  ]

  gone :
      (dir : String) (w : World m) (k : ℕ)
      → (if contains k (under_keys dir (find m (of_context ctx) w.tests))
          then none
          else m.get w.tests k)
        ≡ (if matches (goes dir) (m.get w.tests k) then none else m.get w.tests k)
  unfolding find
  gone dir w k = elim (Option-cases (m.get w.tests k)) [
    | inl e ↦
        ground
          (arith, contains-under_keys dir w.tests k (m.scan w.tests), L.scan-get Test w.tests k)
    | inr (d, e) ↦
        ground
          (arith, contains-under_keys dir w.tests k (m.scan w.tests), L.scan-get Test w.tests k)
  ]

  -- Deleting a directory of test scripts deletes exactly the tests of the organization and the team
  -- whose path begins with `os.path.dirname` of the request, also where the directory itself cannot be
  -- removed then.
  pub delete_directory_lem :
      (script : String) (w : World m) (k : ℕ)
      → m.get (delete_directory m disk root ctx test_scripts script w).1.tests k ≡ (
          if matches
            (λ t. of_context ctx t && starts_with (dirname script) t.path)
            (m.get w.tests k)
          then none
          else m.get w.tests k)
  unfolding delete_directory find
  delete_directory_lem script w k =
      let dir = dirname script in
      let run = delete_under m disk root ctx dir (find m (of_context ctx) w.tests) w in
      let check =
        stop_if {S = World m} (not (disk.removable (opened (root test_scripts) script))) eio
          "Error happened while deleting the directory" in
      ap (λ v. m.get v.tests k)
        (resume-IsStill run.0 (λ _. check) run.1
          (λ _.
            stop_if-IsStill (not (disk.removable (opened (root test_scripts) script))) eio
              "Error happened while deleting the directory"))
      ∙ delete_under-get dir (find m (of_context ctx) w.tests) w k
      ∙ gone dir w k
