-- ===== src/Scripts.antt =====
-- The handlers of webserver/app/main/controller/script_controller.py that delete and upload scripts. The
-- file system is a parameter: what stands at a path, and whether it can be removed.
pub mod Directories
pub mod Edit
use auto_test_system.Prelude.{
  ℕ, Bool, true, false, not, ◌&&◌, Option, none, some, List, [], ◌∷◌, String, str_eq, opt_eq,
  is_empty, if◌then◌else◌, ◌==◌, present,
}
use auto_test_system.Exec.{
  Exec, pure, gets, respond, or_respond, stop_if, modify, when, einval, enoent, eio, unknown_error,
  ◌>>=◌, ◌>>◌,
}
use auto_test_system.Mongo.Defs.{Mongo, find}
use auto_test_system.Documents.{Test}
use auto_test_system.World.{World}
use auto_test_system.Util.{nonempty}
use auto_test_system.Access.{Context, pk_of}
use auto_test_system.Text.{starts_with, ends_with, basename, dirname, stem}
use auto_test_system.Paths.{Directory, is_path_secure, opened}
use auto_test_system.Markdown.{Token}
use auto_test_system.Markdown.Update.{db_update_test}

pub data ScriptType : Type 0 where
  test_scripts test_libraries : ScriptType

abbrev pub script_type_of : String → Option ScriptType
script_type_of s =
    if str_eq s "test_scripts"
    then some test_scripts
    else if str_eq s "test_libraries"
    then some test_libraries
    else none

abbrev pub is_scripts : ScriptType → Bool
is_scripts test_scripts = true
is_scripts test_libraries = false

-- `os.path.exists`, `os.path.isfile`, and whether a removal succeeds.
pub record Disk : Type 0 where
  pub exists : Directory → Bool
  pub is_file : Directory → Bool
  pub removable : Directory → Bool

abbrev pub of_context : Context → Test → Bool
of_context ctx t =
    opt_eq t.organization (some ctx.organization.pk) && opt_eq t.team (pk_of ctx.team)

-- `root`: the directory of the scripts or of the libraries of the organization and team.
module _ (m : Mongo) (disk : Disk) (root : ScriptType → Directory) (ctx : Context) where
  unfoldable pub delete_each : List (ℕ × Test) → Exec (World m) (Unit {0})
  delete_each [] = pure tt
  delete_each ((k, _) ∷ ts) =
      modify (λ w. record w { tests = m.delete w.tests k }) >> delete_each ts

  unfoldable pub delete_tests_of : String → Exec (World m) (Unit {0})
  unfolding delete_each
  delete_tests_of script = do
    ts ← gets (λ w.
        find m
          (λ t.
            str_eq t.test_suite (stem (basename script))
            && str_eq t.path (dirname script)
            && of_context ctx t)
          w.tests)
    delete_each ts
    stop_if (is_empty ts) enoent "Test suite not found in the database"

  unfoldable pub delete_file : ScriptType → String → Exec (World m) (Unit {0})
  unfolding delete_tests_of
  delete_file type script = do
    stop_if (not (disk.removable (opened (root type) script))) eio
        "Error happened while deleting the file"
    when (is_scripts type) (delete_tests_of script)

  -- `if test.path.startswith(dirname)`
  unfoldable pub delete_under : String → List (ℕ × Test) → Exec (World m) (Unit {0})
  unfolding starts_with
  delete_under dir [] = pure tt
  delete_under dir ((k, t) ∷ ts) =
      when (starts_with dir t.path) (modify (λ w. record w { tests = m.delete w.tests k }))
      >> delete_under dir ts

  unfoldable pub delete_directory : ScriptType → String → Exec (World m) (Unit {0})
  unfolding delete_under
  delete_directory type script = do
    ts ← gets (λ w. find m (of_context ctx) w.tests)
    when (is_scripts type) (delete_under (dirname script) ts)
    stop_if (not (disk.removable (opened (root type) script))) eio
        "Error happened while deleting the directory"

  unfoldable pub delete_script : Option String → Option String → Exec (World m) (Unit {0})
  unfolding delete_file delete_directory
  delete_script file script_type = do
    script ← or_respond (nonempty file) einval "Field file is required"
    stop_if (not (is_path_secure script)) einval
        "Referencing to Upper level directory is not allowed"
    given ← or_respond script_type einval "Field script_type is required"
    type ← or_respond (script_type_of given) einval "Unsupported script type"
    stop_if (not (disk.exists (opened (root type) script))) enoent "File/directory doesn't exist"
    if disk.is_file (opened (root type) script)
        then delete_file type script
        else delete_directory type script

  -- `is_path_secure` refuses the request at the first bad name; the files before it are written.
  abbrev all_secure : List String → Bool
  all_secure [] = true
  all_secure (f ∷ fs) = is_path_secure f && all_secure fs

  module _ (tokens : String → List Token) where
    unfoldable pub update_each : List String → Exec (World m) (Unit {0})
    unfolding db_update_test ends_with
    update_each [] = pure tt
    update_each (f ∷ fs) =
        let rest = update_each fs in
        if ends_with ".md" f
        then (do
          test ← db_update_test m tokens ctx f none none
          stop_if (not (present test)) unknown_error "Failed to update test suite"
          rest)
        else rest

    unfoldable pub upload : Option String → List String → Exec (World m) (Unit {0})
    unfolding update_each
    upload script_type files = do
      given ← or_respond script_type einval "Field script_type is required"
      type ← or_respond (script_type_of given) einval "Unsupported script type"
      stop_if (not (all_secure files)) einval "saving file with an illegal file name"
      stop_if (is_empty files) einval "No files are found in the request"
      when (is_scripts type) (update_each files)
