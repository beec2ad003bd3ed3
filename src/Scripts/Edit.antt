-- ===== src/Scripts/Edit.antt =====
-- The handler of webserver/app/main/controller/script_controller.py that writes and renames a script
-- (ScriptView.post). What it writes to the disk is left out.
use auto_test_system.Prelude.{
  ℕ, Bool, true, false, not, ◌&&◌, ◌||◌, Option, none, some, List, [], ◌∷◌, ◌++◌, String, ◌<>◌,
  str_eq, present, if◌then◌else◌,
}
use auto_test_system.Exec.{
  Exec, pure, raise, gets, or_respond, stop_if, when, einval, enoent, unknown_error,
  unbound_local_error, ◌>>=◌, ◌>>◌,
}
use auto_test_system.Mongo.Defs.{Mongo, find_one}
use auto_test_system.Documents.{Test, Package}
use auto_test_system.World.{World}
use auto_test_system.Queue.{Handle}
use auto_test_system.Util.{nonempty}
use auto_test_system.Access.{Context}
use auto_test_system.Store.{commit_test, commit_package}
use auto_test_system.Text.{ends_with, basename, dirname, stem, split_on}
use auto_test_system.Paths.{is_path_secure, parts}
use auto_test_system.Markdown.{Token}
use auto_test_system.Markdown.Update.{db_update_test}
use auto_test_system.Packages.Requires.{has_text}
use auto_test_system.Scripts.{ScriptType, test_scripts, test_libraries, script_type_of, is_scripts}

-- The local names `test` and `package`. `test` is `none` before its first assignment.
pub record Named : Type 0 where
  pub test : Option (Handle Test)
  pub owner : Option ℕ

abbrev first_part : List String → String
first_part [] = ""
first_part (p ∷ ps) = p

-- `os.path.dirname(script).split('/')[0]`
unfoldable pub top_directory : String → String
unfolding split_on dirname
top_directory script = first_part (split_on b'/' (dirname script))

abbrev slashed : List String → String
slashed [] = "."
slashed (p ∷ []) = p
slashed (p ∷ q ∷ ps) = p <> "/" <> slashed (q ∷ ps)

-- `str(Path(dirname) / new_name)` of relative paths
abbrev pub joined_path : String → String → String
joined_path dir name = slashed (parts dir ++ parts name)

abbrev insecure : Option String → Bool
insecure none = false
insecure (some s) = not (is_path_secure s)

module _ (m : Mongo) (ctx : Context) (tokens : String → List Token) where
  -- The test of a markdown script, by name and directory alone, or the package of a library.
  unfoldable pub look_up : ScriptType → String → Exec (World m) Named
  unfolding top_directory ends_with stem basename
  look_up test_scripts script =
      if ends_with ".md" (basename script)
      then (do
        found ← gets (λ w.
            find_one m
              (λ t.
                str_eq t.test_suite (stem (basename script))
                && str_eq t.path (top_directory script))
              w.tests)
        t ← or_respond found enoent "test suite not found"
        pure (record { test = some (record { pk = t.0; doc = t.1 }); owner = none }))
      else pure (record { test = none; owner = none })
  look_up test_libraries script =
      if str_eq (top_directory script) "" then pure (record { test = none; owner = none }) else (do
        found ← gets (λ w.
            find_one m (λ (d : Package). has_text (top_directory script) d.py_packages) w.packages)
        p ← or_respond found enoent "package not found"
        pure (record { test = none; owner = some (p.0) }))

  -- The test is renamed with its file; of a script that is no markdown there is no local `test`.
  unfoldable pub rename :
      ScriptType → Option String → Option (Handle Test) → Exec (World m) (Unit {0})
  rename test_libraries new_name test = pure tt
  rename test_scripts none test = pure tt
  rename test_scripts (some name) none = raise unbound_local_error
  rename test_scripts (some name) (some t) =
      commit_test m t.pk (λ d. record d { test_suite = stem name })

  abbrev script_after : String → Option String → String
  script_after script none = script
  script_after script (some name) = joined_path (top_directory script) name

  unfoldable pub refresh : String → Exec (World m) (Unit {0})
  unfolding db_update_test
  refresh script = when (ends_with ".md" script) (do
    test ← db_update_test m tokens ctx script none none
    stop_if (not (present test)) unknown_error "Failed to update test suite")

  unfoldable pub mark_modified : Option ℕ → Exec (World m) (Unit {0})
  mark_modified none = pure tt
  mark_modified (some k) = commit_package m k (λ d. record d { modified = true })

  unfoldable pub edit_script :
      Option String → Option String → Option String → Option String → Exec (World m) (Unit {0})
  unfolding look_up rename refresh mark_modified
  edit_script file new_name script_type content = do
    script ← or_respond (nonempty file) einval "Field file is required"
    stop_if (not (is_path_secure script)) einval "Illegal file path"
    stop_if (insecure (nonempty new_name)) einval "Illegal new name"
    given ← or_respond script_type einval "Field script_type is required"
    stop_if (not (present content || present new_name)) einval "Field content is required"
    type ← or_respond (script_type_of given) einval "Unsupported script type"
    named ← look_up type script
    when (not (str_eq (basename script) "")) (rename type (nonempty new_name) named.test)
    when (is_scripts type && not (str_eq (basename script) ""))
        (refresh (script_after script (nonempty new_name)))
    mark_modified named.owner
