-- ===== src/Packages/Resolve.antt =====
-- The recursions over the requirements in webserver/task_runner/util/dbhelper.py: `install_test_suite` up
-- to where it unpacks the archive, and `find_pkg_dependencies`. They run on fuel. No caller sets
-- `recursive`, so it is `False` here.
use auto_test_system.Prelude.{
  ℕ, zero, suc, Bool, true, false, Option, none, some, List, [], ◌∷◌, is_empty, String,
  if◌then◌else◌,
}
use auto_test_system.Exec.{
  Exec, pure, raise, gets, or_raise, attribute_error, value_error, modify, ◌>>=◌, ◌>>◌,
}
use auto_test_system.Mongo.Defs.{Mongo}
use auto_test_system.Documents.{Package, PackageFile}
use auto_test_system.World.{World}
use auto_test_system.Queue.{Handle}
use auto_test_system.Access.{Context}
use auto_test_system.Paths.{Directory}
use auto_test_system.Packages.{Versions, meets, get_package_by_version, versions}
use auto_test_system.Packages.Requires.{
  Cache, Found, in_cache, get_package_requires, file_path, or_empty,
}

-- How the part before the unpacking ends: `return False`, `return True`, or with the file to unpack.
pub data Install : Type 0 where
  refused skipped out_of_fuel : Install
  unpack : Handle PackageFile → Install

module _ (m : Mongo) (V : Versions) (requires : Directory → Option (List String)) (w : World m)
    (ctx : Context) (pypi_root : Directory) where
  -- A requirement that fails ends the loop, with what the caller returns.
  abbrev pub each_on : Exec (Cache V) (Option Install) → Install → Exec (Cache V) (Option Install)
  each_on others refused = pure (some refused)
  each_on others out_of_fuel = pure (some out_of_fuel)
  each_on others skipped = others
  each_on others (unpack f) = others

  -- `for pkg, ver in requires`
  unfoldable pub install_each :
      (Handle Package → Option String → Exec (Cache V) Install)
      → List Found
      → Exec (Cache V) (Option Install)
  install_each self [] = pure none
  install_each self ((p, v) ∷ fs) = self p (some v) >>= λ r. each_on (install_each self fs) r

  -- `if not recursive and not first_package`: a `PackageFile` has no `modify`.
  abbrev pub at_end : Bool → Handle PackageFile → Option Install → Exec (Cache V) Install
  at_end first f (some r) = pure r
  at_end true f none = pure (unpack f)
  at_end false f none = raise attribute_error

  abbrev pub install_file :
      (Handle Package → Option String → Exec (Cache V) Install)
      → Handle Package
      → Bool
      → Handle PackageFile
      → Exec (Cache V) Install
  install_file self p first f = do
    known ← gets (in_cache V p.pk)
    if known then pure skipped else (do
      found ← get_package_requires m V requires w ctx "Test Suite" (file_path pypi_root p f)
      end ← install_each self (or_empty found)
      at_end first f end)

  abbrev pub install_found :
      (Handle Package → Option String → Exec (Cache V) Install)
      → Handle Package
      → Bool
      → Option (Handle PackageFile)
      → Exec (Cache V) Install
  install_found self p first none = pure refused
  install_found self p first (some f) = install_file self p first f

  unfoldable pub install_test_suite : ℕ → Handle Package → Option String → Exec (Cache V) Install
  unfolding install_each
  install_test_suite zero p version = pure out_of_fuel
  install_test_suite (suc n) p version = do
    first ← gets is_empty
    file ← get_package_by_version m w p.doc version
    install_found (install_test_suite n) p first file

  -- `find_pkg_dependencies_nested`: `true` where it returns, `false` where the fuel is spent.
  unfoldable pub nested_each :
      (Handle Package → String → Exec (Cache V) Bool) → List Found → Exec (Cache V) Bool
  nested_each self [] = pure true
  nested_each self ((p, v) ∷ fs) = do
    returned ← self p v
    if returned then nested_each self fs else pure false

  unfoldable pub find_pkg_dependencies_nested :
      String → ℕ → Handle Package → String → Exec (Cache V) Bool
  unfolding nested_each
  find_pkg_dependencies_nested type zero p version = pure false
  find_pkg_dependencies_nested type (suc n) p version = do
    file ← get_package_by_version m w p.doc (some version)
    f ← or_raise file attribute_error
    found ← get_package_requires m V requires w ctx type (file_path pypi_root p f)
    nested_each (find_pkg_dependencies_nested type n) (or_empty found)

  -- The first version of a package that its range allows; none is recorded where no version is.
  abbrev first_allowed : List String → V.Range → Exec (Cache V) (Option String)
  first_allowed [] r = pure none
  first_allowed (v ∷ vs) r = do
    fits ← or_raise (meets V v r) value_error
    if fits then pure (some v) else first_allowed vs r

  abbrev with_version : ℕ → Option String → List (ℕ × String) → List (ℕ × String)
  with_version k none l = l
  with_version k (some v) l = (k, v) ∷ l

  -- `for pkg, version in cached.items()`, the package as its document at that time
  unfoldable pub choose_each : Cache V → Exec (Cache V) (List (ℕ × String))
  choose_each [] = pure []
  choose_each ((k, r) ∷ c) = do
    p ← or_raise (m.get w.packages k) attribute_error
    vs ← versions m w p
    v ← first_allowed vs r
    rest ← choose_each c
    pure (with_version k v rest)

  unfoldable pub find_pkg_dependencies :
      String → ℕ → Handle Package → String → Exec (Cache V) (Option (List (ℕ × String)))
  unfolding find_pkg_dependencies_nested choose_each
  find_pkg_dependencies type fuel p version = do
    own ← or_raise (V.parse_single_constraint version) value_error
    modify (λ c. (p.pk, own) ∷ [])
    returned ← find_pkg_dependencies_nested type fuel p version
    c ← gets (λ c. c)
    if returned then (choose_each c >>= λ l. pure (some l)) else pure none
