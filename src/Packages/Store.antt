-- ===== src/Packages/Store.antt =====
-- The handlers of webserver/app/main/controller/teststore_controller.py that delete a version of a
-- package and uninstall a package. What they remove on the disk is left out.
use auto_test_system.Prelude.{
  ℕ, Bool, not, ◌&&◌, Option, none, some, List, [], ◌∷◌, String, str_eq, opt_eq, remove?, is_empty,
  if◌then◌else◌,
}
use auto_test_system.Exec.{
  Exec, pure, gets, or_respond, or_raise, stop_if, modify, einval, enoent, value_error,
  attribute_error, file_not_found, ◌>>=◌, ◌>>◌,
}
use auto_test_system.Mongo.Defs.{Mongo, find_one}
use auto_test_system.Documents.{Test, Package}
use auto_test_system.World.{World}
use auto_test_system.Queue.{Handle}
use auto_test_system.Util.{Value, js2python_bool, nonempty}
use auto_test_system.Access.{Context, pk_of}
use auto_test_system.Store.{commit_package}
use auto_test_system.Text.{stem}
use auto_test_system.Paths.{Directory}
use auto_test_system.Packages.{get_package_by_version}
use auto_test_system.Packages.Requires.{file_path}

pub record StoreRequest : Type 0 where
  pub proprietary : Value
  pub package_type : Option String
  pub version : Option String
  pub name : Option String

-- A proprietary package belongs to the organization and team, any other to nobody.
unfoldable pub store_query : Context → Bool → String → String → Package → Bool
store_query ctx proprietary type name d =
    str_eq d.name name
    && (if proprietary then d.proprietary else not d.proprietary)
    && str_eq d.package_type type
    && opt_eq d.organization (if proprietary then some ctx.organization.pk else none)
    && opt_eq d.team (if proprietary then pk_of ctx.team else none)

-- `pypi_root`: the directory of the packages that the request is for. `package_info`: the name in the
-- metadata of a package file; `members`: the directories in an archive; `listing`: the entries of a
-- directory of the scripts, `none` where there is no such directory.
module _ (m : Mongo) (pypi_root : Directory) (package_info : Directory → String)
    (members : Directory → List String) (listing : String → Option (List String))
    (ctx : Context) where
  -- The package and the version that a request names.
  unfoldable pub requested : StoreRequest → Exec (World m) (Handle Package × String)
  unfolding store_query
  requested r = do
    type ← or_respond (nonempty r.package_type) einval "Field package_type is required"
    version ← or_respond (nonempty r.version) einval "Field version is required"
    name ← or_respond (nonempty r.name) einval "Field name is required"
    found ←
        gets (λ w. find_one m (store_query ctx (js2python_bool r.proprietary) type name) w.packages)
    p ← or_respond found enoent "Package not found"
    pure (record { pk = p.0; doc = p.1 }, version)

  -- A version remains: the package takes the uploader of its first one.
  unfoldable pub show_latest : Handle Package → Exec (World m) (Unit {0})
  unfolding get_package_by_version
  show_latest p = do
    found ← (λ w. get_package_by_version m w p.doc none w)
    latest ← or_raise found attribute_error
    stop_if (str_eq (package_info (file_path pypi_root p latest)) "") einval
        "Package file not found"
    commit_package m p.pk (λ d. record d { uploader = latest.doc.uploader })

  unfoldable pub delete_package : StoreRequest → Exec (World m) (Unit {0})
  unfolding requested get_package_by_version show_latest
  delete_package r = do
    named ← requested r
    let p = named.0
    found ← (λ w. get_package_by_version m w p.doc (some (named.1)) w)
    file ← or_respond found enoent "Package for the version not found"
    files ← or_raise (remove? file.pk p.doc.files) value_error
    commit_package m p.pk (λ d. record d { files = files })
    if is_empty files
        then modify (λ w. record w { packages = m.delete w.packages p.pk })
        else show_latest (record p { doc = record (p.doc) { files = files } })

  unfoldable pub remove_found : Option (ℕ × Test) → Exec (World m) (Unit {0})
  remove_found none = pure tt
  remove_found (some (k, _)) = modify (λ w. record w { tests = m.delete w.tests k })

  -- The test of each script in the directory; one that has none is only logged.
  unfoldable pub remove_tests : String → List String → Exec (World m) (Unit {0})
  unfolding remove_found
  remove_tests directory [] = pure tt
  remove_tests directory (s ∷ ss) = do
    found ← gets (λ w.
        find_one m
          (λ t.
            str_eq t.test_suite (stem s)
            && str_eq t.path directory
            && opt_eq t.organization (some ctx.organization.pk)
            && opt_eq t.team (pk_of ctx.team))
          w.tests)
    remove_found found
    remove_tests directory ss

  unfoldable pub remove_each : List String → Exec (World m) (Unit {0})
  unfolding remove_tests
  remove_each [] = pure tt
  remove_each (d ∷ ds) = do
    scripts ← or_raise (listing d) file_not_found
    remove_tests d scripts
    remove_each ds

  unfoldable pub uninstall_package : StoreRequest → Exec (World m) (Unit {0})
  unfolding requested remove_each
  uninstall_package r = do
    named ← requested r
    found ← (λ w. get_package_by_version m w (named.0).doc (some (named.1)) w)
    file ← or_raise found attribute_error
    remove_each (members (file_path pypi_root (named.0) file))
