-- ===== src/Packages/Cycle.antt =====
-- Packages that require each other, in `find_pkg_dependencies_nested`.
use auto_test_system.Prelude.{ℕ, zero, suc, ◌≡◌, refl, false, Option, some, List, ◌∷◌, String}
use auto_test_system.Exec.{ok}
use auto_test_system.Mongo.Defs.{Mongo}
use auto_test_system.Documents.{PackageFile}
use auto_test_system.World.{World}
use auto_test_system.Queue.{Handle}
use auto_test_system.Access.{Context}
use auto_test_system.Paths.{Directory}
use auto_test_system.Packages.{Versions, get_package_by_version}
use auto_test_system.Packages.Requires.{Cache, Found, get_package_requires, file_path}
use auto_test_system.Packages.Resolve.{nested_each, find_pkg_dependencies_nested}

module _ (m : Mongo) (V : Versions) (requires : Directory → Option (List String)) (w : World m)
    (ctx : Context) (pypi_root : Directory) (type : String) where
  -- Packages each of which has the next one as its first requirement; a cycle gives such a chain, of
  -- which the members come again and again.
  pub record IsChain (chain : ℕ → Found) : Type 0 where
    pub file : ℕ → Handle PackageFile
    pub located :
        (i : ℕ) (c : Cache V)
        → get_package_by_version m w (chain i).0.doc (some (chain i).1) c ≡ (ok (some (file i)), c)
    pub others : ℕ → List Found
    pub narrowed : ℕ → Cache V → Cache V
    pub required :
        (i : ℕ) (c : Cache V)
        → get_package_requires m V requires w ctx type (file_path pypi_root (chain i).0 (file i)) c
          ≡ (ok (some (chain (suc i) ∷ others i)), narrowed i c)

  -- On such a chain `find_pkg_dependencies_nested` never returns: any fuel is spent.
  pub nested_diverges :
      (chain : ℕ → Found)
      → IsChain chain
      → (fuel i : ℕ) (c : Cache V)
      → (find_pkg_dependencies_nested m V requires w ctx pypi_root type fuel
          (chain i).0
          (chain i).1
          c).0
        ≡ ok false
  unfolding find_pkg_dependencies_nested nested_each
  nested_diverges chain h zero i c = refl
  nested_diverges chain h (suc n) i c =
      rw (h.located i c)
        (rw (h.required i c) (rw (nested_diverges chain h n (suc i) (h.narrowed i c)) refl))
