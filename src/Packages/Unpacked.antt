-- ===== src/Packages/Unpacked.antt =====
-- A requirement that is in `installed` is not unpacked.
use auto_test_system.Prelude.{
  ℕ, zero, suc, ◌≡◌, ◌≢◌, refl, true, Option, none, some, List, [], ◌∷◌, String,
}
use auto_test_system.Exec.{ok, pure, Post-pure, Post-bind}
use auto_test_system.Mongo.Defs.{Mongo}
use auto_test_system.Documents.{Package, PackageFile}
use auto_test_system.World.{World}
use auto_test_system.Queue.{Handle}
use auto_test_system.Access.{Context}
use auto_test_system.Paths.{Directory}
use auto_test_system.Packages.{Versions, get_package_by_version}
use auto_test_system.Packages.Requires.{Cache, Found, in_cache, get_package_requires, or_empty}
use auto_test_system.Packages.Resolve.{Install, unpack, install_test_suite}
use auto_test_system.Packages.Cached.{AllKnown, get_package_requires-Grows}
use auto_test_system.Packages.Termination.{seen, install_known}

module _ (m : Mongo) (V : Versions) (w : World m) (requires : Directory → Option (List String))
    (ctx : Context) (pypi_root : Directory) where
  abbrev seen_as : Option (Handle PackageFile) → Install
  seen_as = seen m V w requires ctx pypi_root

  abbrev pub NoneUnpacked : Cache V → List Found → Type 0
  NoneUnpacked c [] = Unit
  NoneUnpacked c ((p, v) ∷ fs) =
      ((n : ℕ) (f : Handle PackageFile)
        → (install_test_suite m V requires w ctx pypi_root n p (some v) c).0 ≢ ok (unpack f))
      × NoneUnpacked c fs

  seen_not_unpacked :
      (o : Option (Handle PackageFile)) (f : Handle PackageFile) → seen_as o ≢ unpack f
  seen_not_unpacked none f e = cc
  seen_not_unpacked (some g) f e = cc

  known_not_unpacked :
      (n : ℕ) (p : Handle Package) (v : Option String) (c : Cache V) (f : Handle PackageFile)
      → in_cache V p.pk c ≡ true
      → (install_test_suite m V requires w ctx pypi_root n p v c).0 ≢ ok (unpack f)
  unfolding install_test_suite
  known_not_unpacked zero p v c f h e = cc
  known_not_unpacked (suc n) p v c f h e =
      Post-bind (λ r d. r ≢ unpack f) (get_package_by_version m w p.doc v) (λ o. pure (seen_as o)) c
        (λ o d. Post-pure (λ r d. r ≢ unpack f) (seen_as o) d (seen_not_unpacked o f)) (unpack f)
        (rw (install_known m V w requires ctx pypi_root n p v c h) at e) refl

  all_not_unpacked : (c : Cache V) (fs : List Found) → AllKnown V c fs → NoneUnpacked c fs
  all_not_unpacked c [] h = tt
  all_not_unpacked c ((p, v) ∷ fs) (h, hs) =
      ((λ n f. known_not_unpacked n p (some v) c f h), all_not_unpacked c fs hs)

  -- No requirement that `get_package_requires` has returned is unpacked by its own call of
  -- `install_test_suite` at that dictionary.
  pub requirements_not_unpacked :
      (path : Directory) (c : Cache V) (found : Option (List Found))
      → (get_package_requires m V requires w ctx "Test Suite" path c).0 ≡ ok found
      → NoneUnpacked
          (get_package_requires m V requires w ctx "Test Suite" path c).1
          (or_empty found)
  requirements_not_unpacked path c found e =
      all_not_unpacked (get_package_requires m V requires w ctx "Test Suite" path c).1
        (or_empty found)
        (get_package_requires-Grows m V w requires ctx "Test Suite" path c found e).1
