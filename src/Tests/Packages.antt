-- ===== src/Tests/Packages.antt =====
-- The theorems on packages: versions that are ordered by their length, and packages that require each
-- other.
use Prim.Native.String as S
use auto_test_system.Prelude.{
  ℕ, ◌≡◌, ◌≢◌, refl, false, Option, some, List, [], ◌∷◌, String, leb, not, arith, if◌then◌else◌,
}
use auto_test_system.Exec.{ok}
use auto_test_system.Documents.{Package, PackageFile}
use auto_test_system.Mongo.Defs.{find_one}
use auto_test_system.Mongo.Assoc.{assoc}
use auto_test_system.Queue.{Handle}
use auto_test_system.Paths.{Directory, opened, parts, root}
use auto_test_system.Packages.{
  Versions, sort_files, meet_version, versions_of, get_package_by_version,
}
use auto_test_system.Packages.Order.{IsOrder}
use auto_test_system.Packages.Newest.{IsNewest, version_of, meet_version-IsNewest}
use auto_test_system.Packages.Requires.{
  narrow, get_package_requires, each_requirement, package_name,
}
use auto_test_system.Packages.Resolve.{
  install_test_suite, out_of_fuel, find_pkg_dependencies_nested,
}
use auto_test_system.Packages.Unpacked.{NoneUnpacked, requirements_not_unpacked}
use auto_test_system.Packages.Termination.{install_terminates}
use auto_test_system.Packages.Cycle.{IsChain, nested_diverges}
use auto_test_system.Tests.Shelf.{file, pkg, shelf, ctx}

-- A version is as new as its text is long, and a range is an interval of lengths.
abbrev by_length : Versions
by_length = record {
  Range = ℕ × ℕ;
  at_most = λ a b. leb (S.len a) (S.len b);
  parse_single_constraint = λ v. some (S.len v, S.len v);
  parse_constraint = λ s. some (S.len s, 100);
  intersect = λ r s. (if leb (r.0) (s.0) then s.0 else r.0, if leb (r.1) (s.1) then r.1 else s.1);
  is_empty = λ r. not (leb (r.0) (r.1));
}

by_length-IsOrder : IsOrder by_length
by_length-IsOrder = record { total = λ a b h. ground arith; trans = λ a b c h k. ground arith }

abbrev three : List (Handle PackageFile)
three = file 1 "1" ∷ file 2 "111" ∷ file 3 "11" ∷ []

meet_version-IsNewest_example :
    (o : Option String) × (meet_version by_length
        (versions_of assoc (sort_files by_length version_of three))
        (1, 2)
        tt
      ≡ (ok o, tt))
    × IsNewest assoc by_length by_length-IsOrder (1, 2) three o
meet_version-IsNewest_example =
    meet_version-IsNewest assoc by_length by_length-IsOrder (1, 2) tt three refl
      (refl, (refl, (refl, tt)))

-- Every archive requires "a" itself.
abbrev itself : Directory → Option (List String)
itself path = some ("a>1" ∷ [])

abbrev store : Directory
store = "pypi" ∷ []

abbrev own : Handle Package
own = record { pk = 1; doc = pkg }

install_terminates_example :
    (install_test_suite assoc by_length itself shelf ctx store 7 own (some "11") []
      ≡ install_test_suite assoc by_length itself shelf ctx store 2 own (some "11") [])
    × ((install_test_suite assoc by_length itself shelf ctx store 2 own (some "11") []).0
        ≢ ok out_of_fuel)
install_terminates_example =
    install_terminates assoc by_length shelf itself ctx store 5 own (some "11") []

abbrev egg : Directory
egg = "pypi" ∷ "a" ∷ "a.egg" ∷ []

requirements_not_unpacked_example :
    NoneUnpacked assoc by_length shelf itself ctx store
      (get_package_requires assoc by_length itself shelf ctx "Test Suite" egg []).1
      ((own, "11") ∷ [])
unfolding get_package_requires each_requirement find_one
requirements_not_unpacked_example =
    requirements_not_unpacked assoc by_length shelf itself ctx store egg []
      (some ((own, "11") ∷ [])) refl

circle : IsChain assoc by_length itself shelf ctx store "Test Suite" (λ i. (own, "11"))
unfolding get_package_by_version get_package_requires each_requirement opened root parts
    package_name find_one
circle = record {
  file = λ i. file 1 "11";
  located = λ i c. refl;
  others = λ i. [];
  narrowed = λ i c. narrow by_length 1 (2, 100) c;
  required = λ i c. refl;
}

nested_diverges_example :
    (find_pkg_dependencies_nested assoc by_length itself shelf ctx store "Test Suite" 1000 own "11"
      []).0
    ≡ ok false
nested_diverges_example =
    nested_diverges assoc by_length itself shelf ctx store "Test Suite" (λ i. (own, "11")) circle
      1000 0 []
