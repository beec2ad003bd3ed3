-- ===== src/Packages/Requires.antt =====
-- The requirements of a package: `VERSION_CHECK`, `query_package`, `get_package_requires`, and the
-- recursion of `install_test_suite` and of `find_pkg_dependencies_nested` in
-- webserver/task_runner/util/dbhelper.py. The metadata of an archive is read by third-party code. The
-- functions write nothing to the database before an archive is unpacked, so their state is the
-- dictionary `cached` (`installed`). Unpacking is not modelled.
use Prim.Native.Char.{Char, code}
use Prim.Native.String.{String}
use auto_test_system.Prelude.{
  ℕ, Bool, false, ◌&&◌, ◌||◌, Option, none, some, List, [], ◌∷◌, ◌==◌, str_eq, opt_eq,
  if◌then◌else◌,
}
use auto_test_system.Exec.{Exec, pure, or_raise, attribute_error, value_error, modify, ◌>>=◌, ◌>>◌}
use auto_test_system.Mongo.Defs.{Mongo, find_one}
use auto_test_system.Documents.{Package, PackageFile}
use auto_test_system.World.{World}
use auto_test_system.Queue.{Handle}
use auto_test_system.Util.{nonempty}
use auto_test_system.Access.{Context, pk_of}
use auto_test_system.Text.{starts_with, lstrip, ends_with}
use auto_test_system.Paths.{Directory, opened}
use auto_test_system.Packages.{Versions, meet_version, versions}

-- `\s*(\^|~|==|>=?|><|<=?|!=)` matches at the start.
unfoldable pub begins_constraint : String → Bool
unfolding lstrip starts_with
begins_constraint s =
    let t = lstrip s in
    starts_with "^" t
    || starts_with "~" t
    || starts_with "==" t
    || starts_with ">" t
    || starts_with "<" t
    || starts_with "!=" t

abbrev longer : Char → Option (String × String) → Option (String × String)
longer c none = none
longer c (some (name, constraint)) = some (String.◌∷◌ c name, constraint)

-- `VERSION_CHECK`: the shortest name before a constraint; `none` where there is no match.
unfoldable pub version_check : String → Option (String × String)
unfolding begins_constraint
version_check String.[] = none
version_check (String.◌∷◌ c s) =
    let rest = version_check s in
    if begins_constraint (String.◌∷◌ c s) then some ("", String.◌∷◌ c s) else longer c rest

-- `self.name.replace('-', '_').replace(' ', '_')`
unfoldable pub package_name : String → String
package_name String.[] = ""
package_name (String.◌∷◌ c s) =
    let rest = package_name s in
    String.◌∷◌ (if code c == b'-' || code c == b' ' then "_" else c) rest

abbrev pub has_text : String → List String → Bool
has_text t [] = false
has_text t (x ∷ xs) = str_eq x t || has_text t xs

-- The documents of a query on `py_packages`, `organization`, `team` and `package_type`.
unfoldable pub package_query : String → Option ℕ → Option ℕ → String → Package → Bool
package_query name organization team type d =
    has_text name d.py_packages
    && opt_eq d.organization organization
    && opt_eq d.team team
    && str_eq d.package_type type

abbrev pub last_part : Directory → String
last_part [] = ""
last_part (p ∷ []) = p
last_part (p ∷ q ∷ qs) = last_part (q ∷ qs)

module _ (m : Mongo) (w : World m) (ctx : Context) (type : String) where
  abbrev pub find_package : String → Option ℕ → Option ℕ → Option (Handle Package)
  find_package name organization team =
      elim (find_one m (package_query name organization team type) w.packages) [
        | none ↦ none
        | some (k, d) ↦ some (record { pk = k; doc = d })
      ]

  abbrev or_else : {A : Type 0} → Option A → Option A → Option A
  or_else none b = b
  or_else (some a) b = some a

  -- The package of the team, else of the organization, else of everybody.
  unfoldable pub query_package : String → Option (Handle Package)
  unfolding package_query
  query_package name =
      or_else (find_package name (some ctx.organization.pk) (pk_of ctx.team))
        (or_else (find_package name (some ctx.organization.pk) none) (find_package name none none))

-- `cached`: the range of each package, by its `_id`, in the order of insertion.
abbrev pub Cache : Versions → Type 0
Cache V = List (ℕ × V.Range)

module _ (V : Versions) where
  abbrev pub in_cache : ℕ → Cache V → Bool
  in_cache k [] = false
  in_cache k ((j, r) ∷ c) = j == k || in_cache k c

  -- `cached[package] = ...`: a known package keeps its place, with the intersection.
  abbrev pub narrow : ℕ → V.Range → Cache V → Cache V
  narrow k r [] = (k, r) ∷ []
  narrow k r ((j, s) ∷ c) =
      let rest = narrow k r c in if j == k then (j, V.intersect s r) ∷ c else (j, s) ∷ rest

abbrev pub Found : Type 0
Found = Handle Package × String

-- `pypi_root / package.package_name / pkg_file.filename`
abbrev pub file_path : Directory → Handle Package → Handle PackageFile → Directory
file_path pypi_root p f = opened (opened pypi_root (package_name p.doc.name)) f.doc.filename

-- `if requires: for ... in requires`
abbrev pub or_empty : Option (List Found) → List Found
or_empty none = []
or_empty (some fs) = fs

-- `requires`: the requirements that the metadata of an archive lists; `none` where it is no archive.
module _ (m : Mongo) (V : Versions) (requires : Directory → Option (List String)) (w : World m)
    (ctx : Context) (type : String) where
  abbrev pub paired : Handle Package → Option String → Option Found
  paired p none = none
  paired p (some v) = some (p, v)

  abbrev pub met : Option (Handle Package) → V.Range → Exec (Cache V) (Option Found)
  met none r = pure none
  met (some p) r = do vs ← versions m w p.doc; v ← meet_version V vs r; pure (paired p (nonempty v))

  abbrev pub or_try : Option Found → Exec (Cache V) (Option Found) → Exec (Cache V) (Option Found)
  or_try (some f) next = pure (some f)
  or_try none next = next

  abbrev pub place : String → V.Range → Option ℕ → Option ℕ → Exec (Cache V) (Option Found)
  place name r organization team = met (find_package m w ctx type name organization team) r

  abbrev pub elsewhere : String → V.Range → Option Found → Exec (Cache V) (Option Found)
  elsewhere name r mine = or_try mine (place name r (some ctx.organization.pk) none) >>= λ ours.
      or_try ours (place name r none none)

  -- Three places in turn; a place whose package has no version in the range is passed over.
  unfoldable pub search_package : String → V.Range → Exec (Cache V) (Option Found)
  unfolding versions meet_version package_query
  search_package name r =
      place name r (some ctx.organization.pk) (pk_of ctx.team) >>= λ mine. elsewhere name r mine

  abbrev pub none_missing : Option (List Found) → Found → Option (List Found)
  none_missing none f = none
  none_missing (some fs) f = some (f ∷ fs)

  -- The requirement found goes into the dictionary, before the others are looked for.
  abbrev pub on_found :
      V.Range
      → Exec (Cache V) (Option (List Found))
      → Option Found
      → Exec (Cache V) (Option (List Found))
  on_found range others none = pure none
  on_found range others (some f) =
      modify (narrow V f.0.pk range) >> (others >>= λ fs. pure (none_missing fs f))

  -- The loop of `get_package_requires`; `none` is its early return.
  unfoldable pub each_requirement : List String → Exec (Cache V) (Option (List Found))
  unfolding search_package version_check
  each_requirement [] = pure (some [])
  each_requirement (r ∷ rs) = or_raise (version_check r) attribute_error >>= λ parsed.
      or_raise (V.parse_constraint parsed.1) value_error >>= λ range.
      search_package parsed.0 range >>= λ found. on_found range (each_requirement rs) found

  unfoldable pub get_package_requires : Directory → Exec (Cache V) (Option (List Found))
  unfolding each_requirement ends_with
  get_package_requires path = elim (requires path) [
    | none ↦ pure none
    | some rs ↦ if ends_with ".egg" (last_part path) then each_requirement rs else pure none
  ]
