-- ===== src/Packages.antt =====
-- The packages of tests: the methods of Package in webserver/app/main/model/database.py, and the choice
-- of versions in webserver/task_runner/util/dbhelper.py. The comparison of versions, the parser of
-- constraints and the ranges are third-party code: an interface.
pub mod Order
pub mod Newest
pub mod Requires
pub mod Resolve
pub mod Still
pub mod Cached
pub mod Termination
pub mod Unpacked
pub mod Cycle
pub mod Store
use auto_test_system.Prelude.{
  ℕ, Bool, true, false, not, ◌&&◌, ◌||◌, Option, none, some, List, [], ◌∷◌, ◌++◌, ◌==◌, String,
  str_eq, opt_eq, present, if◌then◌else◌,
}
use auto_test_system.Exec.{
  Exec, pure, raise, gets, or_raise, document_missing, assertion_error, value_error, modify, ok,
  ◌>>=◌, ◌>>◌,
}
use auto_test_system.Mongo.Defs.{Mongo, find_one}
use auto_test_system.Documents.{Package, PackageFile}
use auto_test_system.World.{World}
use auto_test_system.Store.{commit_package}
use auto_test_system.Queue.{Handle}
use auto_test_system.Access.{Context, pk_of}

pub record Versions : Type 1 where
  -- the versions that a constraint allows
  pub Range : Type 0
  -- `parse_version(a) <= parse_version(b)`
  pub at_most : String → String → Bool
  -- `none` is the `ValueError` of a malformed text
  pub parse_single_constraint : String → Option Range
  pub parse_constraint : String → Option Range
  pub intersect : Range → Range → Range
  pub is_empty : Range → Bool

-- Whether a version meets a range; `none` where it does not parse.
abbrev pub meets : (V : Versions) → String → V.Range → Option Bool
meets V v r = elim (V.parse_single_constraint v) [
  | none ↦ none
  | some x ↦ some (not (V.is_empty (V.intersect x r)))
]

module _ (V : Versions) {S : Type 0} where
  unfoldable pub first_meeting : List String → V.Range → Exec S (Option String)
  first_meeting [] r = pure none
  first_meeting (v ∷ vs) r = do
    fits ← or_raise (meets V v r) value_error
    if fits then pure (some v) else first_meeting vs r

  unfoldable pub meet_version : List String → V.Range → Exec S (Option String)
  unfolding first_meeting
  meet_version [] r = raise assertion_error
  meet_version (v ∷ vs) r = first_meeting (v ∷ vs) r

-- `pairs.sort(key=..., reverse=True)`: descending, and equal versions keep their order.
module _ (V : Versions) {F : Type 0} (version_of : F → String) where
  abbrev pub insert : F → List F → List F
  insert f [] = f ∷ []
  insert f (g ∷ gs) =
      let rest = insert f gs in
      if V.at_most (version_of g) (version_of f) then f ∷ g ∷ gs else g ∷ rest

  unfoldable pub sort_files : List F → List F
  sort_files [] = []
  sort_files (f ∷ fs) = insert f (sort_files fs)

module _ (m : Mongo) where
  abbrev pub fetch_file : {S : Type 0} → World m → ℕ → Exec S (Handle PackageFile)
  fetch_file w k = elim (m.get w.package_files k) [
    | none ↦ raise document_missing
    | some d ↦ pure (record { pk = k; doc = d })
  ]

  -- The first file with that version.
  unfoldable pub file_with :
      {S : Type 0} → World m → String → List ℕ → Exec S (Option (Handle PackageFile))
  file_with w v [] = pure none
  file_with w v (k ∷ ks) = do
    f ← fetch_file w k
    if str_eq f.doc.version v then pure (some f) else file_with w v ks

  abbrev pub first_file : {S : Type 0} → World m → List ℕ → Exec S (Option (Handle PackageFile))
  first_file w [] = pure none
  first_file w (k ∷ ks) = fetch_file w k >>= λ f. pure (some f)

  -- Without a version it is the first file; a package without files has none.
  unfoldable pub get_package_by_version :
      {S : Type 0} → World m → Package → Option String → Exec S (Option (Handle PackageFile))
  unfolding file_with
  get_package_by_version w p none = first_file w p.files
  get_package_by_version w p (some v) = file_with w v p.files

  unfoldable pub fetch_files : {S : Type 0} → World m → List ℕ → Exec S (List (Handle PackageFile))
  fetch_files w [] = pure []
  fetch_files w (k ∷ ks) = do f ← fetch_file w k; fs ← fetch_files w ks; pure (f ∷ fs)

  abbrev pub versions_of : List (Handle PackageFile) → List String
  versions_of [] = []
  versions_of (f ∷ fs) = f.doc.version ∷ versions_of fs

  unfoldable pub versions : {S : Type 0} → World m → Package → Exec S (List String)
  unfolding fetch_files
  versions w p = fetch_files w p.files >>= λ fs. pure (versions_of fs)

  abbrev pub pks : {D : Type 0} → List (Handle D) → List ℕ
  pks [] = []
  pks (f ∷ fs) = f.pk ∷ pks fs

  -- `sort` and its `commit`
  unfoldable pub sort : (V : Versions) → ℕ → Package → Exec (World m) (Unit {0})
  unfolding fetch_files sort_files commit_package
  sort V pk p w =
      (do
        fs ← fetch_files w p.files
        commit_package m pk (λ d. record d { files = pks (sort_files V (λ f. f.doc.version) fs) }))
        w
