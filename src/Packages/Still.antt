-- ===== src/Packages/Still.antt =====
-- The reads of a package's files leave the dictionary as it is.
use auto_test_system.Prelude.{
  str_eq, ℕ, refl, Bool, true, false, Option, none, some, List, [], ◌∷◌, String, if◌then◌else◌,
  Option-cases, inl, inr,
}
use auto_test_system.Exec.{
  Exec, pure, or_raise, IsStill, bind-IsStill, or_raise-IsStill, value_error,
}
use auto_test_system.Mongo.Defs.{Mongo}
use auto_test_system.Documents.{Package}
use auto_test_system.World.{World}
use auto_test_system.Packages.{
  Versions, meets, versions, fetch_file, fetch_files, get_package_by_version, file_with, first_file,
  first_meeting, meet_version,
}
use auto_test_system.Packages.Requires.{Cache}

module _ (m : Mongo) (V : Versions) (w : World m) where
  pub fetch_file-IsStill : (k : ℕ) → IsStill {S = Cache V} (fetch_file m w k)
  fetch_file-IsStill k c = elim (Option-cases (m.get w.package_files k)) [
    | inl e ↦ rw (e, fetch_file) refl
    | inr (d, e) ↦ rw (e, fetch_file) refl
  ]

  fetch_files-IsStill : (ks : List ℕ) → IsStill {S = Cache V} (fetch_files m w ks)
  unfolding fetch_files
  fetch_files-IsStill [] c = refl
  fetch_files-IsStill (k ∷ ks) c =
      bind-IsStill (fetch_file m w k) _ (fetch_file-IsStill k)
        (λ f. bind-IsStill (fetch_files m w ks) _ (fetch_files-IsStill ks) (λ fs c. refl)) c

  pub versions-IsStill : (p : Package) → IsStill {S = Cache V} (versions m w p)
  unfolding versions
  versions-IsStill p =
      bind-IsStill (fetch_files m w p.files) _ (fetch_files-IsStill p.files) (λ fs c. refl)

  pub if-IsStill :
      (b : Bool) {A : Type 0} (e f : Exec (Cache V) A)
      → IsStill e
      → IsStill f
      → IsStill (if b then e else f)
  if-IsStill true e f h k = h
  if-IsStill false e f h k = k

  first_meeting-IsStill :
      (vs : List String) (r : V.Range) → IsStill {S = Cache V} (first_meeting V vs r)
  unfolding first_meeting
  first_meeting-IsStill [] r c = refl
  first_meeting-IsStill (v ∷ vs) r c =
      bind-IsStill (or_raise (meets V v r) value_error) _
        (or_raise-IsStill (meets V v r) value_error)
        (λ fits.
          if-IsStill fits (pure (some v)) (first_meeting V vs r) (λ c. refl)
            (first_meeting-IsStill vs r))
        c

  pub meet_version-IsStill :
      (vs : List String) (r : V.Range) → IsStill {S = Cache V} (meet_version V vs r)
  unfolding meet_version
  meet_version-IsStill [] r c = refl
  meet_version-IsStill (v ∷ vs) r c = first_meeting-IsStill (v ∷ vs) r c

  file_with-IsStill : (v : String) (ks : List ℕ) → IsStill {S = Cache V} (file_with m w v ks)
  unfolding file_with
  file_with-IsStill v [] c = refl
  file_with-IsStill v (k ∷ ks) c =
      bind-IsStill (fetch_file m w k)
        (λ f. if str_eq f.doc.version v then pure (some f) else file_with m w v ks)
        (fetch_file-IsStill k)
        (λ f.
          if-IsStill (str_eq f.doc.version v) (pure (some f)) (file_with m w v ks) (λ c. refl)
            (file_with-IsStill v ks))
        c

  first_file-IsStill : (ks : List ℕ) → IsStill {S = Cache V} (first_file m w ks)
  first_file-IsStill [] c = refl
  first_file-IsStill (k ∷ ks) c =
      bind-IsStill (fetch_file m w k) (λ f. pure (some f)) (fetch_file-IsStill k) (λ f c. refl) c

  pub get_package-IsStill :
      (p : Package) (v : Option String) → IsStill {S = Cache V} (get_package_by_version m w p v)
  unfolding get_package_by_version
  get_package-IsStill p none = first_file-IsStill p.files
  get_package-IsStill p (some v) = file_with-IsStill v p.files
