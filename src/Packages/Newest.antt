-- ===== src/Packages/Newest.antt =====
-- `meet_version` on the files of a package after `sort`.
use auto_test_system.Prelude.{
  ◌≡◌, refl, true, false, Option, none, some, List, [], ◌∷◌, String, Bool-cases, Option-cases, inl,
  inr, present, is_empty,
}
use auto_test_system.Exec.{ok}
use auto_test_system.Documents.{PackageFile}
use auto_test_system.Queue.{Handle}
use auto_test_system.Mongo.Defs.{Mongo}
use auto_test_system.Packages.{
  Versions, insert, meets, first_meeting, meet_version, sort_files, versions_of,
}
use auto_test_system.Packages.Order.{
  IsOrder, All, All-sort, All-sort_back, IsDescending, at_most_self, sort_files-IsDescending,
}

abbrev pub version_of : Handle PackageFile → String
version_of f = f.doc.version

module _ (m : Mongo) (V : Versions) (O : IsOrder V) (r : V.Range) where
  abbrev pub IsNewest : List (Handle PackageFile) → Option String → Type 0
  IsNewest fs (some v) =
      (meets V v r ≡ some true)
      × All (λ f. meets V (version_of f) r ≡ some true → V.at_most (version_of f) v ≡ true) fs
  IsNewest fs none = All (λ f. meets V (version_of f) r ≡ some false) fs

  abbrev pub Parses : Handle PackageFile → Type 0
  Parses f = present (meets V (version_of f) r) ≡ true

  All-mono :
      {P Q : Handle PackageFile → Type 0} (fs : List (Handle PackageFile))
      → ((f : Handle PackageFile) → P f → Q f)
      → All P fs
      → All Q fs
  All-mono [] h k = tt
  All-mono (f ∷ fs) h (k, ks) = (h f k, All-mono fs h ks)

  IsNewest-cons :
      (f : Handle PackageFile) (fs : List (Handle PackageFile)) (o : Option String)
      → meets V (version_of f) r ≡ some false
      → IsNewest fs o
      → IsNewest (f ∷ fs) o
  IsNewest-cons f fs none e h = (e, h)
  IsNewest-cons f fs (some v) e (h, k) = (h, ((λ meeting. cc), k))

  first_meeting-IsNewest :
      {S : Type 0} (s : S) (fs : List (Handle PackageFile))
      → IsDescending V version_of fs
      → All Parses fs
      → (o : Option String) × (first_meeting V (versions_of m fs) r s ≡ (ok o, s)) × IsNewest fs o
  unfolding first_meeting
  first_meeting-IsNewest s [] d h = (none, refl, tt)
  first_meeting-IsNewest s (f ∷ fs) (below, rest) (h, hs) =
      elim (Option-cases (meets V (version_of f) r)) [
        | inl e ↦ absurd (cc)
        | inr (true, e) ↦ (
          some (version_of f),
          rw e refl,
          (e, ((λ meeting. at_most_self V O (version_of f)), All-mono fs (λ g k meeting. k) below)),
        )
        | inr (false, e) ↦
            let (o, same, newest) = first_meeting-IsNewest s fs rest hs in
            (o, rw e same, IsNewest-cons f fs o e newest)
      ]

  IsNewest-unsort :
      (fs : List (Handle PackageFile)) (o : Option String)
      → IsNewest (sort_files V version_of fs) o
      → IsNewest fs o
  IsNewest-unsort fs none h =
      All-sort_back V version_of (λ f. meets V (version_of f) r ≡ some false) fs h
  IsNewest-unsort fs (some v) (e, h) = (
    e,
    All-sort_back V version_of
        (λ f. meets V (version_of f) r ≡ some true → V.at_most (version_of f) v ≡ true) fs h,
  )

  meet_version-first :
      {S : Type 0} (s : S) (fs : List (Handle PackageFile)) (o : Option String)
      → is_empty fs ≡ false
      → first_meeting V (versions_of m fs) r s ≡ (ok o, s)
      → meet_version V (versions_of m fs) r s ≡ (ok o, s)
  unfolding meet_version
  meet_version-first s [] o h e = absurd (cc)
  meet_version-first s (f ∷ fs) o h e = e

  is_empty-insert :
      (f : Handle PackageFile) (fs : List (Handle PackageFile))
      → is_empty (insert V version_of f fs) ≡ false
  is_empty-insert f [] = refl
  is_empty-insert f (g ∷ gs) = elim (Bool-cases (V.at_most (version_of g) (version_of f))) [
    | inl first ↦ rw first refl
    | inr later ↦ rw later refl
  ]

  is_empty-sort :
      (fs : List (Handle PackageFile))
      → is_empty fs ≡ false
      → is_empty (sort_files V version_of fs) ≡ false
  unfolding sort_files
  is_empty-sort [] h = absurd (cc)
  is_empty-sort (f ∷ fs) h = is_empty-insert f (sort_files V version_of fs)

  -- On the sorted files of a package that has some, all with versions that parse, `meet_version` returns
  -- a version that meets the range, and no file that meets it is newer; it returns `None` only where no
  -- file meets the range.
  pub meet_version-IsNewest :
      {S : Type 0} (s : S) (fs : List (Handle PackageFile))
      → is_empty fs ≡ false
      → All Parses fs
      → (o : Option String) × (meet_version V (versions_of m (sort_files V version_of fs)) r s
          ≡ (ok o, s))
        × IsNewest fs o
  meet_version-IsNewest s fs h parse =
      let gs = sort_files V version_of fs in
      let (o, same, newest) =
        first_meeting-IsNewest s gs (sort_files-IsDescending V version_of O fs).0
          (All-sort V version_of Parses fs parse) in
      (o, meet_version-first s gs o (is_empty-sort fs h) same, IsNewest-unsort fs o newest)
