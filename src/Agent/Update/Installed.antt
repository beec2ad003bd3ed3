-- ===== src/Agent/Update/Installed.antt =====
-- What an update of endpoint/test_endpoint/update.py leaves of the installation.
use auto_test_system.Prelude.{
  ◌≡◌, refl, Bool, true, false, none, some, List, ◌==◌, String, ◌<>◌, str_eq, eq_iff, if◌then◌else◌,
  ◌⊎◌, inl, inr, Bool-cases, Option-cases,
}
use auto_test_system.Text.{strip}
use auto_test_system.Exec.{
  Result, ok, raised, Exn, ◌>>=◌, os_error, file_exists, runtime_error, http_error,
}
use auto_test_system.Agent.Update.{
  Fetched, body, failed, Releases, Home, Removal, Copying, stale, replaced, restored, final, saving,
  restoring, release_name, install_release, remove_backup, install, make_bin, update,
}

Fetched-cases : (f : Fetched) → ((t : String) × (f ≡ body t)) ⊎ ((n : _) × (f ≡ failed n))
Fetched-cases (body t) = inl (t, refl)
Fetched-cases (failed n) = inr (n, refl)

module _ (r : Releases) where
  -- The release's archive has the hash of its checksum file, and unpacks to those files: all of them
  -- or, where the unpacking breaks off, those that were written.
  abbrev pub IsUnpacked : String → List String → Bool → Type 0
  IsUnpacked version files whole =
      (checksum : String) × (archive : String) × (r.fetch
          ("file=" <> release_name r version <> ".sha256sum")
        ≡ body checksum)
      × (r.fetch ("file=" <> release_name r version <> ".tar.gz") ≡ body archive)
      × (strip checksum ≡ r.sha256 archive)
      × (r.unpack archive ≡ some (files, whole))

  -- No removal and no copy of a directory fails.
  abbrev pub IsSmooth : Type 0
  IsSmooth =
      ((place : Removal) → (files : List String) → r.rmtree place files ≡ none)
      × ((place : Copying) → (files : List String) → r.copytree place files ≡ none)

  -- How an update over an installation ends: the new files with a result of `make_bin`, the old ones and
  -- an exception, or what an unpacking wrote before it broke off.
  abbrev pub IsOutcome : String → List String → Result (Unit {0}) × Home → Type 0
  IsOutcome version old p =
      ((files : List String) × IsUnpacked version files true
        × (p ≡ make_bin r.make_bin (record { lib = some files; lib_backup = none })))
      ⊎ ((e : Exn) × (p ≡ (raised e, record { lib = some old; lib_backup = none })))
      ⊎ ((files : List String) × IsUnpacked version files false
          × (p ≡ (raised file_exists, record { lib = some files; lib_backup = none })))

  abbrev IsInstalled : String → Home → Result (Unit {0}) × Home → Type 0
  IsInstalled version h p =
      ((e : Exn) × (p ≡ (raised e, h)))
      ⊎ ((files : List String) × (whole : Bool) × IsUnpacked version files whole
          × (p ≡ (if whole then ok tt else raised os_error, record h { lib = some files })))

  install-IsInstalled :
      (version : String) (h : Home)
      → h.lib ≡ none
      → IsInstalled version h (install_release r version h)
  unfolding install_release
  install-IsInstalled version h e =
      elim (Fetched-cases (r.fetch ("file=" <> release_name r version <> ".sha256sum"))) [
        | inr (n, f) ↦ inl (if n == 404 then runtime_error else http_error, rw f refl)
        | inl (checksum, f) ↦
            elim (Fetched-cases (r.fetch ("file=" <> release_name r version <> ".tar.gz"))) [
              | inr (n, g) ↦ inl (if n == 404 then runtime_error else http_error, rw (f, g) refl)
              | inl (archive, g) ↦ elim (Bool-cases (str_eq (strip checksum) (r.sha256 archive))) [
                | inr d ↦ inl (runtime_error, rw (f, g, d) refl)
                | inl d ↦ elim (Option-cases (r.unpack archive)) [
                  | inl u ↦ inl (os_error, rw (f, g, d, u) refl)
                  | inr ((files, whole), u) ↦ inr (
                    files,
                    whole,
                    (checksum, archive, f, g, (eq_iff (strip checksum) (r.sha256 archive)).0 d, u),
                    rw (f, g, d, u, e) refl,
                  )
                ]
              ]
            ]
      ]

  install-saved :
      (version : String) (old : List String)
      → IsSmooth
      → IsOutcome version old (
          (install r version >>= (λ _. make_bin r.make_bin))
            (record { lib = none; lib_backup = some old }))
  install-saved version old (removes, copies) =
      let h : Home = record { lib = none; lib_backup = some old } in
      elim (install-IsInstalled version h refl) [
        | inl (x, same) ↦ inr (inl (x, rw (same, copies restoring old, removes restored old) refl))
        | inr (files, true, unpacked, same) ↦
            inl (files, unpacked, rw (same, removes final old) refl)
        | inr (files, false, unpacked, same) ↦
            inr (inr (files, unpacked, rw (same, removes final old) refl))
      ]

  remove_stale :
      (h : Home)
      → ((files : List String) → r.rmtree stale files ≡ none)
      → remove_backup r stale h ≡ (ok tt, record { lib = h.lib; lib_backup = none })
  remove_stale h removes = elim (Option-cases h.lib_backup) [
    | inl e ↦ rw e refl
    | inr (files, e) ↦ rw (e, removes files) refl
  ]

  -- An update over an installation in which no removal and no copy of a directory fails ends in one of
  -- three ways, each without a backup: the files are those of an archive whose hash matches its checksum
  -- file, and the update returns or raises as `make_bin` does; it raises and the old files are back; or it
  -- raises FileExistsError because the unpacking of such an archive broke off, and only what that wrote is
  -- left.
  pub update-IsOutcome :
      (version : String) (h : Home) (old : List String)
      → IsSmooth
      → h.lib ≡ some old
      → IsOutcome version old (update r version h)
  unfolding update
  update-IsOutcome version h old (removes, copies) e =
      rw (remove_stale h (removes stale), e, copies saving old, removes replaced old)
        (install-saved version old (removes, copies))
