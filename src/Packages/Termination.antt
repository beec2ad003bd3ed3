-- ===== src/Packages/Termination.antt =====
-- `install_test_suite` never goes deeper than the requirements of its first package, since each of them
-- is in `installed` before its own call.
use auto_test_system.Prelude.{
  ℕ, suc, ◌≡◌, ◌≢◌, refl, sym, subst, Bool, true, false, Option, none, some, List, [], ◌∷◌,
  is_empty, String, Bool-cases, inl, inr,
}
use auto_test_system.Exec.{
  Exec, ok, pure, Post, Post-pure, Post-bind_with, Post-bind, Post-bind_still, IsStill,
  bind-IsStill, bind-agree, ◌>>=◌,
}
use auto_test_system.Mongo.Defs.{Mongo}
use auto_test_system.Documents.{Package, PackageFile}
use auto_test_system.World.{World}
use auto_test_system.Queue.{Handle}
use auto_test_system.Access.{Context}
use auto_test_system.Paths.{Directory}
use auto_test_system.Packages.{Versions, get_package_by_version}
use auto_test_system.Packages.Requires.{
  Cache, Found, in_cache, get_package_requires, file_path, or_empty,
}
use auto_test_system.Packages.Resolve.{
  Install, refused, skipped, out_of_fuel, unpack, at_end, install_found, each_on, install_each,
  install_test_suite,
}
use auto_test_system.Packages.Still.{get_package-IsStill}
use auto_test_system.Packages.Cached.{AllKnown, get_package_requires-Grows}

module _ (m : Mongo) (V : Versions) (w : World m) where
  module _ (requires : Directory → Option (List String)) (ctx : Context)
      (pypi_root : Directory) where
    abbrev install : ℕ → Handle Package → Option String → Exec (Cache V) Install
    install = install_test_suite m V requires w ctx pypi_root

    abbrev pub seen : Option (Handle PackageFile) → Install
    seen none = refused
    seen (some f) = skipped

    found_known :
        (self : Handle Package → Option String → Exec (Cache V) Install) (p : Handle Package)
        (first : Bool) (o : Option (Handle PackageFile)) (c : Cache V)
        → in_cache V p.pk c ≡ true
        → install_found m V requires w ctx pypi_root self p first o c ≡ (ok (seen o), c)
    found_known self p first none c h = refl
    found_known self p first (some f) c h = rw h refl

    -- A package that the dictionary names is skipped, or refused where it lacks the version.
    pub install_known :
        (n : ℕ) (p : Handle Package) (v : Option String) (c : Cache V)
        → in_cache V p.pk c ≡ true
        → install (suc n) p v c ≡ (get_package_by_version m w p.doc v >>= λ o. pure (seen o)) c
    unfolding install_test_suite
    install_known n p v c h =
        bind-agree (get_package_by_version m w p.doc v)
          (install_found m V requires w ctx pypi_root (install n) p (is_empty c))
          (λ o. pure (seen o)) c
          (λ o e.
            found_known (install n) p (is_empty c) o _
              (subst (λ t. in_cache V p.pk t ≡ true) (sym (get_package-IsStill m V w p.doc v c)) h))

    abbrev seen_at : Handle Package → Option String → Exec (Cache V) Install
    seen_at p v = get_package_by_version m w p.doc v >>= λ o. pure (seen o)

    seen_at-IsStill : (p : Handle Package) (v : Option String) → IsStill (seen_at p v)
    seen_at-IsStill p v =
        bind-IsStill (get_package_by_version m w p.doc v) (λ o. pure (seen o))
          (get_package-IsStill m V w p.doc v) (λ o c. refl)

    abbrev loop : ℕ → List Found → Exec (Cache V) (Option Install)
    loop n = install_each m V requires w ctx pypi_root (install n)

    abbrev on : ℕ → List Found → Install → Exec (Cache V) (Option Install)
    on n fs = each_on m V requires w ctx pypi_root (loop n fs)

    on_agree :
        (n k : ℕ) (fs : List Found) (c : Cache V) (r : Install)
        → loop n fs c ≡ loop k fs c
        → on n fs r c ≡ on k fs r c
    on_agree n k fs c refused h = refl
    on_agree n k fs c out_of_fuel h = refl
    on_agree n k fs c skipped h = h
    on_agree n k fs c (unpack f) h = h

    -- The fuel below the first call is of no account.
    each_known :
        (n : ℕ) (fs : List Found) (c : Cache V) → AllKnown V c fs → loop (suc n) fs c ≡ loop 1 fs c
    unfolding install_each
    each_known n [] c h = refl
    each_known n ((p, v) ∷ fs) c (h, hs) =
        rw (install_known n p (some v) c h, install_known 0 p (some v) c h)
          (bind-agree (seen_at p (some v)) (on (suc n) fs) (on 1 fs) c (λ r e.
            on_agree (suc n) 1 fs _ r (
              each_known n fs _
                (subst (λ t. AllKnown V t fs) (sym (seen_at-IsStill p (some v) c)) hs))))

    abbrev IsRun : Option Install → Type 0
    IsRun none = Unit
    IsRun (some r) = r ≢ out_of_fuel

    seen-IsRun : (o : Option (Handle PackageFile)) → seen o ≢ out_of_fuel
    seen-IsRun none e = cc
    seen-IsRun (some f) e = cc

    on_returns :
        (fs : List Found) (r : Install) (c : Cache V)
        → r ≢ out_of_fuel
        → Post (λ o d. IsRun o) (loop 1 fs c)
        → Post (λ o d. IsRun o) (on 1 fs r c)
    on_returns fs refused c h k = Post-pure (λ o d. IsRun o) (some refused) c h
    on_returns fs out_of_fuel c h k = Post-pure (λ o d. IsRun o) (some out_of_fuel) c h
    on_returns fs skipped c h k = k
    on_returns fs (unpack f) c h k = k

    each_returns :
        (fs : List Found) (c : Cache V) → AllKnown V c fs → Post (λ o d. IsRun o) (loop 1 fs c)
    unfolding install_each
    each_returns [] c h = Post-pure (λ o d. IsRun o) none c tt
    each_returns ((p, v) ∷ fs) c (h, hs) = rw (install_known 0 p (some v) c h) (
        Post-bind_with (λ o d. IsRun o) (seen_at p (some v)) (on 1 fs) c
          (λ r d. (r ≢ out_of_fuel) × AllKnown V d fs)
          (Post-bind_still (λ r d. (r ≢ out_of_fuel) × AllKnown V d fs)
            (get_package_by_version m w p.doc (some v)) (λ o. pure (seen o)) c
            (get_package-IsStill m V w p.doc (some v))
            (λ o.
              Post-pure (λ r d. (r ≢ out_of_fuel) × AllKnown V d fs) (seen o) c (seen-IsRun o, hs)))
          (λ r d (h, k). on_returns fs r d h (each_returns fs d k)))

    abbrev path_of : Handle Package → Handle PackageFile → Directory
    path_of = file_path pypi_root

    abbrev required : Handle Package → Handle PackageFile → Exec (Cache V) (Option (List Found))
    required p f = get_package_requires m V requires w ctx "Test Suite" (path_of p f)

    abbrev then_install :
        ℕ → Bool → Handle PackageFile → Option (List Found) → Exec (Cache V) Install
    then_install n first f found =
        loop n (or_empty found) >>= λ end. at_end m V requires w ctx pypi_root first f end

    known_after :
        (p : Handle Package) (f : Handle PackageFile) (c : Cache V) (found : Option (List Found))
        → (required p f c).0 ≡ ok found
        → AllKnown V (required p f c).1 (or_empty found)
    known_after p f c found e =
        (get_package_requires-Grows m V w requires ctx "Test Suite" (path_of p f) c found e).1

    found_agree :
        (n : ℕ) (p : Handle Package) (first : Bool) (o : Option (Handle PackageFile)) (c : Cache V)
        → install_found m V requires w ctx pypi_root (install (suc n)) p first o c
          ≡ install_found m V requires w ctx pypi_root (install 1) p first o c
    found_agree n p first none c = refl
    found_agree n p first (some f) c = elim (Bool-cases (in_cache V p.pk c)) [
      | inl known ↦ rw known refl
      | inr fresh ↦ rw fresh (
          bind-agree (required p f) (then_install (suc n) first f) (then_install 1 first f) c
            (λ found e.
              rw (each_known n (or_empty found) (required p f c).1 (known_after p f c found e))
                refl))
    ]

    end_returns :
        (first : Bool) (f : Handle PackageFile) (o : Option Install) (c : Cache V)
        → IsRun o
        → Post (λ r d. r ≢ out_of_fuel) (at_end m V requires w ctx pypi_root first f o c)
    end_returns first f (some r) c h = Post-pure (λ r d. r ≢ out_of_fuel) r c h
    end_returns true f none c h = Post-pure (λ r d. r ≢ out_of_fuel) (unpack f) c (λ e. cc)
    end_returns false f none c h = λ r e. absurd (cc)

    found_returns :
        (p : Handle Package) (first : Bool) (o : Option (Handle PackageFile)) (c : Cache V)
        → Post
            (λ r d. r ≢ out_of_fuel)
            (install_found m V requires w ctx pypi_root (install 1) p first o c)
    found_returns p first none c = Post-pure (λ r d. r ≢ out_of_fuel) refused c (λ e. cc)
    found_returns p first (some f) c = elim (Bool-cases (in_cache V p.pk c)) [
      | inl known ↦ rw known (Post-pure (λ r d. r ≢ out_of_fuel) skipped c (λ e. cc))
      | inr fresh ↦ rw fresh (
          Post-bind_with (λ r d. r ≢ out_of_fuel) (required p f) (then_install 1 first f) c
            (λ found d. AllKnown V d (or_empty found)) (known_after p f c)
            (λ found d h.
              Post-bind_with (λ r d. r ≢ out_of_fuel) (loop 1 (or_empty found))
                (at_end m V requires w ctx pypi_root first f) d (λ o d. IsRun o)
                (each_returns (or_empty found) d h) (λ o t g. end_returns first f o t g)))
    ]

    -- Two levels of calls are enough for `install_test_suite`, whatever packages require each other: more
    -- fuel gives the same run, and it is never spent.
    pub install_terminates :
        (n : ℕ) (p : Handle Package) (v : Option String) (c : Cache V)
        → (install_test_suite m V requires w ctx pypi_root (suc (suc n)) p v c
            ≡ install_test_suite m V requires w ctx pypi_root 2 p v c)
          × ((install_test_suite m V requires w ctx pypi_root 2 p v c).0 ≢ ok out_of_fuel)
    unfolding install_test_suite
    install_terminates n p v c = (
      bind-agree (get_package_by_version m w p.doc v)
          (install_found m V requires w ctx pypi_root (install (suc n)) p (is_empty c))
          (install_found m V requires w ctx pypi_root (install 1) p (is_empty c)) c
          (λ o e. found_agree n p (is_empty c) o _),
      λ e.
          Post-bind (λ r d. r ≢ out_of_fuel) (get_package_by_version m w p.doc v)
            (install_found m V requires w ctx pypi_root (install 1) p (is_empty c)) c
            (λ o d. found_returns p (is_empty c) o d) out_of_fuel e refl,
    )
