-- ===== src/Packages/Cached.antt =====
-- What `get_package_requires` leaves in the dictionary `cached`.
use auto_test_system.Prelude.{
  ℕ, ◌≡◌, refl, true, ◌||◌, Option, none, some, List, [], ◌∷◌, String, arith, Bool-cases,
  Option-cases, inl, inr, ==_refl, ==_iff, ◌==◌,
}
use auto_test_system.Exec.{
  Exec, pure, or_raise, Post, Post-bind_with, Post-pure, IsStill, attribute_error, bind-IsStill,
  or_raise-IsStill, Post-bind_still, value_error, ◌>>=◌,
}
use auto_test_system.Mongo.Defs.{Mongo}
use auto_test_system.Documents.{Package}
use auto_test_system.World.{World}
use auto_test_system.Queue.{Handle}
use auto_test_system.Access.{Context, pk_of}
use auto_test_system.Text.{ends_with}
use auto_test_system.Paths.{Directory}
use auto_test_system.Packages.{Versions, versions, meet_version}
use auto_test_system.Packages.Requires.{
  Cache, Found, met, or_try, place, elsewhere, search_package, find_package, version_check,
  last_part, on_found, none_missing, in_cache, narrow, get_package_requires, each_requirement,
  or_empty,
}
use auto_test_system.Packages.Still.{versions-IsStill, meet_version-IsStill}

module _ (V : Versions) where
  in_cache-narrow :
      (k j : ℕ) (r : V.Range) (c : Cache V)
      → in_cache V j (narrow V k r c) ≡ (k == j || in_cache V j c)
  in_cache-narrow k j r [] = refl
  in_cache-narrow k j r ((i, s) ∷ c) = grind (arith, in_cache-narrow k j r c, ==_iff)

  -- Every package of the list is in the dictionary.
  abbrev pub AllKnown : Cache V → List Found → Type 0
  AllKnown c [] = Unit
  AllKnown c (f ∷ fs) = (in_cache V f.0.pk c ≡ true) × AllKnown c fs

  AllKnown-mono :
      (c d : Cache V) (fs : List Found)
      → ((j : ℕ) → in_cache V j c ≡ true → in_cache V j d ≡ true)
      → AllKnown c fs
      → AllKnown d fs
  AllKnown-mono c d [] h k = tt
  AllKnown-mono c d (f ∷ fs) h (k, ks) = (h f.0.pk k, AllKnown-mono c d fs h ks)

module _ (m : Mongo) (V : Versions) (w : World m) where
  module _ (requires : Directory → Option (List String)) (ctx : Context) (type : String) where
    met-IsStill :
        (p : Option (Handle Package)) (r : V.Range) → IsStill (met m V requires w ctx type p r)
    met-IsStill none r c = refl
    met-IsStill (some p) r c =
        bind-IsStill (versions m w p.doc) _ (versions-IsStill m V w p.doc)
          (λ vs.
            bind-IsStill (meet_version V vs r) _ (meet_version-IsStill m V w vs r) (λ v c. refl))
          c

    or_try-IsStill :
        (f : Option Found) (next : Exec (Cache V) (Option Found))
        → IsStill next
        → IsStill (or_try m V requires w ctx type f next)
    or_try-IsStill none next h c = h c
    or_try-IsStill (some f) next h c = refl

    search_package-IsStill :
        (name : String) (r : V.Range) → IsStill (search_package m V requires w ctx type name r)
    unfolding search_package
    search_package-IsStill name r =
        let at = place m V requires w ctx type name r in
        let still : (o t : Option ℕ) → IsStill (at o t) =
          λ o t. met-IsStill (find_package m w ctx type name o t) r in
        bind-IsStill (at (some ctx.organization.pk) (pk_of ctx.team))
          (elsewhere m V requires w ctx type name r)
          (still (some ctx.organization.pk) (pk_of ctx.team))
          (λ mine.
            bind-IsStill (or_try m V requires w ctx type mine (at (some ctx.organization.pk) none))
              (λ ours. or_try m V requires w ctx type ours (at none none))
              (or_try-IsStill mine (at (some ctx.organization.pk) none)
                (still (some ctx.organization.pk) none))
              (λ ours. or_try-IsStill ours (at none none) (still none none)))

    -- The dictionary only grows, and names each package that is returned.
    abbrev pub Grows : Cache V → Option (List Found) → Cache V → Type 0
    Grows c found d =
        ((j : ℕ) → in_cache V j c ≡ true → in_cache V j d ≡ true) × AllKnown V d (or_empty found)

    with_first :
        (range : V.Range) (f : Found) (c : Cache V) (fs : Option (List Found)) (d : Cache V)
        → Grows (narrow V f.0.pk range c) fs d
        → Grows c (none_missing m V requires w ctx type fs f) d
    with_first range f c none d (grown, known) =
        ((λ j k. grown j (ground (arith, in_cache-narrow V f.0.pk j range c))), tt)
    with_first range f c (some fs) d (grown, known) = (
      (λ j k. grown j (ground (arith, in_cache-narrow V f.0.pk j range c))),
      (
        grown f.0.pk (ground (arith, in_cache-narrow V f.0.pk f.0.pk range c, ==_refl f.0.pk)),
        known,
      ),
    )

    on_found-Grows :
        (range : V.Range) (others : Exec (Cache V) (Option (List Found))) (found : Option Found)
        (c : Cache V)
        → ((d : Cache V) → Post (Grows d) (others d))
        → Post (Grows c) (on_found m V requires w ctx type range others found c)
    on_found-Grows range others none c h = Post-pure (Grows c) none c ((λ j k. k), tt)
    on_found-Grows range others (some f) c h =
        Post-bind_with (Grows c) others (λ fs. pure (none_missing m V requires w ctx type fs f))
          (narrow V f.0.pk range c) (Grows (narrow V f.0.pk range c)) (h (narrow V f.0.pk range c))
          (λ fs d (grown, known).
            Post-pure (Grows c) (none_missing m V requires w ctx type fs f) d
              (with_first range f c fs d (grown, known)))

    each_requirement-Grows :
        (rs : List String) (c : Cache V)
        → Post (Grows c) (each_requirement m V requires w ctx type rs c)
    unfolding each_requirement
    each_requirement-Grows [] c = Post-pure (Grows c) (some []) c ((λ j k. k), tt)
    each_requirement-Grows (r ∷ rs) c =
        let rest = each_requirement m V requires w ctx type rs in
        let found_in : String → V.Range → Exec (Cache V) (Option (List Found)) = λ name range.
          search_package m V requires w ctx type name range >>= λ found.
          on_found m V requires w ctx type range rest found in
        let ranged : String × String → Exec (Cache V) (Option (List Found)) = λ parsed.
          or_raise (V.parse_constraint parsed.1) value_error >>= λ range. found_in parsed.0 range in
        Post-bind_still (Grows c) (or_raise (version_check r) attribute_error) ranged c
          (or_raise-IsStill (version_check r) attribute_error)
          (λ parsed.
            Post-bind_still (Grows c) (or_raise (V.parse_constraint parsed.1) value_error)
              (λ range. found_in parsed.0 range) c
              (or_raise-IsStill (V.parse_constraint parsed.1) value_error)
              (λ range.
                Post-bind_still (Grows c) (search_package m V requires w ctx type parsed.0 range)
                  (λ found. on_found m V requires w ctx type range rest found) c
                  (search_package-IsStill parsed.0 range)
                  (λ found. on_found-Grows range rest found c (each_requirement-Grows rs))))

    -- The dictionary only grows, and afterwards names every package that is returned.
    pub get_package_requires-Grows :
        (path : Directory) (c : Cache V)
        → Post (Grows c) (get_package_requires m V requires w ctx type path c)
    unfolding get_package_requires
    get_package_requires-Grows path c = elim (Option-cases (requires path)) [
      | inl e ↦ rw (e, get_package_requires) (Post-pure (Grows c) none c ((λ j k. k), tt))
      | inr (rs, e) ↦
          rw (e, get_package_requires)
            (elim (Bool-cases (ends_with ".egg" (last_part path))) [
              | inl egg ↦ rw egg (each_requirement-Grows rs c)
              | inr plain ↦ rw plain (Post-pure (Grows c) none c ((λ j k. k), tt))
            ])
    ]
