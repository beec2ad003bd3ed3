-- ===== src/Endpoint/Connection/Admitted.antt =====
-- Which endpoints may connect.
use auto_test_system.Prelude.{
  subst, sym, ℕ, ◌≡◌, refl, Bool, true, false, ◌&&◌, Option, none, some, String, ◌==◌, arith,
  if◌then◌else◌, opt_eq, opt_eq_iff, Option-cases, Bool-cases, inl, inr,
}
use auto_test_system.Exec.{
  ok, Post, Post-bind, Post-bind_with, Post-pure, or_raise, invalid_id, ◌>>=◌,
}
use auto_test_system.Mongo.Defs.{find_one, Mongo}
use auto_test_system.Mongo.Find.{find_one-Sound}
use auto_test_system.Documents.{Endpoint}
use auto_test_system.World.{World}
use auto_test_system.Queue.{Handle}
use auto_test_system.Access.{Context, pk_of}
use auto_test_system.Endpoint.{by_uid, new_endpoint}
use auto_test_system.Endpoint.Connection.{
  Admission, admitted, forbidden_sent, unauthorized_sent, admit, admit_known, rejoin, joined_by,
  admit_joined, admit_found, registered, not_found_sent, is_unauthorized, is_forbidden,
}

module _ (m : Mongo) (uuid : String → Option ℕ) where
  -- The endpoint is stored as one of the organization and the team that it joins, and is neither
  -- unauthorized nor forbidden.
  abbrev pub IsMember : Admission → World m → Type 0
  IsMember (admitted e ctx) w =
      (m.get w.endpoints e.pk ≡ some e.doc)
      × (e.doc.organization ≡ some ctx.organization.pk)
      × (e.doc.team ≡ pk_of ctx.team)
      × (is_unauthorized e.doc.status ≡ false)
      × (is_forbidden e.doc.status ≡ false)
  IsMember _ w = Unit

  -- The endpoint stands where it joins.
  abbrev stays : Handle Endpoint → Context → Bool
  stays e ctx =
      opt_eq e.doc.organization (some ctx.organization.pk) && opt_eq e.doc.team (pk_of ctx.team)

  admit_stays :
      (e : Handle Endpoint) (ctx : Context) (w : World m)
      → stays e ctx ≡ true
      → admit_known m uuid e ctx w
        ≡ (ok (if is_unauthorized e.doc.status then unauthorized_sent else admitted e ctx), w)
  unfolding admit_known rejoin
  admit_stays e ctx w h = ground (arith, h)

  admit_moves :
      (e : Handle Endpoint) (ctx : Context) (w : World m) (a : Admission)
      → stays e ctx ≡ false
      → (admit_known m uuid e ctx w).0 ≡ ok a
      → a ≡ unauthorized_sent
  unfolding admit_known rejoin
  admit_moves e ctx w a h done = ground (arith, h, done)

  module _ (e : Handle Endpoint) (ctx : Context) (w : World m)
      (at : m.get w.endpoints e.pk ≡ some e.doc) (allowed : is_forbidden e.doc.status ≡ false) where
    answer-IsMember :
        (b : Bool)
        → is_unauthorized e.doc.status ≡ b
        → stays e ctx ≡ true
        → Post IsMember (ok (if b then unauthorized_sent else admitted e ctx), w)
    answer-IsMember true q h = Post-pure IsMember unauthorized_sent w tt
    answer-IsMember false q h = Post-pure IsMember (admitted e ctx) w (
      at,
      (opt_eq_iff e.doc.organization (some ctx.organization.pk)).0 (ground (arith, h)),
      (opt_eq_iff e.doc.team (pk_of ctx.team)).0 (ground (arith, h)),
      q,
      allowed,
    )

    admit_stays-IsMember : stays e ctx ≡ true → Post IsMember (admit_known m uuid e ctx w)
    admit_stays-IsMember h =
        rw (admit_stays e ctx w h) (answer-IsMember (is_unauthorized e.doc.status) refl h)

    admit_known-IsMember : Post IsMember (admit_known m uuid e ctx w)
    admit_known-IsMember a done =
        elim (Bool-cases (stays e ctx)) as (λ _. IsMember a (admit_known m uuid e ctx w).1) [
          | inl h ↦ admit_stays-IsMember h a done
          | inr h ↦ rw (admit_moves e ctx w a h done) tt
        ]

  joined_by-same : (join_id : String) (w : World m) → (joined_by m uuid join_id w).1 ≡ w
  unfolding joined_by
  joined_by-same join_id w = ground arith

  admit_joined-IsMember :
      (u : ℕ) (endpoint : Option (Handle Endpoint)) (joined : Option Context) (w : World m)
      → ((e : Handle Endpoint)
          → endpoint ≡ some e
          → (m.get w.endpoints e.pk ≡ some e.doc) × (is_forbidden e.doc.status ≡ false))
      → Post IsMember (admit_joined m uuid u endpoint joined w)
  unfolding admit_joined
  admit_joined-IsMember u endpoint none w h a done = Post-pure IsMember not_found_sent w tt a done
  admit_joined-IsMember u none (some ctx) w h a done = rw (registered_only a done) tt
    where
      registered_only :
          (a : Admission) → (admit_joined m uuid u none (some ctx) w).0 ≡ ok a → a ≡ registered
      registered_only a done = unfold admit_joined new_endpoint in ground (arith, done)
  admit_joined-IsMember u (some e) (some ctx) w h a done =
      admit_known-IsMember e ctx w (h e refl).0 (h e refl).1 a done

  admit_found-IsMember :
      (u : ℕ) (join_id : String) (endpoint : Option (Handle Endpoint)) (w : World m)
      → ((e : Handle Endpoint) → endpoint ≡ some e → m.get w.endpoints e.pk ≡ some e.doc)
      → Post IsMember (admit_found m uuid u join_id endpoint w)
  unfolding admit_found
  admit_found-IsMember u join_id none w stored =
      Post-bind_with IsMember (joined_by m uuid join_id) (admit_joined m uuid u none) w
        (λ _ t. t ≡ w) (λ _ _. joined_by-same join_id w)
        λ joined t q. admit_joined-IsMember u none joined t (λ e eq. absurd (cc))
  admit_found-IsMember u join_id (some e) w stored = elim (Bool-cases (is_forbidden e.doc.status)) [
    | inl h ↦ rw h (Post-pure IsMember forbidden_sent w tt)
    | inr h ↦ rw h (
        Post-bind_with IsMember (joined_by m uuid join_id) (admit_joined m uuid u (some e)) w
          (λ _ t. t ≡ w) (λ _ _. joined_by-same join_id w)
          λ joined t q. admit_joined-IsMember u (some e) joined t λ e' eq. (
            subst (λ v. m.get v.endpoints e'.pk ≡ some e'.doc) (sym q) (stored e' eq),
            ground (arith, h, eq),
          ))
  ]

  by_uid-stored :
      (uid : String) (w : World m)
      → Post
          (λ (endpoint : Option (Handle Endpoint)) (t : World m).
            (e : Handle Endpoint) → endpoint ≡ some e → m.get t.endpoints e.pk ≡ some e.doc)
          (by_uid m uuid uid w)
  by_uid-stored uid w = elim (Option-cases (uuid uid)) [
    | inl bad ↦ rw (bad, by_uid) (λ a done. absurd (cc))
    | inr (u, parsed) ↦ elim (Option-cases (find_one m (λ e. e.uid == u) w.endpoints)) [
      | inl gone ↦ rw (parsed, by_uid) (rw gone (λ a done e eq. absurd (cc)))
      | inr ((k, d), found) ↦
          rw (parsed, by_uid)
            (rw found (λ a done e eq.
              ground
                (arith, done, eq, (find_one-Sound m (λ x. x.uid == u) w.endpoints k d found).0)))
    ]
  ]

  -- Whoever is admitted is stored as a member of the organization and the team that it joins, and is
  -- neither unauthorized nor forbidden.
  pub admit-IsMember :
      (uid join_id : String) (w : World m) → Post IsMember (admit m uuid uid join_id w)
  unfolding admit
  admit-IsMember uid join_id w =
      Post-bind IsMember (or_raise (uuid uid) invalid_id)
        (λ u. by_uid m uuid uid >>= admit_found m uuid u join_id) w
        λ u t.
          Post-bind_with IsMember (by_uid m uuid uid) (admit_found m uuid u join_id) t
            (λ endpoint s.
              (e : Handle Endpoint) → endpoint ≡ some e → m.get s.endpoints e.pk ≡ some e.doc)
            (by_uid-stored uid t) (λ endpoint s h. admit_found-IsMember u join_id endpoint s h)
