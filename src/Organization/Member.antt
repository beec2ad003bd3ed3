-- ===== src/Organization/Member.antt =====
-- Members of an organization and organizations of a user: what joining keeps.
use auto_test_system.Prelude.{
  ℕ, ◌≡◌, refl, true, false, Option, some, [], ◌∷◌, ◌++◌, String, contains, count, count-append,
  contains-append, count-contains, contains-count, arith, Bool-cases, inl, inr,
}
use auto_test_system.Exec.{ok}
use auto_test_system.Mongo.Defs.{Mongo, IsLawful}
use auto_test_system.Documents.{User, Organization}
use auto_test_system.World.{World}
use auto_test_system.Queue.{Handle}
use auto_test_system.Util.{nonempty}
use auto_test_system.Store.{
  commit_user_ok, commit_organization_ok, set_user, set_organization, organizations_of, members_of,
}
use auto_test_system.Organization.{join_organization}

module _ (m : Mongo) where
  -- A user lists an organization as often as the organization lists the user.
  abbrev pub IsMutual : World m → Type 0
  IsMutual w = (u o : ℕ) → count o (organizations_of m w u) ≡ count u (members_of m w o)

  -- The text of a request names a stored organization.
  pub record Names (id : Option String) (w : World m) (o : Handle Organization) : Type 0 where
    pub key : String
    pub given : nonempty id ≡ some key
    pub parsed : m.object_id key ≡ some o.pk
    pub stored : m.get w.organizations o.pk ≡ some o.doc

  abbrev entered : Handle Organization → Handle User → World m → World m
  entered o user w =
      set_user m user.pk (λ d. record d { organizations = user.doc.organizations ++ (o.pk ∷ []) })
        (set_organization m o.pk (λ d. record d { members = o.doc.members ++ (user.pk ∷ []) }) w)

  module _ (id : Option String) (o : Handle Organization) (user : Handle User) (w : World m)
      (n : Names id w o) (e : m.get w.users user.pk ≡ some user.doc) where
    join_run_new :
        contains user.pk o.doc.members ≡ false
        → contains o.pk user.doc.organizations ≡ false
        → join_organization m id user w ≡ (ok tt, entered o user w)
    unfolding join_organization
    join_run_new h k = ground (
      arith,
      n.given,
      n.parsed,
      n.stored,
      commit_organization_ok m o.pk (λ d. record d { members = o.doc.members ++ (user.pk ∷ []) }) w
          n.stored,
      commit_user_ok m user.pk
          (λ d. record d { organizations = user.doc.organizations ++ (o.pk ∷ []) })
          (set_organization m o.pk (λ d. record d { members = o.doc.members ++ (user.pk ∷ []) }) w)
          e,
    )

    join_run_old :
        contains user.pk o.doc.members ≡ true
        → contains o.pk user.doc.organizations ≡ true
        → join_organization m id user w ≡ (ok tt, w)
    unfolding join_organization
    join_run_old h k = ground (arith, n.given, n.parsed, n.stored)

    module _ (L : IsLawful m) (same : IsMutual w) where
      agree : contains user.pk o.doc.members ≡ contains o.pk user.doc.organizations
      agree = ground (
        arith,
        same user.pk o.pk,
        e,
        n.stored,
        contains-count user.pk o.doc.members,
        count-contains user.pk o.doc.members,
        contains-count o.pk user.doc.organizations,
        count-contains o.pk user.doc.organizations,
      )

      entered-IsMutual : IsMutual (entered o user w)
      entered-IsMutual u p = ground (
        arith,
        L.get-update User w.users user.pk u
            (λ d. record d { organizations = user.doc.organizations ++ (o.pk ∷ []) }),
        L.get-update Organization w.organizations o.pk p
            (λ d. record d { members = o.doc.members ++ (user.pk ∷ []) }),
        same u p,
        same user.pk p,
        same u o.pk,
        e,
        n.stored,
        count-append p user.doc.organizations (o.pk ∷ []),
        count-append u o.doc.members (user.pk ∷ []),
      )

      entered_member : contains user.pk (members_of m (entered o user w) o.pk) ≡ true
      entered_member = ground (
        arith,
        L.get-update Organization w.organizations o.pk o.pk
            (λ d. record d { members = o.doc.members ++ (user.pk ∷ []) }),
        n.stored,
        contains-append user.pk o.doc.members (user.pk ∷ []),
      )

      entered_organization : contains o.pk (organizations_of m (entered o user w) user.pk) ≡ true
      entered_organization = ground (
        arith,
        L.get-update User w.users user.pk user.pk
            (λ d. record d { organizations = user.doc.organizations ++ (o.pk ∷ []) }),
        e,
        contains-append o.pk user.doc.organizations (o.pk ∷ []),
      )

      -- Where users and organizations list each other, joining a stored organization with a fresh copy
      -- of the user succeeds, makes them list each other, and keeps this for all others.
      pub join-IsMutual :
          let (r, w') = join_organization m id user w in
          (r ≡ ok tt)
          × IsMutual w'
          × (contains user.pk (members_of m w' o.pk) ≡ true)
          × (contains o.pk (organizations_of m w' user.pk) ≡ true)
      join-IsMutual =
          elim (Bool-cases (contains user.pk o.doc.members))
            as (λ _.
              let (r, w') = join_organization m id user w in
              (r ≡ ok tt)
              × IsMutual w'
              × (contains user.pk (members_of m w' o.pk) ≡ true)
              × (contains o.pk (organizations_of m w' user.pk) ≡ true)) [
                | inl h ↦
                    rw (join_run_old h (ground (arith, agree, h)))
                      (refl, same, ground (arith, n.stored, h), ground (arith, e, h, agree))
                | inr h ↦
                    rw (join_run_new h (ground (arith, agree, h)))
                      (refl, entered-IsMutual, entered_member, entered_organization)
              ]
