-- ===== src/Account/Deletion.antt =====
-- When the organizations of a deleted account can be deleted.
use auto_test_system.Prelude.{
  ℕ, ◌≡◌, true, some, List, [], ◌∷◌, contains, remove?, present-remove, arith, Bool-cases,
  Option-cases, inl, inr, ◌==◌, ==_iff,
}
use auto_test_system.Exec.{
  Exec, ok, or_raise, value_error, Post, Post-bind, Post-bind_with, Post-pure, ◌>>◌,
}
use auto_test_system.Mongo.Defs.{Mongo, IsLawful, find, match_in}
use auto_test_system.Documents.{User}
use auto_test_system.World.{World}
use auto_test_system.Store.{commit_user}
use auto_test_system.Account.{drop_organization, delete_contents, delete_owned_organization}

module _ (m : Mongo) where
  -- Each listed user has the organization.
  abbrev AllList : ℕ → List (ℕ × User) → Type 0
  AllList o [] = Unit
  AllList o ((k, u) ∷ us) = (contains o u.organizations ≡ true) × AllList o us

  removed :
      (o : ℕ) (xs r : List ℕ) (w : World m)
      → (or_raise (remove? o xs) value_error w).0 ≡ ok r
      → contains o xs ≡ true
  removed o xs r w e = elim (Option-cases (remove? o xs)) [
    | inl gone ↦ absurd (ground (arith, gone))
    | inr (d, there) ↦ ground (arith, present-remove o xs, there)
  ]

  drop_organization-AllList :
      (o : ℕ) (us : List (ℕ × User)) (w : World m)
      → Post (λ _ t. AllList o us) (drop_organization m o us w)
  unfolding drop_organization
  drop_organization-AllList o [] w = Post-pure (λ _ t. AllList o []) tt w tt
  drop_organization-AllList o ((k, u) ∷ us) w =
      let write : List ℕ → Exec (World m) (Unit {0}) =
        λ os. commit_user m k (λ d. record d { organizations = os }) in
      Post-bind_with (λ _ t. AllList o ((k, u) ∷ us))
        (or_raise (remove? o u.organizations) value_error)
        (λ os. write os >> drop_organization m o us) w (λ os t. contains o u.organizations ≡ true)
        (λ os e. removed o u.organizations os w e)
        (λ os t has.
          Post-bind (λ _ v. AllList o ((k, u) ∷ us)) (write os) (λ _. drop_organization m o us) t
            (λ _ v b e. (has, drop_organization-AllList o us v b e)))

  listed :
      (o : ℕ) (c : m.Collection User) (ks : List ℕ) (j : ℕ) (u : User)
      → AllList o (match_in m (λ _. true) c ks)
      → contains j ks ≡ true
      → m.get c j ≡ some u
      → contains o u.organizations ≡ true
  unfolding match_in
  listed o c [] j u h e g = absurd (cc)
  listed o c (k ∷ ks) j u h e g = elim (Option-cases (m.get c k)) [
    | inl gone ↦ listed o c ks j u (rw (gone, match_in) at h) (grind (arith, ==_iff)) g
    | inr (d, there) ↦
        let (has, rest) = rw (there, match_in) at h in
        elim (Bool-cases (j == k)) [
          | inl same ↦ grind (arith, ==_iff)
          | inr differs ↦ listed o c ks j u rest (ground (arith, differs)) g
        ]
  ]

  -- An organization of a deleted account is deleted only where every stored user lists it, a member or
  -- not.
  pub delete_owned_organization-contains :
      IsLawful m
      → (k : ℕ) (w : World m) → (delete_owned_organization m k w).0 ≡ ok tt
      → (j : ℕ) (u : User) → m.get w.users j ≡ some u
      → contains k u.organizations ≡ true
  unfolding delete_owned_organization find
  delete_owned_organization-contains L k w e j u g =
      Post-bind_with (λ _ t. contains k u.organizations ≡ true)
        (drop_organization m k (find m (λ _. true) w.users)) (λ _. delete_contents m k) w
        (λ _ t. AllList k (find m (λ _. true) w.users))
        (drop_organization-AllList k (find m (λ _. true) w.users) w)
        (λ _ t h b done.
          listed k w.users (m.scan w.users) j u h (ground (arith, L.scan-get User w.users j)) g)
        tt e
