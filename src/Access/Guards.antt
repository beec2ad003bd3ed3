-- ===== src/Access/Guards.antt =====
-- What the guards let through, and that they write nothing.
use auto_test_system.Prelude.{
  ◌≡◌, refl, Bool, true, false, not, ◌||◌, Option, none, some, String, contains, opt_eq, opt_eq_iff,
  arith, Option-cases, inl, inr, subst,
}
use auto_test_system.Exec.{
  Exec, Result, ok, raised, stop, ◌>>=◌, enoent, einval, eperm, resume, Code, Exn, invalid_id,
  or_respond, stop_if,
}
use auto_test_system.Mongo.Defs.{Mongo}
use auto_test_system.Documents.{User, Organization, Team, Task}
use auto_test_system.World.{World}
use auto_test_system.Queue.{Handle}
use auto_test_system.Util.{js2python_variable, nonempty}
use auto_test_system.Access.{
  Context, pk_of, by_id, joined_team, joined_organization, organization_team_required,
  task_required,
}

module _ (m : Mongo) (jwt_decode : String → Option String) where
  -- The handle is the stored document of that collection.
  abbrev pub IsStored : {D : Type 0} → (World m → m.Collection D) → Handle D → World m → Type 0
  IsStored c h w = m.get (c w) h.pk ≡ some h.doc

  -- The document is the stored one that the text names.
  abbrev pub IsNamed :
      {D : Type 0} → (World m → m.Collection D) → String → Handle D → World m → Type 0
  IsNamed c s h w = (m.object_id s ≡ some h.pk) × IsStored c h w

  -- There is a team exactly if one is named, and it is that one, stored and joined by the user.
  abbrev pub IsTeamOf : Option String → Handle User → World m → Option (Handle Team) → Type 0
  IsTeamOf none user w none = Unit
  IsTeamOf none user w (some t) = ⊥
  IsTeamOf (some s) user w none = ⊥
  IsTeamOf (some s) user w (some t) =
      IsNamed (λ v. v.teams) s t w × (contains t.pk user.doc.teams ≡ true)

  -- The same of organizations
  abbrev pub IsOrganizationOf :
      Option String → Handle User → World m → Option (Handle Organization) → Type 0
  IsOrganizationOf none user w none = Unit
  IsOrganizationOf none user w (some o) = ⊥
  IsOrganizationOf (some s) user w none = ⊥
  IsOrganizationOf (some s) user w (some o) =
      IsNamed (λ v. v.organizations) s o w × (contains o.pk user.doc.organizations ≡ true)

  abbrev pub Joined : Option String → Option String → Handle User → World m → Context → Type 0
  Joined org_id team_id user w ctx =
      IsOrganizationOf (js2python_variable org_id) user w (some ctx.organization)
      × IsTeamOf (js2python_variable team_id) user w ctx.team

  -- What a guard does at a state: it writes nothing, and what it returns has the property.
  abbrev pub Lets {κ} : {A : Type 0} → (A → Type κ) → World m → Result A × World m → Type κ
  Lets P w p = (p.1 ≡ w) × ((a : _) → p.0 ≡ ok a → P a)

  Lets-ok {κ} : {A : Type 0} (P : A → Type κ) (w : World m) (a : A) → P a → Lets P w (ok a, w)
  Lets-ok P w a h = (refl, λ b e. ground (arith, h))

  Lets-stop {κ} :
      {A : Type 0} (P : A → Type κ) (w : World m) (c : Code) (t : String) → Lets P w (stop c t, w)
  Lets-stop P w c t = (refl, λ b e. absurd (cc))

  Lets-raised {κ} : {A : Type 0} (P : A → Type κ) (w : World m) (x : Exn) → Lets P w (raised x, w)
  Lets-raised P w x = (refl, λ b e. absurd (cc))

  Lets-bind {κ} :
      {A B : Type 0} (P : A → Type κ) (Q : B → Type κ) (e : Exec (World m) A)
      (f : A → Exec (World m) B) (w : World m)
      → Lets P w (e w)
      → ((a : A) → P a → Lets Q w (f a w))
      → Lets Q w ((e >>= f) w)
  Lets-bind {A} P Q e f w (same, first) rest = rw same (by_result (e w).0 first)
    where
      by_result : (r : Result A) → ((a : A) → r ≡ ok a → P a) → Lets Q w (resume r f w)
      by_result (ok a) h = rest a (h a refl)
      by_result (stop c t) h = Lets-stop Q w c t
      by_result (raised x) h = Lets-raised Q w x

  -- A document that is looked up by its text id is the stored one of that id.
  by_id-Lets :
      {D : Type 0} (c : World m → m.Collection D) (s : String) (w : World m)
      → Lets
          (λ (o : Option (Handle D)). (h : Handle D) → o ≡ some h → IsNamed c s h w)
          w
          (by_id m c s w)
  by_id-Lets c s w = elim (Option-cases (m.object_id s)) [
    | inl bad ↦ rw (bad, by_id) (Lets-raised _ w invalid_id)
    | inr (k, parsed) ↦ elim (Option-cases (m.get (c w) k)) [
      | inl gone ↦ rw (parsed, by_id) (rw gone (Lets-ok _ w none (λ h e. absurd (cc))))
      | inr (d, e) ↦
          rw (parsed, by_id)
            (rw e (
              Lets-ok _ w (some (record { pk = k; doc = d }))
                (λ h at. (ground (arith, parsed, at), ground (arith, e, at)))))
    ]
  ]

  or_respond-Lets {κ} :
      {A : Type 0} (P : A → Type κ) (o : Option A) (c : Code) (t : String) (w : World m)
      → ((a : A) → o ≡ some a → P a)
      → Lets P w (or_respond o c t w)
  or_respond-Lets P none c t w h = Lets-stop P w c t
  or_respond-Lets P (some a) c t w h = Lets-ok P w a (h a refl)

  stop_if-Lets :
      (b : Bool) (c : Code) (t : String) (w : World m)
      → Lets (λ (_ : Unit {0}). b ≡ false) w (stop_if b c t w)
  stop_if-Lets true c t w = Lets-stop _ w c t
  stop_if-Lets false c t w = Lets-ok _ w tt refl

  joined_team-Lets :
      (refusal : String) (team_id : Option String) (user : Handle User) (w : World m)
      → Lets (IsTeamOf team_id user w) w (joined_team m jwt_decode refusal team_id user w)
  unfolding joined_team
  joined_team-Lets refusal none user w = Lets-ok (IsTeamOf none user w) w none tt
  joined_team-Lets refusal (some s) user w =
      Lets-bind _ (IsTeamOf (some s) user w) (by_id m (λ v. v.teams) s) _ w
        (by_id-Lets (λ v. v.teams) s w)
        λ found stored.
          Lets-bind (λ h. IsNamed (λ v. v.teams) s h w) (IsTeamOf (some s) user w)
            (or_respond found enoent "Team not found") _ w
            (or_respond-Lets _ found enoent "Team not found" w stored)
            λ team at.
              Lets-bind (λ (_ : Unit {0}). not (contains team.pk user.doc.teams) ≡ false)
                (IsTeamOf (some s) user w)
                (stop_if (not (contains team.pk user.doc.teams)) einval refusal) _ w
                (stop_if-Lets _ einval refusal w)
                λ _ member.
                  Lets-ok (IsTeamOf (some s) user w) w (some team) (at, ground (arith, member))

  joined_organization-Lets :
      (refusal : String) (org_id : Option String) (user : Handle User) (w : World m)
      → Lets
          (IsOrganizationOf org_id user w)
          w
          (joined_organization m jwt_decode refusal org_id user w)
  unfolding joined_organization
  joined_organization-Lets refusal none user w = Lets-ok (IsOrganizationOf none user w) w none tt
  joined_organization-Lets refusal (some s) user w =
      Lets-bind _ (IsOrganizationOf (some s) user w) (by_id m (λ v. v.organizations) s) _ w
        (by_id-Lets (λ v. v.organizations) s w)
        λ found stored.
          Lets-bind (λ h. IsNamed (λ v. v.organizations) s h w) (IsOrganizationOf (some s) user w)
            (or_respond found enoent "Organization not found") _ w
            (or_respond-Lets _ found enoent "Organization not found" w stored)
            λ organization at.
              Lets-bind
                (λ (_ : Unit {0}). not (contains organization.pk user.doc.organizations) ≡ false)
                (IsOrganizationOf (some s) user w)
                (stop_if (not (contains organization.pk user.doc.organizations)) einval refusal) _ w
                (stop_if-Lets _ einval refusal w)
                λ _ member.
                  Lets-ok (IsOrganizationOf (some s) user w) w (some organization)
                    (at, ground (arith, member))

  -- The guard for organizations and teams writes nothing, and lets through only the organization that the
  -- request names, stored and joined by the user, with no team if none is named, and otherwise with the
  -- named team, stored and joined by the user.
  pub organization_team_required-Joined :
      (org_id team_id : Option String) (user : Handle User) (w : World m)
      → let (r, w') = organization_team_required m jwt_decode org_id team_id user w in
        (w' ≡ w) × ((ctx : Context) → r ≡ ok ctx → Joined org_id team_id user w ctx)
  unfolding organization_team_required
  organization_team_required-Joined org_id team_id user w =
      Lets-bind (IsTeamOf (js2python_variable team_id) user w) (Joined org_id team_id user w)
        (joined_team m jwt_decode "Field organization_team is incorrect, not a team member joined"
          (js2python_variable team_id) user)
        _ w
        (joined_team-Lets "Field organization_team is incorrect, not a team member joined"
          (js2python_variable team_id) user w)
        λ team team_joined.
          Lets-bind (IsOrganizationOf (js2python_variable org_id) user w)
            (Joined org_id team_id user w)
            (joined_organization m jwt_decode
              "Field organization_team is incorrect, not a organization member joined"
              (js2python_variable org_id) user)
            _ w
            (joined_organization-Lets
              "Field organization_team is incorrect, not a organization member joined"
              (js2python_variable org_id) user w)
            λ found org_joined.
              Lets-bind (λ o. IsOrganizationOf (js2python_variable org_id) user w (some o))
                (Joined org_id team_id user w)
                (or_respond found einval "Please select an organization or team first") _ w
                (or_respond-Lets _ found einval "Please select an organization or team first" w
                  (λ o at.
                    subst (IsOrganizationOf (js2python_variable org_id) user w) at org_joined))
                λ organization joined.
                  Lets-ok (Joined org_id team_id user w) w
                    (record { organization = organization; team = team }) (joined, team_joined)

  abbrev pub TaskOf : World m → Context → Handle Task → Type 0
  TaskOf w ctx task =
      IsStored (λ v. v.tasks) task w
      × (task.doc.organization ≡ some ctx.organization.pk)
      × (task.doc.team ≡ pk_of ctx.team)

  -- The guard for tasks writes nothing, and lets through only a stored task of exactly the
  -- organization and the team of the request.
  pub task_required-TaskOf :
      (task_id : Option String) (ctx : Context) (w : World m)
      → let (r, w') = task_required m jwt_decode task_id ctx w in
        (w' ≡ w) × ((task : Handle Task) → r ≡ ok task → TaskOf w ctx task)
  unfolding task_required
  task_required-TaskOf task_id ctx w =
      Lets-bind (λ (_ : String). Unit {0}) (TaskOf w ctx)
        (or_respond (nonempty task_id) einval "Field task_id is required") _ w
        (or_respond-Lets _ (nonempty task_id) einval "Field task_id is required" w (λ _ _. tt))
        λ t _.
          Lets-bind _ (TaskOf w ctx) (by_id m (λ v. v.tasks) t) _ w (by_id-Lets (λ v. v.tasks) t w)
            λ found stored.
              Lets-bind (λ h. IsNamed (λ v. v.tasks) t h w) (TaskOf w ctx)
                (or_respond found enoent "Task not found") _ w
                (or_respond-Lets _ found enoent "Task not found" w stored)
                λ task at.
                  let foreign =
                    not (opt_eq task.doc.organization (some ctx.organization.pk))
                    || not (opt_eq task.doc.team (pk_of ctx.team)) in
                  Lets-bind (λ (_ : Unit {0}). foreign ≡ false) (TaskOf w ctx)
                    (stop_if foreign eperm
                      "Accessing resources that not belong to you is not allowed")
                    _ w
                    (stop_if-Lets foreign eperm
                      "Accessing resources that not belong to you is not allowed" w)
                    λ _ mine. Lets-ok (TaskOf w ctx) w task (
                      at.1,
                      (opt_eq_iff task.doc.organization (some ctx.organization.pk)).0
                          (ground (arith, mine)),
                      (opt_eq_iff task.doc.team (pk_of ctx.team)).0 (ground (arith, mine)),
                    )
