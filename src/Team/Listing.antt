-- ===== src/Team/Listing.antt =====
-- The listings of webserver/app/main/controller/team_controller.py.
use auto_test_system.Prelude.{
  ℕ, Bool, true, not, Option, List, [], ◌∷◌, ◌++◌, String, ◌==◌, contains, if◌then◌else◌,
}
use auto_test_system.Exec.{Exec, pure, gets, stop_if, eperm, ◌>>=◌, ◌>>◌}
use auto_test_system.Mongo.Defs.{Mongo, find}
use auto_test_system.Documents.{User, Team}
use auto_test_system.World.{World}
use auto_test_system.Queue.{Handle}
use auto_test_system.Organization.{fetch, deref, named}
use auto_test_system.Organization.Listing.{UserEntry, users_of}

pub record TeamEntry : Type 0 where
  pub label : String
  pub owner : String
  pub owner_email : String
  pub organization_id : ℕ
  pub value : ℕ

module _ (m : Mongo) where
  unfoldable pub team_entry : Handle Team → Exec (World m) TeamEntry
  team_entry t = do
    owner ← fetch m (λ w. w.users) t.doc.owner
    organization ← fetch m (λ w. w.organizations) t.doc.organization
    pure (record {
      label = t.doc.name;
      owner = owner.doc.name;
      owner_email = owner.doc.email;
      organization_id = organization.pk;
      value = t.pk;
    })

  unfoldable pub entries_of_owned_teams : List (ℕ × Team) → Exec (World m) (List TeamEntry)
  unfolding team_entry
  entries_of_owned_teams [] = pure []
  entries_of_owned_teams ((k, d) ∷ ts) = do
    e ← team_entry (record { pk = k; doc = d })
    es ← entries_of_owned_teams ts
    pure (e ∷ es)

  unfoldable pub entries_of_joined_teams : List ℕ → List ℕ → Exec (World m) (List TeamEntry)
  unfolding team_entry
  entries_of_joined_teams check [] = pure []
  entries_of_joined_teams check (k ∷ ks) =
      if contains k check then entries_of_joined_teams check ks else (do
        t ← deref m (λ w. w.teams) k
        e ← team_entry t
        es ← entries_of_joined_teams check ks
        pure (e ∷ es))

  abbrev pub team_keys : List (ℕ × Team) → List ℕ
  team_keys [] = []
  team_keys ((k, _) ∷ ts) = k ∷ team_keys ts

  unfoldable pub list_teams : Handle User → Exec (World m) (List TeamEntry)
  unfolding entries_of_owned_teams entries_of_joined_teams
  list_teams user = do
    owned ← gets (λ w. find m (λ t. t.owner == user.pk) w.teams)
    es ← entries_of_owned_teams owned
    js ← entries_of_joined_teams (team_keys owned) user.doc.teams
    pure (es ++ js)

  -- `organization_id` is the one that the query asked for.
  unfoldable pub entries_of_organization : ℕ → List (ℕ × Team) → Exec (World m) (List TeamEntry)
  entries_of_organization o [] = pure []
  entries_of_organization o ((k, d) ∷ ts) = do
    owner ← fetch m (λ w. w.users) d.owner
    es ← entries_of_organization o ts
    pure (
        record {
          label = d.name;
          owner = owner.doc.name;
          owner_email = owner.doc.email;
          organization_id = o;
          value = k;
        }
        ∷ es)

  unfoldable pub list_teams_of : Option String → Handle User → Exec (World m) (List TeamEntry)
  unfolding entries_of_organization
  list_teams_of id user = do
    o ←
        named m (λ w. w.organizations) "Field organization_id is required" "Organization not found"
          id
    stop_if (not (contains user.pk o.doc.members)) eperm "You are not a member of the organization"
    ts ← gets (λ w. find m (λ t. t.organization == o.pk) w.teams)
    entries_of_organization o.pk ts

  -- The organization's members are read only where the user is not in the team.
  unfoldable pub may_list_team : Handle Team → Handle User → Exec (World m) Bool
  may_list_team t user = if contains user.pk t.doc.members then pure true else (do
    o ← deref m (λ w. w.organizations) t.doc.organization
    pure (contains user.pk o.doc.members))

  unfoldable pub list_team_users : Option String → Handle User → Exec (World m) (List UserEntry)
  unfolding may_list_team
  list_team_users id user = do
    t ← named m (λ w. w.teams) "Field team_id is required" "Team not found" id
    allowed ← may_list_team t user
    stop_if (not allowed) eperm "You are not in the organization"
    users_of m t.doc.members
