-- ===== src/Organization/Listing.antt =====
-- The listings of webserver/app/main/controller/organization_controller.py.
use auto_test_system.Prelude.{
  ℕ, Bool, true, false, not, Option, none, some, List, [], ◌∷◌, ◌++◌, String, str_eq, ◌==◌,
  contains, is_empty, if◌then◌else◌,
}
use auto_test_system.Exec.{Exec, pure, gets, stop_if, eperm, ◌>>=◌, ◌>>◌}
use auto_test_system.Mongo.Defs.{Mongo, find}
use auto_test_system.Documents.{User, Organization}
use auto_test_system.World.{World}
use auto_test_system.Queue.{Handle}
use auto_test_system.Organization.{fetch, deref, named}

-- One entry of a listing of organizations or teams; `value` is the `_id`.
pub record Entry : Type 0 where
  pub label : String
  pub owner : String
  pub owner_email : String
  pub personal : Bool
  pub value : ℕ

pub record UserEntry : Type 0 where
  pub value : ℕ
  pub label : String
  pub email : String

abbrev pub user_entry : Handle User → UserEntry
user_entry u = record { value = u.pk; label = u.doc.name; email = u.doc.email }

-- `ret.sort(key=lambda x: not x['personal'])`: the sort is stable, so the personal ones move ahead.
pub keep_personal : Bool → List Entry → List Entry
keep_personal b [] = []
keep_personal b (e ∷ es) =
    let rest = keep_personal b es in
    if b then (if e.personal then e ∷ rest else rest) else if e.personal then rest else e ∷ rest

unfoldable pub sort_personal : List Entry → List Entry
sort_personal es = keep_personal true es ++ keep_personal false es

module _ (m : Mongo) where
  unfoldable pub entry_of : Handle Organization → Exec (World m) Entry
  entry_of o = do
    owner ← fetch m (λ w. w.users) o.doc.owner
    pure (record {
      label = o.doc.name;
      owner = owner.doc.name;
      owner_email = owner.doc.email;
      personal = o.doc.personal;
      value = o.pk;
    })

  unfoldable pub entries_of_owned : List (ℕ × Organization) → Exec (World m) (List Entry)
  unfolding entry_of
  entries_of_owned [] = pure []
  entries_of_owned ((k, d) ∷ os) = do
    e ← entry_of (record { pk = k; doc = d })
    es ← entries_of_owned os
    pure (e ∷ es)

  -- The organizations joined that are not among the owned ones
  unfoldable pub entries_of_joined : List ℕ → List ℕ → Exec (World m) (List Entry)
  unfolding entry_of
  entries_of_joined check [] = pure []
  entries_of_joined check (k ∷ ks) = if contains k check then entries_of_joined check ks else (do
    o ← deref m (λ w. w.organizations) k
    e ← entry_of o
    es ← entries_of_joined check ks
    pure (e ∷ es))

  abbrev pub keys_of : List (ℕ × Organization) → List ℕ
  keys_of [] = []
  keys_of ((k, _) ∷ os) = k ∷ keys_of os

  unfoldable pub list_organizations : Handle User → Exec (World m) (List Entry)
  unfolding entries_of_owned entries_of_joined sort_personal
  list_organizations user = do
    owned ← gets (λ w. find m (λ o. o.owner == user.pk) w.organizations)
    es ← entries_of_owned owned
    js ← entries_of_joined (keys_of owned) user.doc.organizations
    pure (sort_personal (es ++ js))

  unfoldable pub list_all_organizations : Exec (World m) (List Entry)
  unfolding entries_of_owned
  list_all_organizations = do
    os ← gets (λ w. find m (λ o. not (str_eq o.name "Personal")) w.organizations)
    entries_of_owned os

  -- The entries of an organization's teams; a team's has no mark of a personal one.
  unfoldable pub children_of : List ℕ → Exec (World m) (List Entry)
  children_of [] = pure []
  children_of (t ∷ ts) = do
    team ← fetch m (λ w. w.teams) t
    owner ← fetch m (λ w. w.users) team.doc.owner
    es ← children_of ts
    pure (
        record {
          label = team.doc.name;
          owner = owner.doc.name;
          owner_email = owner.doc.email;
          personal = false;
          value = team.pk;
        }
        ∷ es)

  -- No `children` where the organization has no teams
  unfoldable pub tree_of : Handle Organization → Exec (World m) (Entry × Option (List Entry))
  unfolding entry_of children_of
  tree_of o = do
    e ← entry_of o
    if is_empty o.doc.teams
        then pure (e, none)
        else (do cs ← children_of o.doc.teams; pure (e, some cs))

  unfoldable pub trees_of_owned :
      List (ℕ × Organization) → Exec (World m) (List (Entry × Option (List Entry)))
  unfolding tree_of
  trees_of_owned [] = pure []
  trees_of_owned ((k, d) ∷ os) = do
    e ← tree_of (record { pk = k; doc = d })
    es ← trees_of_owned os
    pure (e ∷ es)

  unfoldable pub trees_of_joined :
      List ℕ → List ℕ → Exec (World m) (List (Entry × Option (List Entry)))
  unfolding tree_of
  trees_of_joined check [] = pure []
  trees_of_joined check (k ∷ ks) = if contains k check then trees_of_joined check ks else (do
    o ← fetch m (λ w. w.organizations) k
    e ← tree_of o
    es ← trees_of_joined check ks
    pure (e ∷ es))

  unfoldable pub list_include_team :
      Handle User → Exec (World m) (List (Entry × Option (List Entry)))
  unfolding trees_of_owned trees_of_joined
  list_include_team user = do
    owned ← gets (λ w. find m (λ o. o.owner == user.pk) w.organizations)
    es ← trees_of_owned owned
    js ← trees_of_joined (keys_of owned) user.doc.organizations
    pure (es ++ js)

  unfoldable pub users_of : List ℕ → Exec (World m) (List UserEntry)
  users_of [] = pure []
  users_of (k ∷ ks) = do u ← fetch m (λ w. w.users) k; es ← users_of ks; pure (user_entry u ∷ es)

  unfoldable pub list_users : Option String → Handle User → Exec (World m) (List UserEntry)
  unfolding users_of
  list_users id user = do
    o ←
        named m (λ w. w.organizations) "Field organization_id is required" "Organization not found"
          id
    stop_if (not (contains user.pk o.doc.members)) eperm "You are not in the organization"
    users_of o.doc.members

  -- `for member in organization.members: ... break`, with its `else`
  unfoldable pub is_fetched_member : ℕ → List ℕ → Exec (World m) Bool
  is_fetched_member u [] = pure false
  is_fetched_member u (k ∷ ks) = do
    member ← fetch m (λ w. w.users) k
    if member.pk == u then pure true else is_fetched_member u ks

  -- The members of the teams that are not on the check list, which grows on the way
  unfoldable pub add_users : List ℕ → List ℕ → Exec (World m) (List UserEntry × List ℕ)
  add_users check [] = pure ([], check)
  add_users check (k ∷ ks) = do
    u ← fetch m (λ w. w.users) k
    (es, seen) ← add_users (if contains k check then check else check ++ (k ∷ [])) ks
    pure (if contains k check then es else user_entry u ∷ es, seen)

  unfoldable pub add_team_users : List ℕ → List ℕ → Exec (World m) (List UserEntry)
  unfolding add_users
  add_team_users check [] = pure []
  add_team_users check (t ∷ ts) = do
    team ← deref m (λ w. w.teams) t
    (es, seen) ← add_users check team.doc.members
    rest ← add_team_users seen ts
    pure (es ++ rest)

  unfoldable pub list_all_users : Option String → Handle User → Exec (World m) (List UserEntry)
  unfolding is_fetched_member users_of add_team_users
  list_all_users id user = do
    o ←
        named m (λ w. w.organizations) "Field organization_id is required" "Organization not found"
          id
    member ← is_fetched_member user.pk o.doc.members
    stop_if (not member) eperm "You are not in the organization"
    es ← users_of o.doc.members
    us ← add_team_users o.doc.members o.doc.teams
    pure (es ++ us)
