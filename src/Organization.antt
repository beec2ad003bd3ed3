-- ===== src/Organization.antt =====
-- The handlers of webserver/app/main/controller/organization_controller.py that change state; the
-- listings are in a child. Avatars and directories are left out, but for the directory that is there.
pub mod Listing
pub mod Member
use auto_test_system.Prelude.{
  ℕ, Bool, true, false, not, ◌||◌, ◌&&◌, Option, none, some, List, [], ◌∷◌, ◌++◌, String, ◌==◌,
  contains, remove?, if◌then◌else◌, opt_eq,
}
use auto_test_system.Exec.{
  Exec, ok, raised, pure, gets, raise, respond, or_respond, or_raise, stop_if, raise_if, modify,
  when, enoent, einval, eperm, eexist, value_error, attribute_error, type_error, document_missing,
  ◌>>=◌, ◌>>◌,
}
use auto_test_system.Mongo.Defs.{Mongo, find}
use auto_test_system.Documents.{User, Organization, Team, Test, Task, TestResult, TaskQueue}
use auto_test_system.World.{World}
use auto_test_system.Queue.{Handle, commit_queue}
use auto_test_system.Util.{nonempty}
use auto_test_system.Access.{by_id}
use auto_test_system.Store.{commit_user, commit_organization, commit_team}

module _ (m : Mongo) where
  -- `await reference.fetch()`
  abbrev pub fetch : {D : Type 0} → (World m → m.Collection D) → ℕ → Exec (World m) (Handle D)
  fetch c k w = elim (m.get (c w) k) [
    | none ↦ (raised document_missing, w)
    | some d ↦ (ok (record { pk = k; doc = d }), w)
  ]

  -- An optional reference that is fetched if it is set
  abbrev pub fetch_if :
      {D : Type 0} → (World m → m.Collection D) → Option ℕ → Exec (World m) (Option (Handle D))
  fetch_if c none = pure none
  fetch_if c (some k) = do h ← fetch c k; pure (some h)

  -- The use of a reference's attribute without a fetch.
  abbrev pub deref : {D : Type 0} → (World m → m.Collection D) → ℕ → Exec (World m) (Handle D)
  deref c k = raise_if (not m.forwards) attribute_error >> fetch c k

  -- The document that a request names; the texts are those of the two refusals.
  abbrev pub named :
      {D : Type 0}
      → (World m → m.Collection D)
      → String
      → String
      → Option String
      → Exec (World m) (Handle D)
  named c required missing id = do
    s ← or_respond (nonempty id) einval required
    found ← by_id m c s
    or_respond found enoent missing

  -- The flag says that the new organization's directory exists already.
  unfoldable pub create_organization :
      Option String → Bool → Handle User → Exec (World m) (Unit {0})
  create_organization name directory_exists user = do
    n ← or_respond (nonempty name) einval "Field name is required"
    oid ← gets (λ w. m.new_id w.organizations)
    modify (λ w. record w {
      organizations = m.insert w.organizations oid (record {
        name = n;
        owner = user.pk;
        members = user.pk ∷ [];
        teams = [];
        personal = false;
        editors = [];
      });
    })
    commit_user m user.pk (λ d. record d { organizations = user.doc.organizations ++ (oid ∷ []) })
    stop_if directory_exists eexist ""
    commit_organization m oid (λ d. d)

  -- The results, the tasks and the tests of a team or an organization.
  unfoldable pub delete_results : List (ℕ × TestResult) → Exec (World m) (Unit {0})
  delete_results [] = pure tt
  delete_results ((k, _) ∷ rs) = do
    modify (λ w. record w { test_results = m.delete w.test_results k })
    delete_results rs

  unfoldable pub delete_tasks : List (ℕ × Task) → Exec (World m) (Unit {0})
  unfolding delete_results
  delete_tasks [] = pure tt
  delete_tasks ((k, _) ∷ ts) = do
    rs ← gets (λ w. find m (λ r. opt_eq r.task (some k)) w.test_results)
    delete_results rs
    modify (λ w. record w { tasks = m.delete w.tasks k })
    delete_tasks ts

  unfoldable pub delete_tests : List (ℕ × Test) → Exec (World m) (Unit {0})
  unfolding delete_tasks
  delete_tests [] = pure tt
  delete_tests ((k, _) ∷ ts) = do
    tasks ← gets (λ w. find m (λ t. opt_eq t.test (some k)) w.tasks)
    delete_tasks tasks
    modify (λ w. record w { tests = m.delete w.tests k })
    delete_tests ts

  -- Left to the endpoint's loop, which deletes them.
  unfoldable pub abandon_queues : List (ℕ × TaskQueue) → Exec (World m) (Unit {0})
  abandon_queues [] = pure tt
  abandon_queues ((k, _) ∷ qs) = do
    commit_queue m k (λ q. record q { to_delete = true; organization = none; team = none })
    abandon_queues qs

  -- `user.teams.remove(team); await User.commit()`: the class is asked to commit, which raises.
  unfoldable pub remove_team_of_users : ℕ → List (ℕ × User) → Exec (World m) (Unit {0})
  remove_team_of_users t [] = pure tt
  remove_team_of_users t ((k, u) ∷ us) = do
    ts ← or_raise (remove? t u.teams) value_error
    raise type_error

  unfoldable pub delete_teams : List (ℕ × Team) → Exec (World m) (Unit {0})
  unfolding remove_team_of_users
  delete_teams [] = pure tt
  delete_teams ((k, _) ∷ ts) = do
    us ← gets (λ w. find m (λ _. true) w.users)
    remove_team_of_users k us
    modify (λ w. record w { teams = m.delete w.teams k })
    delete_teams ts

  unfoldable pub delete_organization : Option String → Handle User → Exec (World m) (Unit {0})
  unfolding delete_tests abandon_queues delete_teams
  delete_organization id user = do
    o ← named (λ w. w.organizations) "Field organization_id is required" "Team not found" id
    owner ← fetch (λ w. w.users) o.doc.owner
    stop_if (not (owner.pk == user.pk)) einval "You are not the organization owner"
    os ← or_raise (remove? o.pk user.doc.organizations) value_error
    commit_user m user.pk (λ d. record d { organizations = os })
    tests ← gets (λ w. find m (λ t. opt_eq t.organization (some o.pk)) w.tests)
    delete_tests tests
    qs ← gets (λ w. find m (λ q. opt_eq q.organization (some o.pk)) w.task_queues)
    abandon_queues qs
    teams ← gets (λ w. find m (λ t. t.organization == o.pk) w.teams)
    delete_teams teams
    modify (λ w. record w { organizations = m.delete w.organizations o.pk })

  unfoldable pub quit_organization : Option String → Handle User → Exec (World m) (Unit {0})
  quit_organization id user = do
    to_quit ←
        named (λ w. w.organizations) "Field organization_id is required" "Organization not found" id
    stop_if (not (contains to_quit.pk user.doc.organizations)) einval
        "User is not in the organization"
    o ← deref (λ w. w.organizations) to_quit.pk
    owner ← fetch (λ w. w.users) o.doc.owner
    stop_if (owner.pk == user.pk) eperm "Can't quit the organization as you are the owner"
    ms ← or_raise (remove? user.pk o.doc.members) value_error
    commit_organization m o.pk (λ d. record d { members = ms })
    os ← or_raise (remove? o.pk user.doc.organizations) value_error
    commit_user m user.pk (λ d. record d { organizations = os })

  unfoldable pub join_organization : Option String → Handle User → Exec (World m) (Unit {0})
  join_organization id user = do
    o ← named (λ w. w.organizations) "Field organization_id is required" "Organization not found" id
    when (not (contains user.pk o.doc.members))
        (commit_organization m o.pk (λ d. record d { members = o.doc.members ++ (user.pk ∷ []) }))
    when (not (contains o.pk user.doc.organizations)) (
        commit_user m user.pk
          (λ d. record d { organizations = user.doc.organizations ++ (o.pk ∷ []) }))

  -- `for team in organization.teams: if owner in team.members: break`, with its `else`
  unfoldable pub in_some_team : ℕ → List ℕ → Exec (World m) Bool
  in_some_team u [] = pure false
  in_some_team u (t ∷ ts) = do
    team ← deref (λ w. w.teams) t
    if contains u team.doc.members then pure true else in_some_team u ts

  -- The teams that the old owner owned go to the new one.
  unfoldable pub transfer_teams : ℕ → ℕ → List ℕ → Exec (World m) (Unit {0})
  transfer_teams old new [] = pure tt
  transfer_teams old new (t ∷ ts) = do
    team ← deref (λ w. w.teams) t
    when (team.doc.owner == old) (
        commit_team m t (λ d. record d {
          owner = new;
          members =
              if contains new team.doc.members
              then team.doc.members
              else team.doc.members ++ (new ∷ []);
        }))
    transfer_teams old new ts

  unfoldable pub transfer_organization :
      Option String → Option String → Handle User → Exec (World m) (Unit {0})
  unfolding in_some_team transfer_teams
  transfer_organization id new_owner user = do
    o ← named (λ w. w.organizations) "Field organization_id is required" "Organization not found" id
    current ← fetch (λ w. w.users) o.doc.owner
    stop_if (not (current.pk == user.pk)) eperm "You are not the organization owner"
    owner ← named (λ w. w.users) "Field new_owner is required" "New owner not found" new_owner
    let member = contains owner.pk o.doc.members
    known ← if member then pure true else in_some_team owner.pk o.doc.teams
    stop_if (not known) eperm "New owner should be a member of the organization"
    commit_organization m o.pk (λ d. record d {
      owner = owner.pk;
      members = if member then o.doc.members else o.doc.members ++ (owner.pk ∷ []);
    })
    transfer_teams user.pk owner.pk o.doc.teams
