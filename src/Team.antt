-- ===== src/Team.antt =====
-- The handlers of webserver/app/main/controller/team_controller.py that change state; the listings are
-- in a child. Avatars and directories are left out, but for the directory that is there.
pub mod Listing
use auto_test_system.Prelude.{
  ℕ, Bool, true, false, not, ◌||◌, ◌&&◌, Option, none, some, List, [], ◌∷◌, ◌++◌, String, str_eq,
  ◌==◌, contains, remove?, if◌then◌else◌, opt_eq, present,
}
use auto_test_system.Exec.{
  Exec, ok, raised, pure, gets, raise, respond, or_respond, or_raise, stop_if, modify, when, enoent,
  einval, eperm, eexist, value_error, ◌>>=◌, ◌>>◌,
}
use auto_test_system.Mongo.Defs.{Mongo, find, find_one}
use auto_test_system.Documents.{User, Organization, Team}
use auto_test_system.World.{World}
use auto_test_system.Queue.{Handle}
use auto_test_system.Util.{nonempty}
use auto_test_system.Access.{by_id}
use auto_test_system.Store.{commit_user, commit_organization, commit_team}
use auto_test_system.Organization.{fetch, deref, named, delete_tests, abandon_queues}

module _ (m : Mongo) where
  -- The flag says that the new team's directory exists already.
  unfoldable pub create_team :
      Option String → Option String → Bool → Handle User → Exec (World m) (Unit {0})
  create_team name organization_id directory_exists user = do
    n ← or_respond (nonempty name) einval "Field name is required"
    o ←
        named m (λ w. w.organizations) "Field organization_id is required" "Organization not found"
          organization_id
    stop_if (not (o.doc.owner == user.pk)) einval "Your are not the organization's owner"
    same ← gets (λ w. find_one m (λ t. str_eq t.name n && t.organization == o.pk) w.teams)
    stop_if (present same) eexist "Team has been registered"
    tid ← gets (λ w. m.new_id w.teams)
    modify (λ w. record w {
      teams = m.insert w.teams tid (record {
        name = n;
        owner = user.pk;
        members = user.pk ∷ [];
        organization = o.pk;
        editors = [];
      });
    })
    commit_user m user.pk (λ d. record d { teams = user.doc.teams ++ (tid ∷ []) })
    commit_organization m o.pk (λ d. record d { teams = o.doc.teams ++ (tid ∷ []) })
    stop_if directory_exists eexist ""
    commit_team m tid (λ d. d)

  -- The owner of the team, or else of its organization
  unfoldable pub may_delete_team :
      Handle Team → Handle Organization → Handle User → Exec (World m) Bool
  may_delete_team team o user = do
    owner ← fetch m (λ w. w.users) team.doc.owner
    if owner.pk == user.pk
        then pure true
        else (do org_owner ← fetch m (λ w. w.users) o.doc.owner; pure (org_owner.pk == user.pk))

  unfoldable pub delete_team : Option String → Handle User → Exec (World m) (Unit {0})
  unfolding may_delete_team
  delete_team id user = do
    team ← named m (λ w. w.teams) "Field team_id is required" "Team not found" id
    o ← fetch m (λ w. w.organizations) team.doc.organization
    allowed ← may_delete_team team o user
    stop_if (not allowed) einval "You are not the team owner"
    os ← or_raise (remove? team.pk o.doc.teams) value_error
    commit_organization m o.pk (λ d. record d { teams = os })
    ts ← or_raise (remove? team.pk user.doc.teams) value_error
    commit_user m user.pk (λ d. record d { teams = ts })
    tests ← gets (λ w. find m (λ t. opt_eq t.team (some team.pk)) w.tests)
    delete_tests m tests
    qs ← gets (λ w. find m (λ q. opt_eq q.team (some team.pk)) w.task_queues)
    abandon_queues m qs
    modify (λ w. record w { teams = m.delete w.teams team.pk })

  unfoldable pub quit_team : Option String → Handle User → Exec (World m) (Unit {0})
  quit_team id user = do
    to_quit ← named m (λ w. w.teams) "Field team_id is required" "Team not found" id
    stop_if (not (contains to_quit.pk user.doc.teams)) einval "User is not in the team"
    t ← deref m (λ w. w.teams) to_quit.pk
    owner ← fetch m (λ w. w.users) t.doc.owner
    stop_if (owner.pk == user.pk) eperm "Can't quit the team as you are the owner"
    ms ← or_raise (remove? user.pk t.doc.members) value_error
    commit_team m t.pk (λ d. record d { members = ms })
    ts ← or_raise (remove? t.pk user.doc.teams) value_error
    commit_user m user.pk (λ d. record d { teams = ts })

  unfoldable pub join_team : Option String → Handle User → Exec (World m) (Unit {0})
  join_team id user = do
    t ← named m (λ w. w.teams) "Field team_id is required" "Team not found" id
    when (not (contains user.pk t.doc.members))
        (commit_team m t.pk (λ d. record d { members = t.doc.members ++ (user.pk ∷ []) }))
    when (not (contains t.pk user.doc.teams))
        (commit_user m user.pk (λ d. record d { teams = user.doc.teams ++ (t.pk ∷ []) }))
