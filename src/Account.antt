-- ===== src/Account.antt =====
-- The account handlers of webserver/app/main/controller/user_controller.py that change state, and
-- /check. The directories of a user, the avatar and the texts about him are left out.
pub mod Deletion
use auto_test_system.Prelude.{
  ℕ, Bool, true, false, not, ◌||◌, Option, none, some, List, [], ◌∷◌, String, str_eq, ◌==◌, remove?,
  length, is_empty, leb, present, opt_eq, if◌then◌else◌,
}
use auto_test_system.Exec.{
  Exec, pure, gets, respond, or_respond, or_raise, stop_if, raise_if, modify, when, einval, eacces,
  password_incorrect, user_already_exist, user_not_exist, value_error, type_error, attribute_error,
  ◌>>=◌, ◌>>◌,
}
use auto_test_system.Mongo.Defs.{Mongo, find, find_one}
use auto_test_system.Documents.{User, Organization, Team}
use auto_test_system.World.{World}
use auto_test_system.Queue.{Handle}
use auto_test_system.Util.{nonempty}
use auto_test_system.Store.{commit_user, commit_organization, commit_team}
use auto_test_system.Organization.{fetch, delete_tests}
use auto_test_system.Auth.{Tokens, logout_user}

-- `len(members) > 1` of a document that the user owns.
abbrev crowded : {D : Type 0} → (D → List ℕ) → List (ℕ × D) → Bool
crowded members [] = false
crowded members ((k, d) ∷ l) = leb 2 (length (members d)) || crowded members l

-- A field that is assigned only if there is a new value.
abbrev or_name : Option String → String → String
or_name none old = old
or_name (some new) old = new

module _ (m : Mongo) where
  -- Each branch answers: the address is taken, free, or missing.
  unfoldable pub check : Option String → Exec (World m) (Unit {0})
  check email = do
    address ← or_respond (nonempty email) einval "Field email is required"
    found ← gets (λ w. find_one m (λ u. str_eq u.email address) w.users)
    if present found then respond user_already_exist "" else respond user_not_exist ""

  -- `valid`: the check of an address by the document library. A refused change is not stored.
  unfoldable pub new_email :
      (String → Bool) → Handle User → Option String → Exec (World m) (Option String)
  new_email valid user none = pure none
  new_email valid user (some email) = if str_eq email user.doc.email then pure none else (do
    found ← gets (λ w. find_one m (λ u. str_eq u.email email) w.users)
    stop_if (present found) user_already_exist "email has been registered"
    stop_if (not (valid email)) einval "Not a valid email address."
    pure (some email))

  unfoldable pub update_account :
      (String → Bool) → Option String → Option String → Handle User → Exec (World m) (Unit {0})
  unfolding new_email
  update_account valid name email user = do
    address ← new_email valid user (nonempty email)
    commit_user m user.pk
        (λ d. record d { name = or_name (nonempty name) d.name; email = or_name address d.email })

  unfoldable pub leave_organizations : ℕ → List ℕ → Exec (World m) (Unit {0})
  leave_organizations user [] = pure tt
  leave_organizations user (k ∷ ks) = do
    o ← fetch m (λ w. w.organizations) k
    ms ← or_raise (remove? user o.doc.members) value_error
    commit_organization m k (λ d. record d { members = ms })
    leave_organizations user ks

  -- `team.commit()` is called on the reference, which was fetched into another name.
  unfoldable pub leave_teams : ℕ → List ℕ → Exec (World m) (Unit {0})
  leave_teams user [] = pure tt
  leave_teams user (k ∷ ks) = do
    t ← fetch m (λ w. w.teams) k
    ms ← or_raise (remove? user t.doc.members) value_error
    raise_if (not m.forwards) attribute_error
    commit_team m k (λ d. record d { members = ms })
    leave_teams user ks

  -- `async for u in User.find()`: every user has to list what is deleted.
  unfoldable pub drop_team : ℕ → List (ℕ × User) → Exec (World m) (Unit {0})
  drop_team t [] = pure tt
  drop_team t ((k, u) ∷ us) = do
    ts ← or_raise (remove? t u.teams) value_error
    commit_user m k (λ d. record d { teams = ts })
    drop_team t us

  unfoldable pub drop_organization : ℕ → List (ℕ × User) → Exec (World m) (Unit {0})
  drop_organization o [] = pure tt
  drop_organization o ((k, u) ∷ us) = do
    os ← or_raise (remove? o u.organizations) value_error
    commit_user m k (λ d. record d { organizations = os })
    drop_organization o us

  unfoldable pub delete_owned_teams : List (ℕ × Team) → Exec (World m) (Unit {0})
  unfolding drop_team
  delete_owned_teams [] = pure tt
  delete_owned_teams ((k, _) ∷ ts) = do
    us ← gets (λ w. find m (λ _. true) w.users)
    drop_team k us
    modify (λ w. record w { teams = m.delete w.teams k })
    delete_owned_teams ts

  -- Its tests with their tasks and results go. At the first queue of the organization the code awaits
  -- `queue.update(...)`, which is no coroutine and returns `None`: the queue stays as it is stored, and the
  -- `await` raises.
  unfoldable pub delete_contents : ℕ → Exec (World m) (Unit {0})
  delete_contents k = do
    tests ← gets (λ w. find m (λ t. opt_eq t.organization (some k)) w.tests)
    delete_tests m tests
    qs ← gets (λ w. find m (λ q. opt_eq q.organization (some k)) w.task_queues)
    raise_if (not (is_empty qs)) type_error
    modify (λ w. record w { organizations = m.delete w.organizations k })

  unfoldable pub delete_owned_organization : ℕ → Exec (World m) (Unit {0})
  unfolding drop_organization delete_contents
  delete_owned_organization k =
      gets (λ w. find m (λ _. true) w.users) >>= λ us. drop_organization k us >> delete_contents k

  unfoldable pub delete_owned_organizations : List (ℕ × Organization) → Exec (World m) (Unit {0})
  unfolding delete_owned_organization
  delete_owned_organizations [] = pure tt
  delete_owned_organizations ((k, _) ∷ os) =
      delete_owned_organization k >> delete_owned_organizations os

  -- What follows the password check; the tests of the members come after the user has left.
  unfoldable pub leave_all : Handle User → Exec (World m) (Unit {0})
  unfolding leave_organizations leave_teams
  leave_all user =
      leave_organizations user.pk user.doc.organizations >> leave_teams user.pk user.doc.teams

  unfoldable pub refuse_owner : Handle User → Exec (World m) (Unit {0})
  refuse_owner user = do
    teams ← gets (λ w. find m (λ t. t.owner == user.pk) w.teams)
    stop_if (crowded (λ t. t.members) teams) eacces
        "you have owned a team, please transfer the ownership to another member first"
    orgs ← gets (λ w. find m (λ o. o.owner == user.pk) w.organizations)
    stop_if (crowded (λ o. o.members) orgs) eacces
        "you have owned an organization, please transfer the ownership to another member first"

  unfoldable pub delete_owned : Handle User → Exec (World m) (Unit {0})
  unfolding delete_owned_teams delete_owned_organizations
  delete_owned user = do
    teams ← gets (λ w. find m (λ t. t.owner == user.pk) w.teams)
    delete_owned_teams teams
    orgs ← gets (λ w. find m (λ o. o.owner == user.pk) w.organizations)
    delete_owned_organizations orgs

  module _ (tk : Tokens) (hash_of : User → String) where
    unfoldable pub delete_account :
        Option String → Option String → Handle User → Exec (World m) (Unit {0})
    unfolding leave_all refuse_owner delete_owned
    delete_account password token user = do
      given ← or_respond (nonempty password) einval "Field password is required"
      stop_if (not (tk.check_password_hash (hash_of user.doc) given)) password_incorrect ""
      leave_all user
      refuse_owner user
      delete_owned user
      modify (λ w. record w { users = m.delete w.users user.pk })
      logout_user m tk token
