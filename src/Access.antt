-- ===== src/Access.antt =====
-- Who may call a handler: webserver/app/main/util/decorator.py, with `get_logged_in_user` of
-- webserver/app/main/service/auth_helper.py and `decode_auth_token` of database.py. A decorator is the
-- guard that runs before the handler, and stops with its error response.
pub mod Guards
use auto_test_system.Prelude.{
  ℕ, Bool, true, false, not, ◌||◌, ◌&&◌, Option, none, some, List, [], ◌∷◌, String, str_eq,
  contains, present, opt_eq, if◌then◌else◌,
}
use auto_test_system.Exec.{
  Exec, ok, raised, stop, type_error, pure, gets, respond, or_respond, or_raise, stop_if, modify,
  invalid_id, token_required as need_token, token_illegal, user_not_exist,
  admin_token_required as need_admin, enoent, einval, eperm, attribute_error, ◌>>=◌, ◌>>◌,
}
use auto_test_system.Mongo.Defs.{Mongo, find_one}
use auto_test_system.Documents.{User, Organization, Team, Task}
use auto_test_system.World.{World}
use auto_test_system.Queue.{Handle}
use auto_test_system.Util.{Value, js2python_variable, js2python_bool, nonempty}

pub record Context : Type 0 where
  pub organization : Handle Organization
  pub team : Option (Handle Team)

-- The `_id` of an optional team, as the queries use it: `team.pk if team else None`.
abbrev pub pk_of : {D : Type 0} → Option (Handle D) → Option ℕ
pk_of none = none
pk_of (some h) = some h.pk

-- `'admin' in self.roles`
abbrev pub has_role : String → List String → Bool
has_role r [] = false
has_role r (x ∷ xs) = str_eq x r || has_role r xs

unfoldable pub is_admin : User → Bool
is_admin u = has_role "admin" u.roles

unfoldable pub is_collaborator : User → Bool
is_collaborator u = has_role "collaborator" u.roles

module _ (m : Mongo) where
  -- `find_one({'_id': ObjectId(text)})`
  abbrev pub by_id :
      {D : Type 0} → (World m → m.Collection D) → String → Exec (World m) (Option (Handle D))
  by_id c s w = elim (m.object_id s) [
    | none ↦ (raised invalid_id, w)
    | some k ↦ elim (m.get (c w) k) [
      | none ↦ (ok none, w)
      | some d ↦ (ok (some (record { pk = k; doc = d })), w)
    ]
  ]

-- The signature and expiry check of the token library: the subject of a valid token.
module _ (m : Mongo) (jwt_decode : String → Option String) where
  unfoldable pub check_blacklist : String → World m → Bool
  check_blacklist token w = present (find_one m (λ t. str_eq t token) w.blacklist)

  unfoldable pub decode_auth_token : String → World m → Option String
  unfolding check_blacklist
  decode_auth_token token w = elim (jwt_decode token) [
    | none ↦ none
    | some sub ↦ if check_blacklist token w then none else some sub
  ]

  unfoldable pub get_logged_in_user : Option String → Exec (World m) (Handle User)
  unfolding decode_auth_token
  get_logged_in_user token = do
    t ← or_respond (nonempty token) need_token ""
    payload ← gets (decode_auth_token t)
    sub ← or_respond payload token_illegal ""
    user ← by_id m (λ w. w.users) sub
    or_respond user user_not_exist ""

  unfoldable pub token_required : Option String → Exec (World m) (Handle User)
  unfolding get_logged_in_user
  token_required = get_logged_in_user

  unfoldable pub admin_required : Option String → Exec (World m) (Handle User)
  unfolding get_logged_in_user is_admin
  admin_required token = do
    user ← get_logged_in_user token
    stop_if (not (is_admin user.doc)) need_admin ""
    pure user

  -- `if team_id: team = find_one(...)`, and the test that the user has joined it; the first text is the
  -- refusal of a team that the user has not joined.
  unfoldable pub joined_team :
      String → Option String → Handle User → Exec (World m) (Option (Handle Team))
  joined_team refusal none user = pure none
  joined_team refusal (some team_id) user = do
    found ← by_id m (λ w. w.teams) team_id
    team ← or_respond found enoent "Team not found"
    stop_if (not (contains team.pk user.doc.teams)) einval refusal
    pure (some team)

  unfoldable pub joined_organization :
      String → Option String → Handle User → Exec (World m) (Option (Handle Organization))
  joined_organization refusal none user = pure none
  joined_organization refusal (some org_id) user = do
    found ← by_id m (λ w. w.organizations) org_id
    organization ← or_respond found enoent "Organization not found"
    stop_if (not (contains organization.pk user.doc.organizations)) einval refusal
    pure (some organization)

  unfoldable pub organization_team_required :
      Option String → Option String → Handle User → Exec (World m) Context
  unfolding joined_team joined_organization
  organization_team_required org_id team_id user = do
    team ←
        joined_team "Field organization_team is incorrect, not a team member joined"
          (js2python_variable team_id) user
    found ←
        joined_organization "Field organization_team is incorrect, not a organization member joined"
          (js2python_variable org_id) user
    organization ← or_respond found einval "Please select an organization or team first"
    pure (record { organization = organization; team = team })

  unfoldable pub task_required : Option String → Context → Exec (World m) (Handle Task)
  task_required task_id ctx = do
    t ← or_respond (nonempty task_id) einval "Field task_id is required"
    found ← by_id m (λ w. w.tasks) t
    task ← or_respond found enoent "Task not found"
    stop_if
        (not (opt_eq task.doc.organization (some ctx.organization.pk))
          || not (opt_eq task.doc.team (pk_of ctx.team)))
        eperm "Accessing resources that not belong to you is not allowed"
    pure task

  -- A failed login is returned as a finished response here, and the decorator's `ret['code']` raises
  -- `TypeError` on it.
  abbrev pub subscripted : {A : Type 0} → Exec (World m) A → Exec (World m) A
  subscripted e w =
      let (r, w') = e w in
      elim r [ ok a ↦ (ok a, w') | stop c t ↦ (raised type_error, w') | raised x ↦ (raised x, w') ]

  -- A proprietary resource needs a logged-in member; any other is open to everybody.
  unfoldable pub token_required_if_proprietary :
      Value
      → Option String
      → Option String
      → Option String
      → Exec (World m) (Option (Handle User × Option (Handle Organization) × Option (Handle Team)))
  unfolding get_logged_in_user joined_team joined_organization
  token_required_if_proprietary proprietary token org_id team_id =
      if js2python_bool proprietary
      then (do
        user ← subscripted (get_logged_in_user token)
        team ← joined_team "Your are not a team member" (js2python_variable team_id) user
        organization ←
            joined_organization "You are not an organization member" (js2python_variable org_id)
              user
        pure (some (user, organization, team)))
      else pure none
