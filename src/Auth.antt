-- ===== src/Auth.antt =====
-- Logging in, logging out and registering: webserver/app/main/service/auth_helper.py,
-- user_service.py and blacklist_service.py. The token library, the password hashes and the texts of
-- ids are parameters.
pub mod Session
use auto_test_system.Prelude.{
  ℕ, Bool, true, false, not, ◌==◌, Option, none, some, List, [], ◌∷◌, String, str_eq, present,
  is_empty, if◌then◌else◌, ◌≡◌,
}
use auto_test_system.Exec.{
  Exec, ok, pure, gets, respond, or_respond, stop_if, modify, when, token_required as need_token,
  token_illegal, user_not_exist, password_incorrect, unknown_error, user_already_exist, eexist,
  ◌>>=◌, ◌>>◌,
}
use auto_test_system.Mongo.Defs.{Mongo, find_one}
use auto_test_system.Documents.{User, Organization}
use auto_test_system.World.{World}
use auto_test_system.Queue.{Handle}
use auto_test_system.Util.{nonempty}
use auto_test_system.Access.{get_logged_in_user, decode_auth_token, check_blacklist}
use auto_test_system.Store.{commit_user}

-- `jwt.encode`, `jwt.decode` of unexpired tokens, and `bcrypt`. An encoding that fails gives `none`.
pub record Tokens : Type 0 where
  pub encode : String → Option String
  pub decode : String → Option String
  pub check_password_hash : String → String → Bool
  pub generate_password_hash : String → String
  -- `str(pk)`
  pub id_text : ℕ → String

module _ (m : Mongo) (tk : Tokens) where
  -- `password_hash` of the user's document; the document library does not let it be empty here.
  module _ (hash_of : User → String) where
    unfoldable pub login_user : String → String → Exec (World m) String
    login_user email password = do
      found ← gets (λ w. find_one m (λ u. str_eq u.email email) w.users)
      user ← or_respond found user_not_exist ""
      stop_if (not (tk.check_password_hash (hash_of (user.1)) password)) password_incorrect ""
      or_respond (tk.encode (tk.id_text (user.0))) unknown_error ""

  -- The commit of a token that is already on the list fails: the field is unique.
  unfoldable pub save_token : String → Exec (World m) (Unit {0})
  save_token token = do
    listed ← gets (check_blacklist m tk.decode token)
    stop_if listed unknown_error ""
    modify (λ w. record w { blacklist = m.insert w.blacklist (m.new_id w.blacklist) token })

  unfoldable pub logout_user : Option String → Exec (World m) (Unit {0})
  unfolding save_token
  logout_user token = do
    t ← or_respond (nonempty token) need_token ""
    payload ← gets (decode_auth_token m tk.decode t)
    sub ← or_respond payload token_illegal ""
    save_token t

  -- What a registration asks for; `admin` is set when an administrator registers somebody else.
  -- The flag says that a directory of the new user exists already.
  pub record Registration : Type 0 where
    pub email : String
    pub username : String
    pub local_part : String
    pub admin : Bool
    pub directory_exists : Bool

  abbrev pub new_user : Registration → Bool → User
  new_user r first = record {
    email = r.email;
    name = r.username;
    roles = (if first then "admin" else "viewer") ∷ [];
    organizations = [];
    teams = [];
  }

  -- `Organization(name='Personal')` with the new user as its owner and only member
  unfoldable pub add_personal : ℕ → Exec (World m) (List ℕ)
  add_personal uid = do
    oid ← gets (λ w. m.new_id w.organizations)
    modify (λ w. record w {
      organizations = m.insert w.organizations oid (record {
        name = "Personal";
        owner = uid;
        members = uid ∷ [];
        teams = [];
        personal = true;
        editors = [];
      });
    })
    pure (oid ∷ [])

  -- The fields are taken to be valid; the answer holds the new user's token.
  unfoldable pub save_new_user : Registration → Exec (World m) String
  unfolding add_personal
  save_new_user r = do
    taken ← gets (λ w. find_one m (λ u. str_eq u.email r.email) w.users)
    stop_if (present taken) user_already_exist ""
    first ← gets (λ w. is_empty (m.scan w.users))
    uid ← gets (λ w. m.new_id w.users)
    modify (λ w. record w { users = m.insert w.users uid (new_user r first) })
    stop_if r.directory_exists eexist ""
    organizations ← if r.admin then pure [] else add_personal uid
    commit_user m uid (λ u. record u {
      name = if str_eq u.name "" then r.local_part else u.name;
      organizations = organizations;
    })
    or_respond (tk.encode (tk.id_text uid)) unknown_error ""
