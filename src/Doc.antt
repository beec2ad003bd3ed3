-- ===== src/Doc.antt =====
-- webserver/app/main/controller/document_controller.py: the pages of the documentation, read, written,
-- deleted and locked. The file system and git are parameters.
pub mod Publish
pub mod Still
pub mod Pages
pub mod Stored
use auto_test_system.Prelude.{
  ℕ, Bool, true, false, not, ◌&&◌, ◌||◌, Option, none, some, List, [], ◌∷◌, ◌+◌, String, ◌<>◌,
  str_eq, opt_eq, contains, if◌then◌else◌, ◌==◌,
}
use auto_test_system.Exec.{
  Exec, pure, gets, respond, or_respond, or_raise, stop_if, modify, when, einval, enoent, eacces,
  git_error, file_not_found, ◌>>=◌, ◌>>◌,
}
use auto_test_system.Mongo.Defs.{Mongo, find_one}
use auto_test_system.Documents.{User, Organization, Team, Documentation}
use auto_test_system.World.{World}
use auto_test_system.Store.{commit_page}
use auto_test_system.Queue.{Handle}
use auto_test_system.Util.{Value, js2python_bool}
use auto_test_system.Access.{Context, pk_of, is_admin, is_collaborator}
use auto_test_system.Text.{ends_with, ends_with_char, drop_last, basename}
use auto_test_system.Paths.{is_path_secure}
use auto_test_system.Doc.Publish.{Repo, checkout, publish, git_checkout_add_push}

abbrev pub edits_team : ℕ → Option (Handle Team) → Bool
edits_team user none = false
edits_team user (some team) = contains user team.doc.editors

-- `None` for the page is a new one.
unfoldable pub check_editable : Option Documentation → Handle User → Context → Bool → Bool
check_editable page user ctx proprietary =
    let editor = edits_team user.pk ctx.team || contains user.pk ctx.organization.doc.editors in
    is_admin user.doc || elim page [
      | none ↦ editor || (not proprietary && is_collaborator user.doc)
      | some d ↦
          if d.proprietary then not d.locked || editor else not d.locked || is_collaborator user.doc
    ]

-- The fields of a request.
pub record PageRequest : Type 0 where
  pub path : String
  pub proprietary : Value
  pub language : String

abbrev pub of_team : Option (Handle Team) → Documentation → Bool
of_team none d = true
of_team (some team) d = opt_eq d.team (some team.pk)

abbrev pub same_flag : Bool → Bool → Bool
same_flag true b = b
same_flag false b = not b

-- The query without a team does not ask for pages that have none.
abbrev pub page_query : Context → Bool → String → String → Documentation → Bool
page_query ctx proprietary language path d =
    str_eq d.path path
    && same_flag proprietary d.proprietary
    && str_eq d.language language
    && (not proprietary || (opt_eq d.organization (some ctx.organization.pk) && of_team ctx.team d))

abbrev pub with_md : String → String
with_md path = if ends_with ".md" path then path else path <> ".md"

abbrev pub page_path : String → String
page_path path =
    if str_eq path "" then "home.md" else if ends_with_char b'/' path then drop_last path else path

abbrev pub locks_home : String → Bool → Bool
locks_home path locked = if str_eq path "home.md" then true else locked

abbrev pub new_page : Context → Handle User → Bool → String → String → Documentation
new_page ctx user proprietary language path = record {
  filename = basename path;
  path = path;
  uploader = some user.pk;
  last_modifier = none;
  organization = if proprietary then some ctx.organization.pk else none;
  team = if proprietary then pk_of ctx.team else none;
  view_times = 0;
  proprietary = proprietary;
  locked = locks_home path false;
  language = language;
}

module _ (m : Mongo) (ctx : Context) where
  -- A page that is found is changed; otherwise a new one is stored.
  unfoldable pub store_page :
      Handle User → Bool → String → String → Option (ℕ × Documentation) → Exec (World m) (Unit {0})
  store_page user proprietary language path none = do
    stop_if (not (check_editable none user ctx proprietary)) eacces ""
    modify (λ w. record w {
      documents =
          m.insert w.documents (m.new_id w.documents) (new_page ctx user proprietary language path);
    })
  store_page user proprietary language path (some (k, page)) = do
    stop_if (not (check_editable (some page) user ctx false)) eacces ""
    commit_page m k
        (λ d. record d { last_modifier = some user.pk; locked = locks_home path d.locked })

module _ (m : Mongo) (repo : Repo) (ctx : Context) where
  -- The content of the page, and whether it is locked.
  unfoldable pub get_page : PageRequest → Exec (World m) (String × Bool)
  get_page req = do
    let path = page_path req.path
    let proprietary = js2python_bool req.proprietary
    found ← gets (λ w. find_one m (page_query ctx proprietary req.language path) w.documents)
    page ← or_respond found enoent ""
    commit_page m page.0 (λ d. record d { view_times = page.1.view_times + 1 })
    stop_if (not (repo.exit_code (checkout req.language) == 0)) git_error "git checkout error"
    content ← or_raise (repo.content page.1.path) file_not_found
    pure (content, page.1.locked)

  unfoldable pub post_page : PageRequest → Handle User → Exec (World m) (Unit {0})
  post_page req user = do
    stop_if (str_eq req.path "") einval "file's path is required"
    stop_if (not (is_path_secure req.path)) einval "Illegal path"
    let path = with_md req.path
    let proprietary = js2python_bool req.proprietary
    found ← gets (λ w.
        find_one m
          (λ d. page_query ctx proprietary req.language path d && str_eq d.filename (basename path))
          w.documents)
    store_page m ctx user proprietary req.language path found
    publish repo req.language

  unfoldable pub delete_page : PageRequest → Handle User → Exec (World m) (Unit {0})
  delete_page req user = do
    stop_if (str_eq req.path "") einval "file's path is required"
    let path = with_md req.path
    let proprietary = js2python_bool req.proprietary
    found ← gets (λ w. find_one m (page_query ctx proprietary req.language path) w.documents)
    page ← or_respond found enoent "document not found"
    stop_if (not (check_editable (some page.1) user ctx false)) eacces ""
    stop_if (not (repo.exit_code (checkout req.language) == 0)) enoent "file not found"
    or_raise (repo.content page.1.path) file_not_found
    modify (λ w. record w { documents = m.delete w.documents page.0 })
    git_checkout_add_push repo req.language false repo.revision
    pure tt

  unfoldable pub lock_page : PageRequest → Value → Handle User → Exec (World m) (Unit {0})
  lock_page req lock user = do
    stop_if (str_eq req.path "") einval "file's path is required"
    let path = with_md req.path
    let proprietary = js2python_bool req.proprietary
    found ← gets (λ w. find_one m (page_query ctx proprietary req.language path) w.documents)
    page ← or_respond found enoent "document not found"
    stop_if (not (check_editable (some page.1) user ctx false)) eacces ""
    commit_page m page.0 (λ d. record d { locked = js2python_bool lock })
