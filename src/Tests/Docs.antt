-- ===== src/Tests/Docs.antt =====
-- The pages of the documentation at a small repository and one stored page.
use auto_test_system.Prelude.{◌≡◌, refl, true, false, none, some, [], ◌∷◌, arith, present}
use auto_test_system.Documents.{User, Documentation}
use auto_test_system.Mongo.Defs.{find_one}
use auto_test_system.Mongo.Assoc.{assoc, assoc_with-IsLawful}
use auto_test_system.World.{World}
use auto_test_system.Queue.{Handle}
use auto_test_system.Util.{flag, js2python_bool}
use auto_test_system.Text.{ends_with, basename, split_dir}
use auto_test_system.Access.{is_admin, is_collaborator}
use auto_test_system.Paths.{is_path_secure}
use auto_test_system.Doc.Publish.{Repo}
use auto_test_system.Doc.{PageRequest, check_editable, post_page, delete_page, lock_page}
use auto_test_system.Doc.Pages.{post_query, outsider_kept}
use auto_test_system.Doc.Stored.{post_stored, lock_reaches_team}
use auto_test_system.Tests.Data.{empty_world}
use auto_test_system.Tests.Shelf.{ctx}

abbrev user : Handle User
user = record {
  pk = 9;
  doc = record { email = "i@x.org"; name = "ida"; roles = []; organizations = 1 ∷ []; teams = [] };
}

abbrev repo : Repo
repo = record {
  exit_code = λ c. 1;
  has_bare = true;
  has_git = true;
  revision = some (some 3);
  content = λ path. some "text";
}

abbrev page : Documentation
page = record {
  filename = "a.md";
  path = "a.md";
  uploader = none;
  last_modifier = none;
  organization = none;
  team = none;
  view_times = 0;
  proprietary = false;
  locked = true;
  language = "en";
}

abbrev public : PageRequest
public = record { path = "a.md"; proprietary = flag false; language = "en" }

abbrev internal : PageRequest
internal = record { path = "a.md"; proprietary = flag true; language = "en" }

abbrev with_page : Documentation → World assoc
with_page d = record (empty_world true) { documents = (6, d) ∷ [] }

outsider_kept_example :
    ((post_page assoc repo ctx public user (with_page page)).1 ≡ with_page page)
    × ((delete_page assoc repo ctx public user (with_page page)).1 ≡ with_page page)
    × ((lock_page assoc repo ctx public (flag false) user (with_page page)).1 ≡ with_page page)
unfolding is_admin is_collaborator
outsider_kept_example =
    outsider_kept assoc ctx repo user (with_page page) public (flag false) (refl, refl, refl, refl)
      (λ k d e f. ground (arith, e))

abbrev team_page : Documentation
team_page = record page { proprietary = true; organization = some 1; team = some 4; locked = false }

-- Every command of git fails.
post_stored_example :
    present (
      find_one assoc
        (post_query assoc ctx repo user (with_page team_page) internal)
        (post_page assoc repo ctx internal user (with_page team_page)).1.documents)
    ≡ true
unfolding is_path_secure check_editable find_one js2python_bool ends_with basename split_dir
    is_admin
post_stored_example =
    post_stored assoc ctx repo user (with_page team_page) (assoc_with-IsLawful true) internal refl
      refl refl

lock_reaches_team_example :
    assoc.get
      (lock_page assoc repo ctx internal (flag true) user (with_page team_page)).1.documents
      6
    ≡ some (record team_page { locked = true })
unfolding js2python_bool ends_with
lock_reaches_team_example =
    lock_reaches_team assoc ctx repo user (with_page team_page) (assoc_with-IsLawful true) internal
      (flag true) 6 4 team_page refl refl refl refl refl refl refl refl refl refl refl
      (λ j e f g. ground (arith, f))
