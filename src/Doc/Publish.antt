-- ===== src/Doc/Publish.antt =====
-- The git steps of webserver/app/main/controller/document_controller.py behind a change of a page. They
-- touch no document of the database. A command ends in an exit code, which is a parameter.
use auto_test_system.Prelude.{
  ℕ, Bool, true, false, not, Option, none, some, String, if◌then◌else◌, ◌==◌, ◌||◌, ◌&&◌,
}
use auto_test_system.Exec.{
  Exec, Code, pure, raise, stop_if, when, success, git_error, file_not_found, value_error, ◌>>◌,
}

pub data Command : Type 0 where
  checkout checkout_new checkout_orphan push : String → Command
  init_bare init remote_add add commit : Command

-- What stands in the directory of the documents when a request arrives.
pub record Repo : Type 0 where
  pub exit_code : Command → ℕ
  -- whether there are a bare repository and a work tree
  pub has_bare : Bool
  pub has_git : Bool
  -- the number in `.revision` on the branch: `none` where there is no file, or no number in it
  pub revision : Option (Option ℕ)
  -- the file of a page
  pub content : String → Option String

module _ (repo : Repo) where
  abbrev pub succeeds : Command → Bool
  succeeds c = repo.exit_code c == 0

  -- `add`, `commit` and `push`; the code of the response
  abbrev pub push_response : String → Code
  push_response language =
      if not (succeeds add)
      then git_error
      else if not (succeeds commit)
      then git_error
      else if succeeds (push language)
      then success
      else git_error

module _ {S : Type 0} where
  abbrev pub next_revision : Option (Option ℕ) → Exec S ℕ
  next_revision none = raise file_not_found
  next_revision (some none) = raise value_error
  next_revision (some (some n)) = pure n

module _ {S : Type 0} (repo : Repo) where
  -- The callers ignore the response.
  unfoldable pub git_checkout_add_push : String → Bool → Option (Option ℕ) → Exec S Code
  git_checkout_add_push language new_branch revision =
      if new_branch && not (succeeds repo (checkout_new language))
      then pure git_error
      else (do next_revision revision; pure (push_response repo language))

  -- The work tree, its remote and its first branch; `.revision` is written first.
  unfoldable pub init_work_tree : Exec S (Unit {0})
  init_work_tree = do
    stop_if (not (succeeds repo init)) git_error "git local init error"
    stop_if (not (succeeds repo remote_add)) git_error "git remote add error"
    git_checkout_add_push "master" true (some (some 0))
    pure tt

  -- From the stored page to the pushed file. A new work tree or branch has a new `.revision`.
  unfoldable pub publish : String → Exec S (Unit {0})
  publish language = do
    when (not repo.has_bare) (stop_if (not (succeeds repo init_bare)) git_error "git init error")
    when (not repo.has_git) init_work_tree
    let known = succeeds repo (checkout language)
    when (not known) (
        stop_if (not (succeeds repo (checkout_orphan language))) git_error
          "git checkout branch error")
    git_checkout_add_push language false
        (if not repo.has_git || not known then some (some 0) else repo.revision)
    pure tt
