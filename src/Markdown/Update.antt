-- ===== src/Markdown/Update.antt =====
-- webserver/task_runner/util/dbhelper.py: `db_update_test` brings the test of a script file up to date,
-- with the comparison that ends `update_test_from_md`. `tokens` is what the lexer yields for a file.
pub mod Created
use auto_test_system.Prelude.{
  ℕ, Bool, true, false, not, ◌&&◌, ◌||◌, ◌≡◌, refl, ap, ◌∙◌, Bool-cases, Option, none, some, List,
  [], ◌∷◌, ◌==◌, String, str_eq, opt_eq, if◌then◌else◌, length, arith, Option-cases, inl, inr,
  ==_refl,
}
use auto_test_system.Exec.{
  Exec, Result, ok, stop, raised, pure, raise, when, gets, or_raise, modify, attribute_error,
  document_missing, validation_error, raise_if, ◌>>=◌, ◌>>◌,
}
use auto_test_system.Mongo.Defs.{Mongo, IsLawful, find_one}
use auto_test_system.Documents.{Test, Package, Variable, scalar, items, entries}
use auto_test_system.World.{World}
use auto_test_system.Queue.{Handle}
use auto_test_system.Access.{Context, pk_of}
use auto_test_system.Store.{commit_test, commit_test_ok, commit_package}
use auto_test_system.Text.{ends_with, basename, dirname, stem, fits, all_fit}
use auto_test_system.Markdown.{Token, Locals, read_tokens, no_locals, lookup}

abbrev pub same_texts : List String → List String → Bool
same_texts [] [] = true
same_texts (x ∷ xs) (y ∷ ys) = str_eq x y && same_texts xs ys
same_texts _ _ = false

abbrev opt_text_eq : Option String → String → Bool
opt_text_eq none t = false
opt_text_eq (some s) t = str_eq s t

-- Every entry of the first dictionary is in the second.
abbrev entries_in : List (String × String) → List (String × String) → Bool
entries_in [] d = true
entries_in ((k, v) ∷ c) d = opt_text_eq (lookup k d) v && entries_in c d

abbrev same_value : Variable → Variable → Bool
same_value (scalar s) (scalar t) = str_eq s t
same_value (items s) (items t) = same_texts s t
same_value (entries c) (entries d) = length c == length d && entries_in c d
same_value _ _ = false

abbrev opt_same : Option Variable → Variable → Bool
opt_same none v = false
opt_same (some u) v = same_value u v

abbrev variables_in : List (String × Variable) → List (String × Variable) → Bool
variables_in [] d = true
variables_in ((k, v) ∷ c) d = opt_same (lookup k d) v && variables_in c d

-- The order of the entries of a dictionary is of no account.
abbrev pub same_variables : List (String × Variable) → List (String × Variable) → Bool
same_variables c d = length c == length d && variables_in c d

-- What is stored behind the reading of the tables: a part that differs.
abbrev pub with_contents : Test → Locals → Test → Test
with_contents old l d = record d {
  test_cases = if same_texts old.test_cases l.test_cases then d.test_cases else l.test_cases;
  variables = if same_variables old.variables l.variables then d.variables else l.variables;
}

module _ (m : Mongo) (tokens : String → List Token) (ctx : Context) where
  abbrev pub in_world : {A : Type 0} → Result A → Exec (World m) A
  in_world (ok a) = pure a
  in_world (stop c t) = λ w. (stop c t, w)
  in_world (raised e) = raise e

  -- `update_test_from_md` and the commit where it has changed something
  unfoldable pub update_contents : String → Handle Test → Exec (World m) (Unit {0})
  unfolding read_tokens
  update_contents script test = do
    let run = read_tokens (tokens script) no_locals
    in_world (run.0)
    raise_if
        (not (same_texts test.doc.test_cases (run.1).test_cases)
          && not (all_fit 100 (run.1).test_cases))
        validation_error
    when
        (not (
          same_texts test.doc.test_cases (run.1).test_cases
          && same_variables test.doc.variables (run.1).variables))
        (commit_test m test.pk (with_contents test.doc (run.1)))

  abbrev pub test_key : String → Test → Bool
  test_key script t =
      str_eq t.test_suite (stem (basename script))
      && str_eq t.path (dirname script)
      && opt_eq t.organization (some ctx.organization.pk)
      && opt_eq t.team (pk_of ctx.team)

  abbrev pub new_test : String → Option ℕ → Option String → Test
  new_test script pkg version = record {
    test_suite = stem (basename script);
    path = dirname script;
    test_cases = [];
    variables = [];
    test_package = pkg;
    package_version = version;
    organization = some ctx.organization.pk;
    team = pk_of ctx.team;
  }

  -- Without a package and a version the package of the test is marked as modified; a test without one
  -- has `None` there.
  unfoldable pub touch : Option ℕ → Option String → Handle Test → Exec (World m) (Handle Test)
  touch (some pkg) (some version) test = do
    commit_test m test.pk
        (λ d. record d { test_package = some pkg; package_version = some version })
    pure (record test {
      doc = record (test.doc) { test_package = some pkg; package_version = some version };
    })
  touch _ _ test = do
    pkg ← or_raise test.doc.test_package attribute_error
    stored ← gets (λ w. m.get w.packages pkg)
    found ← or_raise stored document_missing
    commit_package m pkg (λ d. record d { modified = true })
    commit_test m test.pk (λ d. d)
    pure test

  unfoldable pub create : String → Option ℕ → Option String → Exec (World m) (Handle Test)
  create script pkg version = do
    raise_if (not (fits 100 (stem (basename script))) || not (fits 300 (dirname script)))
        validation_error
    k ← gets (λ w. m.new_id w.tests)
    modify (λ w. record w { tests = m.insert w.tests k (new_test script pkg version) })
    pure (record { pk = k; doc = new_test script pkg version })

  abbrev find_or_create :
      String → Option ℕ → Option String → Option (ℕ × Test) → Exec (World m) (Handle Test)
  find_or_create script pkg version none = create script pkg version
  find_or_create script pkg version (some (k, d)) = touch pkg version (record { pk = k; doc = d })

  unfoldable pub db_update_test : String → Option ℕ → Option String → Exec (World m) (Option ℕ)
  unfolding touch create update_contents ends_with
  db_update_test script pkg version =
      if ends_with ".md" script
      then (do
        found ← gets (λ w. find_one m (test_key script) w.tests)
        test ← find_or_create script pkg version found
        update_contents script test
        pure (some test.pk))
      else pure none
