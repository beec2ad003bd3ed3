-- ===== src/Tests/Scripts.antt =====
-- The theorems on paths, test scripts and the statistics at concrete inputs.

use auto_test_system.Prelude.{
  ◌+◌, ◌≡◌, ◌==◌, ◌≤◌, refl, true, false, ◌&&◌, none, some, List, [], ◌∷◌, ◌++◌, String, length,
  if◌then◌else◌,
}
use auto_test_system.Exec.{ok, unbound_local_error}
use auto_test_system.Documents.{Test, Variable, scalar, items, entries}
use auto_test_system.Mongo.Assoc.{assoc, assoc_with-IsLawful}
use auto_test_system.World.{World}
use auto_test_system.Paths.{Directory, opened, is_path_secure, parts, leading}
use auto_test_system.Paths.Secure.{opened_lem}
use auto_test_system.Mongo.Find.{matches}
use auto_test_system.Scripts.{Disk, ScriptType, test_scripts, of_context, delete_directory}
use auto_test_system.Scripts.Directories.{delete_directory_lem}
use auto_test_system.Text.{strip, lstrip, rstrip, is_space, starts_with, dirname, stem}
use auto_test_system.Markdown.{
  Token, Locals, table, read_tokens, no_locals, read_token, case_rows, variable_rows, variable_row,
  row_of, row_as, filter_kw, lower_eq,
}
use auto_test_system.Markdown.Typed.{IsMalformed}
use auto_test_system.Markdown.Typed.Rows.{read_tokens_raises}
use auto_test_system.Markdown.Cases.{read_tokens_bound}
use auto_test_system.Markdown.Render.{read-write, write_variables}
use auto_test_system.Tests.Shelf.{shelf, ctx}

dirname_doubled : dirname "lib//demo.md" ≡ "lib"
unfolding dirname
dirname_doubled = refl

dirname_slashes : dirname "//demo.md" ≡ "//"
unfolding dirname
dirname_slashes = refl

stem_dots : stem "..md" ≡ "..md"
unfolding stem
stem_dots = refl

opened_lem_example : opened ("srv" ∷ "scripts" ∷ []) "//etc/passwd" ≡ (
    if leading "//etc/passwd" == 2
    then parts "//etc/passwd"
    else ("srv" ∷ "scripts" ∷ []) ++ parts "//etc/passwd")
unfolding is_path_secure
opened_lem_example = opened_lem ("srv" ∷ "scripts" ∷ []) "//etc/passwd" refl

abbrev test_data : List (String × Variable)
test_data =
    ("a", scalar "1") ∷ ("l", items ("x" ∷ "y" ∷ [])) ∷ ("d", entries (("k", "v") ∷ [])) ∷ []

abbrev script_tokens : String → List Token
script_tokens script = table ("Variable" ∷ "Value" ∷ []) (write_variables test_data) ∷ []

-- The local names behind the reading of the script.
abbrev script_locals : Locals
script_locals = record {
  test_cases = [];
  variables = test_data;
  list_var = none;
  dict_var = some (some "d");
}

abbrev stored_test : Test
stored_test = record {
  test_suite = "demo";
  path = "lib";
  test_cases = [];
  variables = [];
  test_package = none;
  package_version = none;
  organization = some 1;
  team = none;
}

abbrev scripted : World assoc
scripted = record shelf { tests = (4, stored_test) ∷ [] }

read-write_example :
    ((read_tokens (table ("Variable" ∷ "Value" ∷ []) (write_variables test_data) ∷ []) no_locals).0
      ≡ ok tt)
    × ((read_tokens
          (table ("Variable" ∷ "Value" ∷ []) (write_variables test_data) ∷ [])
          no_locals).1.variables
        ≡ test_data)
read-write_example = read-write test_data (refl, tt, (refl, tt, (refl, (refl, refl, refl, tt), tt)))

read_tokens_bound_example :
    length
      (read_tokens
        (table ("Test Case" ∷ []) (("---" ∷ []) ∷ ("one" ∷ []) ∷ ("two" ∷ []) ∷ []) ∷ [])
        no_locals).1.test_cases
    ≤ 1 + 0 + 0
read_tokens_bound_example =
    read_tokens_bound
      (table ("Test Case" ∷ []) (("---" ∷ []) ∷ ("one" ∷ []) ∷ ("two" ∷ []) ∷ []) ∷ []) no_locals

abbrev bare_disk : Disk
bare_disk = record { exists = λ d. true; is_file = λ d. false; removable = λ d. true }

abbrev scripts_at : ScriptType → Directory
scripts_at type = "srv" ∷ []

-- The directory "any" is deleted, and the test of "lib" with it.
delete_directory_lem_example :
    assoc.get
      (delete_directory assoc bare_disk scripts_at ctx test_scripts "any" scripted).1.tests
      4
    ≡ (if matches (λ t. of_context ctx t && starts_with (dirname "any") t.path) (some stored_test)
        then none
        else some stored_test)
delete_directory_lem_example =
    delete_directory_lem assoc (assoc_with-IsLawful true) bare_disk scripts_at ctx "any" scripted 4

-- The first row of variables goes on with a row that is not there.
abbrev headless : List Token
headless = table ("Variable" ∷ "Value" ∷ []) (("..." ∷ "a" ∷ []) ∷ []) ∷ []

read_tokens_raises_example : IsMalformed unbound_local_error
unfolding read_tokens read_token case_rows variable_rows variable_row row_of row_as filter_kw
    lower_eq starts_with strip lstrip rstrip is_space
read_tokens_raises_example = read_tokens_raises headless unbound_local_error refl
