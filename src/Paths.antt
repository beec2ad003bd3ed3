-- ===== src/Paths.antt =====
-- webserver/app/main/util/get_path.py: which paths of a request are accepted, and the directories.
-- A path of pathlib is its root and its components, without empty ones and ".".
pub mod Secure
use Prim.Native.Char.{code}
use Prim.Native.String
use Prim.Native.String.{String}
use auto_test_system.Prelude.{
  ℕ, zero, suc, Bool, true, false, not, ◌&&◌, ◌||◌, Option, none, some, List, [], ◌∷◌, ◌++◌, ◌==◌,
  str_eq, if◌then◌else◌, is_empty,
}
use auto_test_system.Text.{split_on}

-- How many slashes a text begins with
unfoldable pub leading : String → ℕ
leading String.[] = 0
leading (String.◌∷◌ c s) = if code c == b'/' then suc (leading s) else 0

-- `path.root` on POSIX: two slashes are kept, any other number is one.
unfoldable pub root : String → String
unfolding leading
root s = if leading s == 0 then "" else if leading s == 2 then "//" else "/"

abbrev pub is_component : String → Bool
is_component p = not (str_eq p "") && not (str_eq p ".")

unfoldable pub components : List String → List String
components [] = []
components (p ∷ ps) = let rest = components ps in if is_component p then p ∷ rest else rest

unfoldable pub parts : String → List String
unfolding split_on components
parts s = components (split_on b'/' s)

-- `text.split('/')` of what stands behind the root is not empty.
abbrev pub or_blank : List String → List String
or_blank [] = "" ∷ []
or_blank (p ∷ ps) = p ∷ ps

-- `path.as_posix().split('/')`
unfoldable pub posix_parts : String → List String
unfolding root parts
posix_parts s =
    if str_eq (root s) "//"
    then "" ∷ "" ∷ or_blank (parts s)
    else if str_eq (root s) "/"
    then "" ∷ or_blank (parts s)
    else if is_empty (parts s)
    then "." ∷ []
    else parts s

-- `part == os.path.pardir` for some part
unfoldable pub has_pardir : List String → Bool
has_pardir [] = false
has_pardir (p ∷ ps) = str_eq p ".." || has_pardir ps

-- `path.is_reserved()` is false on POSIX.
unfoldable pub is_path_secure : String → Bool
unfolding posix_parts has_pardir
is_path_secure s =
    not (has_pardir (posix_parts s)) && not (str_eq (root s) "\\" || str_eq (root s) "/")

-- A directory of the server, as the components below the root of the installation.
abbrev pub Directory : Type 0
Directory = List String

-- `USERS_ROOT / organization.path / team.path / leaf`
abbrev pub root_of : Directory → String → Option String → String → Directory
root_of users organization none leaf = users ++ (organization ∷ leaf ∷ [])
root_of users organization (some team) leaf = users ++ (organization ∷ team ∷ leaf ∷ [])

unfoldable pub get_test_results_root : Directory → String → Option String → Directory
get_test_results_root users organization team = root_of users organization team "test_results"

unfoldable pub get_back_scripts_root : Directory → String → Option String → Directory
get_back_scripts_root users organization team = root_of users organization team "back_scripts"

unfoldable pub get_user_scripts_root : Directory → String → Option String → Directory
get_user_scripts_root users organization team = root_of users organization team "user_scripts"

-- An organization is always there where a package is proprietary.
unfoldable pub get_test_store_root :
    Directory → Directory → Bool → Option String → Option String → Directory
get_test_store_root users store true (some organization) team =
    root_of users organization team "pypi"
get_test_store_root users store _ organization team = store

-- `list[0:-1]`
abbrev pub drop_last : List String → List String
drop_last [] = []
drop_last (x ∷ []) = []
drop_last (x ∷ y ∷ ys) = x ∷ drop_last (y ∷ ys)

-- How the system walks a path, without symbolic links.
unfoldable pub walk : Directory → List String → Directory
walk at [] = at
walk at (p ∷ ps) = walk (if str_eq p ".." then drop_last at else at ++ (p ∷ [])) ps

-- `open(base / path)`: an absolute path replaces the base.
unfoldable pub opened : Directory → String → Directory
unfolding walk
opened base s = if str_eq (root s) "" then walk base (parts s) else walk [] (parts s)
