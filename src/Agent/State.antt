-- ===== src/Agent/State.antt =====
-- endpoint/test_endpoint/daemon.py: what the daemon of an endpoint knows and the files that it has, with
-- the server and the system that its coroutines are given, and the unpacking of archives.
use auto_test_system.Prelude.{
  ℕ, Bool, false, ◌||◌, Option, none, some, List, [], ◌∷◌, ◌++◌, String, ◌<>◌, str_eq, ◌==◌,
  if◌then◌else◌, is_empty,
}
use auto_test_system.Text.{starts_with, ends_with, split_on}
use auto_test_system.Exec.{Exn}

-- What the daemon tells the server about a test.
pub data Report : Type 0 where
  created : String → String → Report
  updated : String → String → Report

-- The response to a download: its status, and the members of the archive in its body.
pub record Response : Type 0 where
  pub status : ℕ
  pub files : List String

-- The server, the operating system and the libraries. A request may end otherwise each time: it is
-- given the number of requests before it. `none` is a failed connection.
pub record Host : Type 0 where
  pub get : ℕ → String → Option Response
  pub post : ℕ → Report → Option ℕ
  -- whether `ObjectId` takes the text
  pub is_object_id : String → Bool
  -- the exception of `activate_workspace`, if it raises
  pub activation : Option Exn
  -- whether the process with that number tells within ten seconds that it is ready
  pub is_ready : ℕ → Bool
  -- `ZipFile(file).namelist()`
  pub namelist : String → List String

pub record Daemon : Type 0 where
  pub running_tests : List (String × ℕ)
  -- `none` until the first test is started: the attribute is missing
  pub task_id : Option (Option String)
  -- the processes that were started and have not ended
  pub alive : List ℕ
  pub next_process : ℕ
  pub requests : ℕ
  pub reports : List Report
  -- the listing of the download directory
  pub downloads : List String
  -- the files below the two directories of resources
  pub test_data : List String
  pub package_data : List String

-- Python's dictionaries, from texts to processes.
abbrev pub lookup : String → List (String × ℕ) → Option ℕ
lookup f [] = none
lookup f ((g, p) ∷ r) = if str_eq g f then some p else lookup f r

abbrev pub delete : String → List (String × ℕ) → List (String × ℕ)
delete f [] = []
delete f ((g, p) ∷ r) = if str_eq g f then delete f r else (g, p) ∷ delete f r

abbrev pub without : ℕ → List ℕ → List ℕ
without p [] = []
without p (q ∷ r) = if p == q then without p r else q ∷ without p r

abbrev pub initial : Daemon
initial = record {
  running_tests = [];
  task_id = none;
  alive = [];
  next_process = 0;
  requests = 0;
  reports = [];
  downloads = [];
  test_data = [];
  package_data = [];
}

abbrev pub with_py : String → String
with_py f = if ends_with ".py" f then f else f <> ".py"

abbrev pub show_id : Option String → String
show_id none = "None"
show_id (some t) = t

abbrev pub first_of : List String → String
first_of [] = ""
first_of (s ∷ r) = s

abbrev pub is_in : String → List String → Bool
is_in s [] = false
is_in s (t ∷ r) = str_eq s t || is_in s r

-- The packages of an archive, each once.
unfoldable pub packages_of : List String → List String
packages_of [] = []
packages_of (f ∷ r) =
    let p = first_of (split_on b'/' f) in
    let rest = packages_of r in
    if starts_with "EGG-INFO" f then rest else if is_in p rest then rest else p ∷ rest

unfoldable pub below : String → List String → List String
below prefix [] = []
below prefix (f ∷ r) = let rest = below prefix r in if starts_with prefix f then f ∷ rest else rest

-- The data files of a package, unless its directory is already there.
unfoldable pub unpack_package : List String → String → Daemon → Daemon
unfolding below
unpack_package names pkg d =
    if is_empty (below (pkg <> "/") d.package_data)
    then record d { package_data = d.package_data ++ below (pkg <> "/data/") names }
    else d

unfoldable pub unpack_packages : List String → List String → Daemon → Daemon
unfolding unpack_package
unpack_packages names [] d = d
unpack_packages names (p ∷ r) d = unpack_packages names r (unpack_package names p d)

abbrev pub exit : ℕ → Daemon → Daemon
exit p d = record d { alive = without p d.alive }

abbrev pub forget : String → Daemon → Daemon
forget f d = record d { running_tests = delete f d.running_tests }

abbrev pub to_downloads : List String → Daemon → Daemon
to_downloads files d = record d { downloads = d.downloads ++ files }

abbrev pub to_test_data : List String → Daemon → Daemon
to_test_data files d = record d { test_data = d.test_data ++ files }
