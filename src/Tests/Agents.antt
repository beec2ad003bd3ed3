-- ===== src/Tests/Agents.antt =====
-- The daemon and the update of an endpoint at a concrete host: every request succeeds, a script comes
-- as one archive, and each process is ready.
use auto_test_system.Prelude.{
  ℕ, Option, ltb, if◌then◌else◌, arith, ◌≡◌, ◌≢◌, refl, true, false, none, some, List, [], ◌∷◌,
  String, contains,
}
use auto_test_system.Exec.{ok}
use auto_test_system.Text.{ends_with, starts_with, split_on}
use auto_test_system.Agent.State.{
  Host, Daemon, created, initial, lookup, unpack_packages, unpack_package, below, packages_of,
}
use auto_test_system.Agent.Daemon.{
  load_library, start_test, stop_test, stop_at, update_test_result, report, report_on, post_report,
  download_standalone_files, serve, serve_at, create_test_result, download_package_files,
  download_from, fetch_all, download_file, unpack, unpack_each,
}
use auto_test_system.Agent.Live.{Call, start, load, calls, calls-IsTracked, IsTracked}
use auto_test_system.Agent.Leak.{load_twice_leaks}
use auto_test_system.Runner.Keywords.{answered, run_keyword, start_test_connects}
use auto_test_system.Agent.Update.{Releases, Home, body, update}
use auto_test_system.Agent.Update.Installed.{IsOutcome, update-IsOutcome}

abbrev host : Host
host = record {
  get = λ n url. some (record { status = 201; files = "net.egg" ∷ [] });
  post = λ n r. some 200;
  is_object_id = λ t. true;
  activation = none;
  is_ready = λ p. true;
  namelist = λ f. "net/__init__.py" ∷ "net/data/a.bin" ∷ [];
}

abbrev in_a_test : Daemon
in_a_test = record initial {
  task_id = some (some "5f1");
  requests = 3;
  reports = created "5f1" "ping" ∷ [];
  downloads = "net.egg" ∷ [];
  test_data = "net.egg" ∷ [];
  package_data = "net/data/a.bin" ∷ [];
}

start_test_run : start_test host "ping" (some "5f1") initial ≡ (ok tt, in_a_test)
unfolding start_test create_test_result report report_on post_report download_package_files
    download_from fetch_all download_file unpack unpack_each ends_with unpack_packages
    unpack_package below packages_of starts_with split_on
start_test_run = refl

abbrev two_loads : List Call
two_loads = start "ping" (some "5f1") ∷ load "net.py" ∷ load "net.py" ∷ []

calls-IsTracked_example : IsTracked (calls host two_loads initial)
unfolding ends_with
calls-IsTracked_example =
    calls-IsTracked host two_loads initial (tt, (refl, (refl, tt))) (λ p h. cc)

load_twice_leaks_example :
    (contains 0 (load_library host "net" (load_library host "net" in_a_test).1).1.alive ≡ true)
    × ((g : String)
        → lookup g (load_library host "net" (load_library host "net" in_a_test).1).1.running_tests
          ≢ some 0)
unfolding load_library stop_test stop_at update_test_result report report_on post_report
    download_standalone_files serve serve_at ends_with
load_twice_leaks_example = load_twice_leaks host "net" in_a_test refl refl (λ g h. cc) refl refl

abbrev releases : Releases
releases = record {
  fetch = λ url. body "abc";
  sha256 = λ t. t;
  unpack = λ t. some ("a.py" ∷ [], false);
  platform = "linux";
  rmtree = λ place files. none;
  copytree = λ place files. none;
  make_bin = none;
}

abbrev home : Home
home = record { lib = some ("collie.py" ∷ []); lib_backup = none }

update-IsOutcome_example :
    IsOutcome releases "1.2.0" ("collie.py" ∷ []) (update releases "1.2.0" home)
update-IsOutcome_example =
    update-IsOutcome releases "1.2.0" home ("collie.py" ∷ [])
      ((λ place files. refl), (λ place files. refl)) refl

-- The endpoint connects before the third call.
abbrev late_call : ℕ → Option ℕ
late_call n = if ltb n 2 then none else some 7

start_test_connects_example : run_keyword late_call true "start_test" ≡ (answered 7, 3)
start_test_connects_example =
    start_test_connects late_call 2 7 (omega arith) (λ i h. ground (arith, h)) refl
