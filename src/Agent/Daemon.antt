-- ===== src/Agent/Daemon.antt =====
-- endpoint/test_endpoint/daemon.py: the coroutines of the daemon. Each runs without interruption.
use auto_test_system.Prelude.{
  ℕ, ◌+◌, Bool, true, not, Option, none, some, List, [], ◌∷◌, ◌++◌, String, ◌<>◌, ◌==◌,
  if◌then◌else◌, is_empty,
}
use auto_test_system.Text.{ends_with}
use auto_test_system.Util.{nonempty}
use auto_test_system.Exec.{
  Exec, ok, raised, Exn, pure, raise, gets, or_raise, raise_if, modify, ◌>>=◌, ◌>>◌,
  attribute_error, assertion_error, invalid_id, connection_error,
}
use auto_test_system.Agent.State.{
  Report, created, updated, Response, Host, Daemon, lookup, delete, with_py, show_id, packages_of,
  unpack_packages, exit, forget, to_downloads, to_test_data,
}

module _ (h : Host) where
  unfoldable pub post_report : Report → Exec Daemon (Unit {0})
  post_report r d =
      let e = record d { requests = d.requests + 1 } in
      elim (h.post d.requests r) [
        | none ↦ (raised connection_error, e)
        | some status ↦ (ok tt, record e { reports = d.reports ++ (r ∷ []) })
      ]

  unfoldable pub report_on : (String → Report) → Option String → Exec Daemon (Unit {0})
  report_on r none = pure tt
  report_on r (some t) = post_report (r t)

  -- `_update_test_result` and `_create_test_result`: nothing is sent without a task.
  unfoldable pub report : (String → Report) → Exec Daemon (Unit {0})
  report r = do
    id ← gets (λ (d : Daemon). d.task_id)
    task ← or_raise id attribute_error
    report_on r (nonempty task)

  unfoldable pub update_test_result : String → Exec Daemon (Unit {0})
  update_test_result status = report (λ t. updated t status)

  unfoldable pub create_test_result : String → Exec Daemon (Unit {0})
  create_test_result test_case = report (λ t. created t test_case)

  -- At status 200 the code reads `response.message`, which the response does not have.
  abbrev pub extract : Response → (List String → Daemon → Daemon) → Exec Daemon (Unit {0})
  extract r put =
      if r.status == 204
      then pure tt
      else if r.status == 201
      then modify (put r.files)
      else raise (if r.status == 200 then attribute_error else assertion_error)

  abbrev pub received : Option Response → (List String → Daemon → Daemon) → Exec Daemon (Unit {0})
  received none put = raise connection_error
  received (some r) put = extract r put

  unfoldable pub download_file : String → (List String → Daemon → Daemon) → Exec Daemon (Unit {0})
  download_file url put d =
      received (h.get d.requests url) put (record d { requests = d.requests + 1 })

  unfoldable pub unpack_each : List String → Exec Daemon (Unit {0})
  unpack_each [] = pure tt
  unpack_each (f ∷ r) = do
    raise_if (not (ends_with ".egg" f)) assertion_error
    modify (unpack_packages (h.namelist f) (packages_of (h.namelist f)))
    unpack_each r

  unfoldable pub unpack : Exec Daemon (Unit {0})
  unpack = do files ← gets (λ (d : Daemon). d.downloads); unpack_each files

  unfoldable pub fetch_all : (String → String) → Option String → Exec Daemon (Unit {0})
  fetch_all script task = do
    download_file (script (show_id task)) to_downloads
    download_file ("api_v1/taskresource/" <> show_id task) to_test_data
    unpack

  -- The scripts at that URL, then the task's resources, then the data of the scripts' packages.
  unfoldable pub download_from : (String → String) → Exec Daemon (Unit {0})
  download_from script = do
    id ← gets (λ (d : Daemon). d.task_id)
    task ← or_raise id attribute_error
    fetch_all script task

  unfoldable pub download_package_files : Exec Daemon (Unit {0})
  download_package_files = do
    modify (λ (d : Daemon). record d { downloads = []; test_data = []; package_data = [] })
    download_from (λ t. "api_v1/test/script?id=" <> t)

  unfoldable pub download_standalone_files : String → Exec Daemon (Unit {0})
  download_standalone_files backing_file d =
      if is_empty d.downloads
      then download_from (λ t. "api_v1/test/script?id=" <> t <> "&test=" <> backing_file) d
      else (ok tt, d)

  -- `ObjectId(None)` makes a new id.
  abbrev pub is_valid : Option String → Bool
  is_valid none = true
  is_valid (some t) = h.is_object_id t

  unfoldable pub start_test : String → Option String → Exec Daemon (Unit {0})
  start_test test_case task = do
    modify (λ (d : Daemon). record d { task_id = some task })
    raise_if (not (is_valid task)) invalid_id
    create_test_result test_case
    download_package_files

  -- `start_remote_server` for a test library, and the wait for its process.
  -- `self.task_id` is read before the process is started.
  unfoldable pub serve_at : Option (Option String) → Option Exn → String → Exec Daemon (Unit {0})
  serve_at none o f d = (raised attribute_error, d)
  serve_at (some t) (some e) f d = (raised e, d)
  serve_at (some t) none f d = (
    if h.is_ready d.next_process then ok tt else raised assertion_error,
    record d {
      running_tests = (f, d.next_process) ∷ delete f d.running_tests;
      alive = d.next_process ∷ d.alive;
      next_process = d.next_process + 1;
    },
  )

  unfoldable pub serve : String → Exec Daemon (Unit {0})
  unfolding serve_at
  serve f d = serve_at d.task_id h.activation f d

  unfoldable pub stop_at : Option ℕ → String → String → Exec Daemon (Unit {0})
  stop_at none f status = pure tt
  stop_at (some p) f status = update_test_result status >> modify (λ d. forget f (exit p d))

  unfoldable pub stop_test : String → String → Exec Daemon (Unit {0})
  unfolding stop_at
  stop_test f status d = stop_at (lookup f d.running_tests) f status d

  unfoldable pub load_library : String → Exec Daemon (Unit {0})
  load_library backing_file = do
    stop_test backing_file "FLUSHED"
    download_standalone_files (with_py backing_file)
    serve (with_py backing_file)
