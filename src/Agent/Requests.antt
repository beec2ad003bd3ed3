-- ===== src/Agent/Requests.antt =====
-- The downloads and reports of endpoint/test_endpoint/daemon.py leave the processes and their
-- dictionary alone.
use auto_test_system.Prelude.{
  ℕ, ◌+◌, ◌≡◌, Bool, true, false, not, Option, none, some, List, [], ◌∷◌, String, ◌<>◌, Bool-cases,
  inl, inr, arith, is_empty,
}
use auto_test_system.Text.{ends_with}
use auto_test_system.Util.{nonempty}
use auto_test_system.Exec.{
  Exec, Exn, gets, or_raise, raise_if, modify, ◌>>=◌, ◌>>◌, Keeps, bind-Keeps, attribute_error,
  assertion_error, invalid_id,
}
use auto_test_system.Agent.State.{
  Host, Daemon, Report, Response, show_id, created, to_downloads, to_test_data, unpack_package,
  unpack_packages, packages_of,
}
use auto_test_system.Agent.Daemon.{
  post_report, report_on, report, create_test_result, extract, received, fetch_all, download_file,
  unpack_each, unpack, download_from, download_package_files, download_standalone_files, start_test,
  is_valid,
}

-- What the requests leave alone.
abbrev pub IsSame : List (String × ℕ) → List ℕ → ℕ → Daemon → Type 0
IsSame running alive next d =
    (d.running_tests ≡ running) × (d.alive ≡ alive) × (d.next_process ≡ next)

module _ (h : Host) (running : List (String × ℕ)) (alive : List ℕ) (next : ℕ) where
  gets-Keeps : {A : Type 0} (f : Daemon → A) → Keeps (IsSame running alive next) (gets f)
  gets-Keeps f d k = k

  or_raise-Keeps :
      {A : Type 0} (o : Option A) (e : Exn) → Keeps (IsSame running alive next) (or_raise o e)
  or_raise-Keeps none e d k = k
  or_raise-Keeps (some a) e d k = k

  raise_if-Keeps : (b : Bool) (e : Exn) → Keeps (IsSame running alive next) (raise_if b e)
  raise_if-Keeps true e d k = k
  raise_if-Keeps false e d k = k

  post_report-Keeps : (r : Report) → Keeps (IsSame running alive next) (post_report h r)
  unfolding post_report
  post_report-Keeps r d k = ground (arith, k)

  report_on-Keeps :
      (r : String → Report) (o : Option String)
      → Keeps (IsSame running alive next) (report_on h r o)
  unfolding report_on
  report_on-Keeps r none d k = k
  report_on-Keeps r (some t) d k = post_report-Keeps (r t) d k

  pub report-Keeps : (r : String → Report) → Keeps (IsSame running alive next) (report h r)
  unfolding report
  report-Keeps r =
      bind-Keeps (IsSame running alive next) (gets (λ (d : Daemon). d.task_id))
        (λ id. or_raise id attribute_error >>= λ task. report_on h r (nonempty task))
        (gets-Keeps (λ (d : Daemon). d.task_id))
        (λ id.
          bind-Keeps (IsSame running alive next) (or_raise id attribute_error)
            (λ task. report_on h r (nonempty task)) (or_raise-Keeps id attribute_error)
            (λ task. report_on-Keeps r (nonempty task)))

  extract-Keeps :
      (r : Response) (put : List String → Daemon → Daemon)
      → ((fs : List String) (d : Daemon)
          → IsSame running alive next d
          → IsSame running alive next (put fs d))
      → Keeps (IsSame running alive next) (extract h r put)
  extract-Keeps r put p d k = ground (arith, p r.files d k)

  received-Keeps :
      (o : Option Response) (put : List String → Daemon → Daemon)
      → ((fs : List String) (d : Daemon)
          → IsSame running alive next d
          → IsSame running alive next (put fs d))
      → Keeps (IsSame running alive next) (received h o put)
  received-Keeps none put p d k = k
  received-Keeps (some r) put p d k = extract-Keeps r put p d k

  download_file-Keeps :
      (url : String) (put : List String → Daemon → Daemon)
      → ((fs : List String) (d : Daemon)
          → IsSame running alive next d
          → IsSame running alive next (put fs d))
      → Keeps (IsSame running alive next) (download_file h url put)
  unfolding download_file
  download_file-Keeps url put p d k =
      received-Keeps (h.get d.requests url) put p (record d { requests = d.requests + 1 }) k

  unpack_package-Keeps :
      (ns : List String) (p : String) (d : Daemon)
      → IsSame running alive next d
      → IsSame running alive next (unpack_package ns p d)
  unfolding unpack_package
  unpack_package-Keeps ns p d k = ground (arith, k)

  unpack_packages-Keeps :
      (ns ps : List String) (d : Daemon)
      → IsSame running alive next d
      → IsSame running alive next (unpack_packages ns ps d)
  unfolding unpack_packages
  unpack_packages-Keeps ns [] d k = k
  unpack_packages-Keeps ns (p ∷ ps) d k =
      unpack_packages-Keeps ns ps (unpack_package ns p d) (unpack_package-Keeps ns p d k)

  unpack_each-Keeps : (fs : List String) → Keeps (IsSame running alive next) (unpack_each h fs)
  unfolding unpack_each
  unpack_each-Keeps [] = λ d k. k
  unpack_each-Keeps (f ∷ fs) =
      let names = h.namelist f in
      bind-Keeps (IsSame running alive next) (raise_if (not (ends_with ".egg" f)) assertion_error)
        (λ _. modify (unpack_packages names (packages_of names)) >> unpack_each h fs)
        (raise_if-Keeps (not (ends_with ".egg" f)) assertion_error)
        (λ _.
          bind-Keeps (IsSame running alive next)
            (modify (unpack_packages names (packages_of names))) (λ _. unpack_each h fs)
            (unpack_packages-Keeps names (packages_of names)) (λ _. unpack_each-Keeps fs))

  unpack-Keeps : Keeps (IsSame running alive next) (unpack h)
  unfolding unpack
  unpack-Keeps d k = unpack_each-Keeps d.downloads d k

  fetch_all-Keeps :
      (script : String → String) (task : Option String)
      → Keeps (IsSame running alive next) (fetch_all h script task)
  unfolding fetch_all
  fetch_all-Keeps script task =
      let resource : Exec Daemon (Unit {0}) =
        download_file h ("api_v1/taskresource/" <> show_id task) to_test_data in
      bind-Keeps (IsSame running alive next) (download_file h (script (show_id task)) to_downloads)
        (λ _. resource >> unpack h)
        (download_file-Keeps (script (show_id task)) to_downloads (λ fs d k. k))
        (λ _.
          bind-Keeps (IsSame running alive next) resource (λ _. unpack h)
            (download_file-Keeps ("api_v1/taskresource/" <> show_id task) to_test_data
              (λ fs d k. k))
            (λ _. unpack-Keeps))

  download_from-Keeps :
      (script : String → String) → Keeps (IsSame running alive next) (download_from h script)
  unfolding download_from
  download_from-Keeps script =
      bind-Keeps (IsSame running alive next) (gets (λ (d : Daemon). d.task_id))
        (λ id. or_raise id attribute_error >>= λ task. fetch_all h script task)
        (gets-Keeps (λ (d : Daemon). d.task_id))
        (λ id.
          bind-Keeps (IsSame running alive next) (or_raise id attribute_error)
            (λ task. fetch_all h script task) (or_raise-Keeps id attribute_error)
            (fetch_all-Keeps script))

  download_package_files-Keeps : Keeps (IsSame running alive next) (download_package_files h)
  unfolding download_package_files
  download_package_files-Keeps d k =
      download_from-Keeps (λ t. "api_v1/test/script?id=" <> t)
        (record d { downloads = []; test_data = []; package_data = [] }) k

  pub download_standalone_files-Keeps :
      (f : String) → Keeps (IsSame running alive next) (download_standalone_files h f)
  unfolding download_standalone_files
  download_standalone_files-Keeps f d k = elim (Bool-cases (is_empty d.downloads)) [
    | inl e ↦ rw e (download_from-Keeps (λ t. "api_v1/test/script?id=" <> t <> "&test=" <> f) d k)
    | inr e ↦ rw e k
  ]

  pub start_test-Keeps :
      (c : String) (t : Option String) → Keeps (IsSame running alive next) (start_test h c t)
  unfolding start_test create_test_result
  start_test-Keeps c t d k =
      bind-Keeps (IsSame running alive next) (raise_if (not (is_valid h t)) invalid_id)
        (λ _. create_test_result h c >> download_package_files h)
        (raise_if-Keeps (not (is_valid h t)) invalid_id)
        (λ _.
          bind-Keeps (IsSame running alive next) (create_test_result h c)
            (λ _. download_package_files h) (report-Keeps (λ t. created t c))
            (λ _. download_package_files-Keeps))
        (record d { task_id = some t }) k
