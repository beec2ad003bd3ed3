-- ===== src/Agent/Live.antt =====
-- Which processes of endpoint/test_endpoint/daemon.py the daemon can still stop.
use auto_test_system.Prelude.{
  ℕ, ◌≡◌, ◌≢◌, refl, sym, subst, true, Option, none, some, List, [], ◌∷◌, String, str_eq, eq_iff,
  ◌==◌, if◌then◌else◌, contains, Bool-cases, inl, inr, arith,
}
use auto_test_system.Text.{ends_with}
use auto_test_system.Exec.{Exec, Exn, modify, ◌>>◌, bind-keeps, Post, Post-bind}
use auto_test_system.Agent.Requests.{
  IsSame, report-Keeps, start_test-Keeps, download_standalone_files-Keeps,
}
use auto_test_system.Agent.State.{Host, Daemon, lookup, delete, without, exit, forget, updated}
use auto_test_system.Agent.Daemon.{
  update_test_result, download_standalone_files, start_test, serve, stop_test, stop_at, serve_at,
  load_library,
}

-- The daemon's dictionary names the process.
abbrev IsNamed : Daemon → ℕ → Type 0
IsNamed d p = (f : String) × (lookup f d.running_tests ≡ some p)

abbrev pub IsTracked : Daemon → Type 0
IsTracked d = (p : ℕ) → contains p d.alive ≡ true → IsNamed d p

pub lookup-delete :
    (f g : String) (r : List (String × ℕ))
    → lookup g (delete f r) ≡ (if str_eq f g then none else lookup g r)
lookup-delete f g [] = ground arith
lookup-delete f g ((k, p) ∷ r) =
    ground (arith, lookup-delete f g r, eq_iff k f, eq_iff k g, eq_iff f g)

contains-without :
    (p q : ℕ) (r : List ℕ) → contains q (without p r) ≡ true → (p ≢ q) × (contains q r ≡ true)
contains-without p q [] h = cc
contains-without p q (x ∷ r) h = ground (arith, contains-without p q r)

str_eq_refl : (s : String) → str_eq s s ≡ true
str_eq_refl s = ground (arith, eq_iff s s)

-- The calls that reach the daemon, and the end of a process by itself.
pub data Call : Type 0 where
  start : String → Option String → Call
  load : String → Call
  stop : String → String → Call
  exits : ℕ → Call

module _ (h : Host) where
  unfoldable pub call : Call → Daemon → Daemon
  call (start c t) d = (start_test h c t d).1
  call (load f) d = (load_library h f d).1
  call (stop f s) d = (stop_test h f s d).1
  call (exits p) d = exit p d

  unfoldable pub calls : List Call → Daemon → Daemon
  unfolding call
  calls [] d = d
  calls (c ∷ cs) d = calls cs (call c d)

-- A library is loaded by the name of its file.
abbrev pub IsByFile : Call → Type 0
IsByFile (load f) = ends_with ".py" f ≡ true
IsByFile _ = Unit {0}

abbrev pub AreByFile : List Call → Type 0
AreByFile [] = Unit {0}
AreByFile (c ∷ cs) = IsByFile c × AreByFile cs

exit-IsTracked : (p : ℕ) (d : Daemon) → IsTracked d → IsTracked (exit p d)
exit-IsTracked p d t q c = t q (contains-without p q d.alive c).1

ended-IsTracked :
    (f : String) (p : ℕ) (d : Daemon)
    → lookup f d.running_tests ≡ some p
    → IsTracked d
    → IsTracked (forget f (exit p d))
ended-IsTracked f p d e t q c =
    let (other, still) = contains-without p q d.alive c in
    let (g, named) = t q still in
    (g, ground (arith, lookup-delete f g d.running_tests, eq_iff f g, other, named, e))

same-IsTracked :
    (d e : Daemon) → IsSame d.running_tests d.alive d.next_process e → IsTracked d → IsTracked e
same-IsTracked d e (r, a, n) t p c =
    let (f, named) = t p (subst (λ xs. contains p xs ≡ true) a c) in
    (f, subst (λ xs. lookup f xs ≡ some p) (sym r) named)

module _ (h : Host) where
  stop_at-IsTracked :
      (o : Option ℕ) (f st : String) (d : Daemon)
      → lookup f d.running_tests ≡ o
      → IsTracked d
      → IsTracked (stop_at h o f st d).1
  unfolding stop_at update_test_result
  stop_at-IsTracked none f st d e t = t
  stop_at-IsTracked (some p) f st d e t =
      let m : Exec Daemon (Unit {0}) = update_test_result h st in
      let same : IsSame d.running_tests d.alive d.next_process (m d).1 =
        report-Keeps h d.running_tests d.alive d.next_process (λ t. updated t st) d
          (refl, refl, refl) in
      bind-keeps IsTracked m (λ _. modify (λ d. forget f (exit p d))) d
        (same-IsTracked d (m d).1 same t)
        (λ _ _. ended-IsTracked f p (m d).1 (rw (same.0) e) (same-IsTracked d (m d).1 same t))

  stop_at-gone :
      (o : Option ℕ) (f st : String) (d : Daemon)
      → lookup f d.running_tests ≡ o
      → Post (λ _ e. lookup f e.running_tests ≡ none) (stop_at h o f st d)
  unfolding stop_at
  stop_at-gone none f st d e = λ _ _. e
  stop_at-gone (some p) f st d e =
      Post-bind (λ _ e. lookup f e.running_tests ≡ none) (update_test_result h st)
        (λ _. modify (λ d. forget f (exit p d))) d
        (λ _ e _ _. rw (lookup-delete f f e.running_tests, str_eq_refl f) refl)

  serve_at-IsTracked :
      (k : Option (Option String)) (o : Option Exn) (f : String) (d : Daemon)
      → lookup f d.running_tests ≡ none
      → IsTracked d
      → IsTracked (serve_at h k o f d).1
  unfolding serve_at
  serve_at-IsTracked none o f d gone t p c = t p c
  serve_at-IsTracked (some k) (some x) f d gone t p c = t p c
  serve_at-IsTracked (some k) none f d gone t p c = elim (Bool-cases (p == d.next_process)) [
    | inl e ↦ (f, ground (arith, eq_iff f f, e))
    | inr e ↦
        let (g, named) = t p (ground (arith, c, e)) in
        (g, ground (arith, lookup-delete f g d.running_tests, eq_iff f g, named, gone))
  ]

  serve-IsTracked :
      (f : String) (d : Daemon)
      → IsTracked d
      → lookup f d.running_tests ≡ none
      → IsTracked ((download_standalone_files h f >> serve h f) d).1
  unfolding serve
  serve-IsTracked f d t gone =
      let n : Exec Daemon (Unit {0}) = download_standalone_files h f in
      let same : IsSame d.running_tests d.alive d.next_process (n d).1 =
        download_standalone_files-Keeps h d.running_tests d.alive d.next_process f d
          (refl, refl, refl) in
      let kept = same-IsTracked d (n d).1 same t in
      bind-keeps IsTracked n (λ _. serve h f) d kept
        (λ _ _. serve_at-IsTracked (n d).1.task_id h.activation f (n d).1 (rw (same.0) gone) kept)

  load_library-IsTracked :
      (f : String) (d : Daemon)
      → ends_with ".py" f ≡ true
      → IsTracked d
      → IsTracked (load_library h f d).1
  unfolding load_library stop_test serve
  load_library-IsTracked f d e t =
      let m : Exec Daemon (Unit {0}) = stop_test h f "FLUSHED" in
      let stopped = stop_at-IsTracked (lookup f d.running_tests) f "FLUSHED" d refl t in
      rw e (
        bind-keeps IsTracked m (λ _. download_standalone_files h f >> serve h f) d stopped
          (λ a done.
            serve-IsTracked f (m d).1 stopped
              (stop_at-gone (lookup f d.running_tests) f "FLUSHED" d refl a done)))

  call-IsTracked : (c : Call) (d : Daemon) → IsByFile c → IsTracked d → IsTracked (call h c d)
  unfolding call stop_test
  call-IsTracked (start c s) d b t =
      same-IsTracked d (start_test h c s d).1
        (start_test-Keeps h d.running_tests d.alive d.next_process c s d (refl, refl, refl)) t
  call-IsTracked (load f) d b t = load_library-IsTracked f d b t
  call-IsTracked (stop f s) d b t = stop_at-IsTracked (lookup f d.running_tests) f s d refl t
  call-IsTracked (exits p) d b t = exit-IsTracked p d t

  -- Where libraries are loaded by the names of their files, every process that the daemon has started
  -- and that has not ended stays in its dictionary, whatever calls arrive and however they end.
  pub calls-IsTracked :
      (cs : List Call) (d : Daemon) → AreByFile cs → IsTracked d → IsTracked (calls h cs d)
  unfolding calls
  calls-IsTracked [] d b t = t
  calls-IsTracked (c ∷ cs) d b t = calls-IsTracked cs (call h c d) b.1 (call-IsTracked c d b.0 t)
