-- ===== src/Agent/Leak.antt =====
-- Loading a library by a name without ".py": load_library of endpoint/test_endpoint/daemon.py stops
-- the process under that name, but stores it under the name of the file.
use Prim.Native.String.{String}
use Prim.Native.String.append
use auto_test_system.Prelude.{
  ◌+◌, ◌≡◌, ◌≢◌, refl, sym, ap, ◌∙◌, Bool, true, false, Option, none, some, ◌∷◌, ◌<>◌, str_eq,
  eq_iff, contains, Bool-cases, inl, inr, arith, ◌||◌,
}
use mathlib.Core.Bool.{true≢false}
use auto_test_system.Text.{ends_with}
use auto_test_system.Exec.{Exn, ok, Post, Post-bind_with}
use auto_test_system.Agent.State.{Host, Daemon, lookup, delete}
use auto_test_system.Agent.Daemon.{
  download_standalone_files, serve, serve_at, stop_test, stop_at, load_library,
}
use auto_test_system.Agent.Requests.{IsSame, download_standalone_files-Keeps}
use auto_test_system.Agent.Live.{lookup-delete}

or-true : (b : Bool) → (b || true) ≡ true
or-true b = ground arith

true-or : (a b : Bool) → a ≡ true → (a || b) ≡ true
true-or a b h = ground (arith, h)

ends_with-append : (e s : String) → ends_with e (s <> e) ≡ true
unfolding ends_with
ends_with-append String.[] String.[] = refl
ends_with-append (String.◌∷◌ c e) String.[] = rw (append.nil (String.◌∷◌ c e)) (
    true-or (str_eq (String.◌∷◌ c e) (String.◌∷◌ c e)) (ends_with (String.◌∷◌ c e) e)
      ((eq_iff (String.◌∷◌ c e) (String.◌∷◌ c e)).1 refl))
ends_with-append e (String.◌∷◌ c s) =
    rw (append.cons c s e, ends_with-append e s) (or-true (str_eq (String.◌∷◌ c (s <> e)) e))

-- What a load that returns has done to the processes.
abbrev IsLoaded : String → Daemon → Daemon → Type 0
IsLoaded f d e =
    (e.running_tests ≡ ((f <> ".py"), d.next_process) ∷ delete (f <> ".py") d.running_tests)
    × (e.alive ≡ d.next_process ∷ d.alive)
    × (e.next_process ≡ d.next_process + 1)

module _ (h : Host) where
  serve_at-IsLoaded :
      (k : Option (Option String)) (o : Option Exn) (f : String) (d e : Daemon)
      → IsSame d.running_tests d.alive d.next_process e
      → Post (λ _ t. IsLoaded f d t) (serve_at h k o (f <> ".py") e)
  unfolding serve_at
  serve_at-IsLoaded none o f d e s a done = absurd (cc)
  serve_at-IsLoaded (some k) (some x) f d e s a done = absurd (cc)
  serve_at-IsLoaded (some k) none f d e (r, l, n) a done =
      (rw (r, n) refl, rw (l, n) refl, rw n refl)

  load-IsLoaded :
      (f : String) (d : Daemon)
      → ends_with ".py" f ≡ false
      → lookup f d.running_tests ≡ none
      → Post (λ _ t. IsLoaded f d t) (load_library h f d)
  unfolding load_library stop_test stop_at serve
  load-IsLoaded f d b e =
      rw (b, e)
        (Post-bind_with (λ _ t. IsLoaded f d t) (download_standalone_files h (f <> ".py"))
          (λ _. serve h (f <> ".py")) d (λ _ t. IsSame d.running_tests d.alive d.next_process t)
          (λ _ _.
            download_standalone_files-Keeps h d.running_tests d.alive d.next_process (f <> ".py") d
              (refl, refl, refl))
          (λ _ t s. serve_at-IsLoaded t.task_id h.activation f d t s))

other_name : (f : String) → ends_with ".py" f ≡ false → str_eq (f <> ".py") f ≡ false
other_name f b = elim (Bool-cases (str_eq (f <> ".py") f)) [
  | inl e ↦ absurd (
      true≢false
        (sym (ends_with-append ".py" f) ∙ ap (ends_with ".py") ((eq_iff (f <> ".py") f).0 e) ∙ b))
  | inr e ↦ e
]

reload-unnamed :
    (f g : String) (d e t : Daemon)
    → e.running_tests ≡ ((f <> ".py"), d.next_process) ∷ delete (f <> ".py") d.running_tests
    → e.next_process ≡ d.next_process + 1
    → t.running_tests ≡ ((f <> ".py"), e.next_process) ∷ delete (f <> ".py") e.running_tests
    → lookup g d.running_tests ≢ some d.next_process
    → lookup g t.running_tests ≢ some d.next_process
reload-unnamed f g d e t r n r2 fresh = ground (
  arith,
  ap (lookup g) r2,
  ap (lookup g) r,
  lookup-delete (f <> ".py") g e.running_tests,
  lookup-delete (f <> ".py") g d.running_tests,
)

still-unnamed :
    (f : String) (d e : Daemon)
    → ends_with ".py" f ≡ false
    → lookup f d.running_tests ≡ none
    → IsLoaded f d e
    → lookup f e.running_tests ≡ none
still-unnamed f d e b gone (r, l, n) =
    ground (arith, ap (lookup f) r, lookup-delete (f <> ".py") f d.running_tests, other_name f b)

reload-leaks :
    (f : String) (d e t : Daemon)
    → ((g : String) → lookup g d.running_tests ≢ some d.next_process)
    → IsLoaded f d e
    → IsLoaded f e t
    → (contains d.next_process t.alive ≡ true)
      × ((g : String) → lookup g t.running_tests ≢ some d.next_process)
reload-leaks f d e t fresh (r, l, n) (r2, l2, n2) =
    (rw (l2, l) (ground arith), λ g. reload-unnamed f g d e t r n r2 (fresh g))

module _ (h : Host) where
  -- At a name without ".py" that the dictionary lacks, two loads that return leave the first one's
  -- process alive, and no key of the dictionary leads to it.
  pub load_twice_leaks :
      (f : String) (d : Daemon)
      → ends_with ".py" f ≡ false
      → lookup f d.running_tests ≡ none
      → ((g : String) → lookup g d.running_tests ≢ some d.next_process)
      → (load_library h f d).0 ≡ ok tt
      → (load_library h f (load_library h f d).1).0 ≡ ok tt
      → let e = (load_library h f (load_library h f d).1).1 in
        (contains d.next_process e.alive ≡ true)
        × ((g : String) → lookup g e.running_tests ≢ some d.next_process)
  load_twice_leaks f d b gone fresh first second =
      let e = (load_library h f d).1 in
      let t = (load_library h f e).1 in
      let loaded = load-IsLoaded h f d b gone tt first in
      reload-leaks f d e t fresh loaded
        (load-IsLoaded h f e b (still-unnamed f d e b gone loaded) tt second)
