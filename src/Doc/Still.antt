-- ===== src/Doc/Still.antt =====
-- The git steps of webserver/app/main/controller/document_controller.py change no document.
use auto_test_system.Prelude.{
  ℕ, refl, Bool, true, false, not, ◌||◌, Option, none, some, String, if◌then◌else◌, arith,
}
use auto_test_system.Exec.{
  Exec, Code, pure, stop_if, when, IsStill, bind-IsStill, ◌>>=◌, ◌>>◌, git_error,
}
use auto_test_system.Doc.Publish.{
  Repo, publish, git_checkout_add_push, init_work_tree, checkout, checkout_orphan, init_bare, init,
  remote_add, succeeds,
}

stop_if-IsStill : {S : Type 0} (b : Bool) (c : Code) (t : String) → IsStill {S = S} (stop_if b c t)
stop_if-IsStill true c t s = refl
stop_if-IsStill false c t s = refl

when-IsStill : {S : Type 0} (b : Bool) (m : Exec S (Unit {0})) → IsStill m → IsStill (when b m)
when-IsStill true m h s = h s
when-IsStill false m h s = refl

module _ {S : Type 0} (repo : Repo) where
  push-IsStill :
      (language : String) (new_branch : Bool) (r : Option (Option ℕ))
      → IsStill {S = S} (git_checkout_add_push repo language new_branch r)
  unfolding git_checkout_add_push
  push-IsStill language new_branch none s = ground arith
  push-IsStill language new_branch (some none) s = ground arith
  push-IsStill language new_branch (some (some n)) s = ground arith

  -- A step that stops or goes on with a body.
  then-IsStill :
      (b : Bool) (c : Code) (t : String) (rest : Exec S (Unit {0}))
      → IsStill rest
      → IsStill (stop_if b c t >> rest)
  then-IsStill b c t rest h =
      bind-IsStill (stop_if b c t) (λ _. rest) (stop_if-IsStill b c t) (λ _. h)

  last-IsStill :
      (language : String) (new_branch : Bool) (r : Option (Option ℕ))
      → IsStill {S = S} (git_checkout_add_push repo language new_branch r >>= λ _. pure tt)
  last-IsStill language new_branch r =
      bind-IsStill (git_checkout_add_push repo language new_branch r) (λ _. pure tt)
        (push-IsStill language new_branch r) (λ _ s. refl)

  init-IsStill : IsStill {S = S} (init_work_tree repo)
  unfolding init_work_tree
  init-IsStill =
      let pushed : Exec S (Unit {0}) =
        git_checkout_add_push repo "master" true (some (some 0)) >>= λ _. pure tt in
      then-IsStill (not (succeeds repo init)) git_error "git local init error"
        (stop_if (not (succeeds repo remote_add)) git_error "git remote add error" >> pushed)
        (then-IsStill (not (succeeds repo remote_add)) git_error "git remote add error" pushed
          (last-IsStill "master" true (some (some 0))))

  pub publish-IsStill : (language : String) → IsStill {S = S} (publish repo language)
  unfolding publish
  publish-IsStill language =
      let known = succeeds repo (checkout language) in
      let bare : Exec S (Unit {0}) =
        stop_if (not (succeeds repo init_bare)) git_error "git init error" in
      let branch : Exec S (Unit {0}) =
        stop_if (not (succeeds repo (checkout_orphan language))) git_error
          "git checkout branch error" in
      let revision : Option (Option ℕ) =
        if not repo.has_git || not known then some (some 0) else repo.revision in
      let pushed : Exec S (Unit {0}) =
        git_checkout_add_push repo language false revision >>= λ _. pure tt in
      bind-IsStill (when (not repo.has_bare) bare)
        (λ _. when (not repo.has_git) (init_work_tree repo) >> (when (not known) branch >> pushed))
        (when-IsStill (not repo.has_bare) bare
          (stop_if-IsStill (not (succeeds repo init_bare)) git_error "git init error"))
        (λ _.
          bind-IsStill (when (not repo.has_git) (init_work_tree repo))
            (λ _. when (not known) branch >> pushed)
            (when-IsStill (not repo.has_git) (init_work_tree repo) init-IsStill)
            (λ _.
              bind-IsStill (when (not known) branch) (λ _. pushed)
                (when-IsStill (not known) branch (
                  stop_if-IsStill (not (succeeds repo (checkout_orphan language))) git_error
                    "git checkout branch error"))
                (λ _. last-IsStill language false revision)))
