-- ===== src/Tasks/Schedule.antt =====
-- What becomes of a run request: single tasks are accounted for, parallel ones always fail.
use auto_test_system.Prelude.{
  ◌≢◌, String, ℕ, suc, ◌+◌, ◌≡◌, refl, Bool, true, false, Option, List, [], ◌∷◌, ◌++◌, length,
  length-append, is_empty, arith,
}
use auto_test_system.Exec.{ok, Post, Post-bind, Post-bind_with, Post-pure, ◌>>=◌}
use auto_test_system.Mongo.Defs.{Mongo}
use auto_test_system.Documents.{Task}
use auto_test_system.World.{World}
use auto_test_system.Queue.{push}
use auto_test_system.Util.{js2python_bool}
use auto_test_system.Access.{Context}
use auto_test_system.Tasks.{
  RunRequest, Outcome, schedule_single, schedule_parallel, schedule_by, schedule_each,
  requested_test, requested_endpoints, requested_task, task_for, run_scheduled, run_requested,
  post_task, known_endpoints,
}

module _ (m : Mongo) (uuid : String → Option ℕ) (others : ℕ → World m → World m) where
  abbrev pub Failed : Outcome → World m → Type 0
  Failed o w = is_empty o.failed ≡ false

  is_empty-append : (xs : List ℕ) (x : ℕ) → is_empty (xs ++ (x ∷ [])) ≡ false
  is_empty-append [] x = refl
  is_empty-append (y ∷ ys) x = refl

  -- An endpoint of a parallel task is always among the failed ones.
  schedule_parallel-Failed :
      (doc : Task) (ctx : Context) (o : Outcome) (uid : ℕ) (w : World m)
      → Post Failed (schedule_parallel m uuid others doc ctx o uid w)
  unfolding schedule_parallel push
  schedule_parallel-Failed doc ctx o uid w =
      λ o2 e. ground (arith, is_empty-append o.failed (m.new_id w.tasks))

  schedule_by-Failed :
      (b : Bool) (task : ℕ) (doc : Task) (ctx : Context) (o : Outcome) (uid : ℕ) (w : World m)
      → b ≡ true
      → Post Failed (schedule_by m uuid others b task doc ctx o uid w)
  unfolding schedule_by
  schedule_by-Failed true task doc ctx o uid w e = schedule_parallel-Failed doc ctx o uid w
  schedule_by-Failed false task doc ctx o uid w e = absurd (cc)

  schedule_each-Failed :
      (task : ℕ) (doc : Task) (ctx : Context) (uids : List ℕ) (o : Outcome) (w : World m)
      → doc.parallelization ≡ true
      → (is_empty uids ≡ true → is_empty o.failed ≡ false)
      → Post Failed (schedule_each m uuid others task doc ctx uids o w)
  unfolding schedule_each
  schedule_each-Failed task doc ctx [] o w par h = Post-pure Failed o w (h refl)
  schedule_each-Failed task doc ctx (uid ∷ uids) o w par h =
      Post-bind_with Failed (schedule_by m uuid others doc.parallelization task doc ctx o uid) _ w
        Failed (schedule_by-Failed doc.parallelization task doc ctx o uid w par)
        λ o' t h'. schedule_each-Failed task doc ctx uids o' t par (λ _. h')

  -- How many endpoints the lists account for
  abbrev pub accounted : Outcome → ℕ
  accounted o = length o.failed + length o.succeeded

  abbrev Counts : ℕ → Outcome → World m → Type 0
  Counts n o w = accounted o ≡ n

  schedule_single-Counts :
      (task : ℕ) (doc : Task) (ctx : Context) (o : Outcome) (uid : ℕ) (w : World m)
      → Post (Counts (suc (accounted o))) (schedule_single m uuid others task doc ctx o uid w)
  unfolding schedule_single
  schedule_single-Counts task doc ctx o uid w = λ o2 e.
      ground (arith, length-append o.failed (task ∷ []), length-append o.succeeded (task ∷ []))

  schedule_parallel-Counts :
      (doc : Task) (ctx : Context) (o : Outcome) (uid : ℕ) (w : World m)
      → Post (Counts (suc (accounted o))) (schedule_parallel m uuid others doc ctx o uid w)
  unfolding schedule_parallel push
  schedule_parallel-Counts doc ctx o uid w = λ o2 e. ground (
    arith,
    length-append o.failed (m.new_id w.tasks ∷ []),
    length-append o.succeeded (m.new_id w.tasks ∷ []),
  )

  schedule_by-Counts :
      (b : Bool) (task : ℕ) (doc : Task) (ctx : Context) (o : Outcome) (uid : ℕ) (w : World m)
      → Post (Counts (suc (accounted o))) (schedule_by m uuid others b task doc ctx o uid w)
  unfolding schedule_by
  schedule_by-Counts false task doc ctx o uid w = schedule_single-Counts task doc ctx o uid w
  schedule_by-Counts true task doc ctx o uid w = schedule_parallel-Counts doc ctx o uid w

  -- Where the loop over a task's endpoints ends, every endpoint has been accounted for exactly once:
  -- the failed and the succeeded ids have grown by the number of endpoints together.
  pub schedule_each-Counts :
      (task : ℕ) (doc : Task) (ctx : Context) (uids : List ℕ) (o : Outcome) (w : World m)
      → Post
          (Counts (length uids + accounted o))
          (schedule_each m uuid others task doc ctx uids o w)
  unfolding schedule_each
  schedule_each-Counts task doc ctx [] o w =
      Post-pure (Counts (length {A = ℕ} [] + accounted o)) o w (omega arith)
  schedule_each-Counts task doc ctx (uid ∷ uids) o w =
      Post-bind_with (Counts (suc (length uids) + accounted o))
        (schedule_by m uuid others doc.parallelization task doc ctx o uid) _ w
        (Counts (suc (accounted o))) (schedule_by-Counts doc.parallelization task doc ctx o uid w)
        λ o' t h'. λ o2 e. omega (arith, schedule_each-Counts task doc ctx uids o' t o2 e, h')

  run_scheduled-never :
      (ctx : Context) (doc : Task) (uids : List ℕ) (task : ℕ) (w : World m)
      → doc.parallelization ≡ true
      → is_empty uids ≡ false
      → Post (λ (_ : Outcome) (_ : World m). ⊥) (run_scheduled m uuid others ctx (doc, uids) task w)
  unfolding run_scheduled
  run_scheduled-never ctx doc uids task w par some_uid =
      let start : Outcome = record { failed = []; succeeded = []; running = [] } in
      Post-bind_with (λ _ _. ⊥) (schedule_each m uuid others task doc ctx uids start) _ w Failed
        (schedule_each-Failed task doc ctx uids start w par
          (λ e. absurd (ground (arith, e, some_uid))))
        (λ o t h a e. ground (arith, h, e))

  run_requested-never :
      (ctx : Context) (doc : Task) (uids : List ℕ) (w : World m)
      → doc.parallelization ≡ true
      → is_empty uids ≡ false
      → Post (λ (_ : Outcome) (_ : World m). ⊥) (run_requested m uuid others ctx (doc, uids) w)
  unfolding run_requested
  run_requested-never ctx doc uids w par some_uid =
      let task = m.new_id w.tasks in
      run_scheduled-never ctx doc uids task (record w { tasks = m.insert w.tasks task doc }) par
        some_uid

  abbrev Parallel : Task × List ℕ → World m → Type 0
  Parallel wanted w = (wanted.0.parallelization ≡ true) × (is_empty wanted.1 ≡ false)

  known_endpoints-full :
      (ss : List String) (w : World m)
      → is_empty ss ≡ false
      → Post
          (λ (us : List ℕ) (_ : World m). is_empty us ≡ false)
          (known_endpoints m uuid others ss w)
  unfolding known_endpoints
  known_endpoints-full [] w h = absurd (cc)
  known_endpoints-full (s ∷ ss) w h = λ us e. ground arith

  task_for-Parallel :
      (r : RunRequest) (ctx : Context) (test : String × ℕ) (uids : List ℕ) (w : World m)
      → js2python_bool r.parallelization ≡ true
      → is_empty uids ≡ false
      → Post Parallel (task_for m uuid others r ctx test uids w)
  unfolding task_for
  task_for-Parallel r ctx test uids w par some_uid = λ wanted e. ground (arith, e, par, some_uid)

  requested_endpoints-full :
      (r : RunRequest) (w : World m)
      → Post
          (λ (ts : List String) (_ : World m). is_empty ts ≡ false)
          (requested_endpoints m uuid others r w)
  unfolding requested_endpoints
  requested_endpoints-full r w = λ ts e. ground (arith, e)

  requested_task-Parallel :
      (r : RunRequest) (ctx : Context) (w : World m)
      → js2python_bool r.parallelization ≡ true
      → Post Parallel (requested_task m uuid others r ctx w)
  unfolding requested_task
  requested_task-Parallel r ctx w par =
      Post-bind Parallel (requested_test m uuid others r ctx)
        (λ test. requested_endpoints m uuid others r >>= λ texts.
          known_endpoints m uuid others texts >>= λ uids. task_for m uuid others r ctx test uids)
        w
        λ test t.
          Post-bind_with Parallel (requested_endpoints m uuid others r)
            (λ texts. known_endpoints m uuid others texts >>= λ uids.
              task_for m uuid others r ctx test uids)
            t (λ texts _. is_empty texts ≡ false) (requested_endpoints-full r t)
            λ texts t2 full.
              Post-bind_with Parallel (known_endpoints m uuid others texts)
                (λ uids. task_for m uuid others r ctx test uids) t2 (λ us _. is_empty us ≡ false)
                (known_endpoints-full texts t2 full)
                λ uids t3 some_uid. task_for-Parallel r ctx test uids t3 par some_uid

  -- A request to run a test suite in parallel is never answered with success, whatever it asks for and
  -- whatever the state.
  pub parallel_never_succeeds :
      (r : RunRequest) (ctx : Context) (w : World m) (o : Outcome)
      → js2python_bool r.parallelization ≡ true
      → (post_task m uuid others r ctx w).0 ≢ ok o
  unfolding post_task
  parallel_never_succeeds r ctx w o par =
      Post-bind_with (λ _ _. ⊥) (requested_task m uuid others r ctx) _ w Parallel
        (requested_task-Parallel r ctx w par)
        (λ wanted t h. run_requested-never ctx wanted.0 wanted.1 t h.0 h.1) o
