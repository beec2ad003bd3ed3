-- ===== src/Runner/Cancel/Outcome.antt =====
-- How the cancel handler ends: on every path, and on the paths for a queued, a running and an
-- orphaned task.
use auto_test_system.Prelude.{
  ℕ, ◌≡◌, ◌⊎◌, inl, inr, refl, Bool, true, false, ◌&&◌, Option, none, some, arith, ==_refl,
  if◌then◌else◌, opt_eq, contains, remove?, present, present-remove, Bool-cases,
}
use auto_test_system.Exec.{
  Result, ok, raised, value_error, pure, when, ◌>>◌, Post, Post-bind, Post-bind_with, Post-pure,
}
use auto_test_system.Mongo.Defs.{Mongo, IsLawful, find_one}
use auto_test_system.Documents.{Task, TaskQueue, TaskStatus, waiting, running, Message, Endpoint}
use auto_test_system.World.{World}
use auto_test_system.Queue.{Handle, commit_task, set_queue, commit_queue_ok}
use auto_test_system.Runner.Cancel.{
  counter, endpoint_query, queue_query, queued_query, drop_running, mark_cancelled, unqueue,
  wait_running, cancel_running, cancel_waiting, cancel_found, cancel_at, cancel_queued,
  event_handler_cancel_task,
}

module _ (m : Mongo) where
  abbrev pub status_of : ℕ → World m → Option TaskStatus
  status_of t w = elim (m.get w.tasks t) [ none ↦ none | some d ↦ some d.status ]

  abbrev IsCancelled : ℕ → World m → Type 0
  IsCancelled t w = status_of t w ≡ some TaskStatus.cancelled

  -- A run that returns `tt`, or `false`, ends with the task cancelled.
  abbrev Marks : ℕ → Result (Unit {0}) × World m → Type 0
  Marks t = Post (λ _ v. IsCancelled t v)

  abbrev MarksFalse : ℕ → Result Bool × World m → Type 0
  MarksFalse t = Post (λ b v. b ≡ false → IsCancelled t v)

  module _ (L : IsLawful m) (others : ℕ → World m → World m) where
    mark_cancelled-Marks : (t : ℕ) (w : World m) → Marks t (mark_cancelled m t w)
    unfolding commit_task
    mark_cancelled-Marks t w u h =
        ground
          (arith, L.get-update Task w.tasks t t (λ x. record x { status = TaskStatus.cancelled }))

    mark_then-Marks : (t : ℕ) (w : World m) → MarksFalse t ((mark_cancelled m t >> pure false) w)
    mark_then-Marks t w =
        Post-bind_with (λ (b : Bool) v. b ≡ false → IsCancelled t v) (mark_cancelled m t)
          (λ _. pure false) w (λ _ v. IsCancelled t v) (mark_cancelled-Marks t w)
          λ _ v c. Post-pure (λ (b : Bool) x. b ≡ false → IsCancelled t x) false v (λ _. c)

    cancel_running-Marks :
        (endpoint queue t : ℕ) (w : World m) → Marks t (cancel_running m others endpoint queue t w)
    unfolding cancel_running
    cancel_running-Marks endpoint queue t w =
        elim (Bool-cases
          (present (counter endpoint w.task_per_endpoint) && contains t w.robot_processes)) [
            | inl kill ↦ rw kill (
                Post-bind (λ _ v. IsCancelled t v) (drop_running m queue) _ w
                  λ _ v.
                    Post-bind_with (λ _ x. IsCancelled t x) (mark_cancelled m t) _ v
                      (λ _ x. IsCancelled t x) (mark_cancelled-Marks t v) λ _ x c u done. c)
            | inr bare ↦ rw bare (
                Post-bind (λ _ v. IsCancelled t v) (drop_running m queue) _ w
                  λ _ v. mark_cancelled-Marks t v)
          ]

    cancel_waiting-Marks :
        (endpoint : ℕ) (q : Handle TaskQueue) (t : ℕ) (w : World m)
        → MarksFalse t (cancel_waiting m others endpoint q t w)
    unfolding cancel_waiting
    cancel_waiting-Marks endpoint q t w =
        elim (Bool-cases
          (opt_eq q.doc.running_task (some t) && present (counter endpoint w.task_per_endpoint))) [
            | inl mine ↦
                rw mine (Post-bind P (wait_running m others 20 t) _ w λ seen v. by_seen seen v)
            | inr other ↦ rw other (
                Post-bind P (when (opt_eq q.doc.running_task (some t)) (drop_running m q.pk)) _ w
                  λ _ v. Post-bind P (unqueue m t q) _ v λ _ x. mark_then-Marks t x)
          ]
      where
        P : Bool → World m → Type 0
        P b v = b ≡ false → IsCancelled t v

        by_seen :
            (seen : Bool) (v : World m)
            → MarksFalse t (
                (if seen
                    then pure true
                    else (do drop_running m q.pk; mark_cancelled m t; pure false))
                  v)
        by_seen true v = λ b done e. absurd (cc)
        by_seen false v = Post-bind P (drop_running m q.pk) _ v λ _ x. mark_then-Marks t x

    cancel_found-Marks :
        (endpoint : ℕ) (q : Handle TaskQueue) (t : ℕ) (s : TaskStatus) (w : World m)
        → Post (λ _ v. IsCancelled t v ⊎ (v ≡ w)) (cancel_found m others endpoint q t s w)
    unfolding cancel_found
    cancel_found-Marks endpoint q t waiting w =
        Post-bind_with R (cancel_waiting m others endpoint q t) _ w
          (λ b v. b ≡ false → IsCancelled t v) (cancel_waiting-Marks endpoint q t w) by_seen
      where
        R : Unit {0} → World m → Type 0
        R _ v = IsCancelled t v ⊎ (v ≡ w)

        by_seen :
            (seen : Bool) (v : World m)
            → (seen ≡ false → IsCancelled t v)
            → Post R (when seen (cancel_running m others endpoint q.pk t) v)
        by_seen true v h = λ u done. inl (cancel_running-Marks endpoint q.pk t v u done)
        by_seen false v h = λ u done. inl (h refl)
    cancel_found-Marks endpoint q t running w =
        λ u done. inl (cancel_running-Marks endpoint q.pk t w u done)
    cancel_found-Marks endpoint q t _ w = λ u done. inr refl

    abbrev Settles : ℕ → World m → Result (Unit {0}) × World m → Type 0
    Settles t w = Post (λ _ v. IsCancelled t v ⊎ (v ≡ w))

    cancel_at-Settles :
        (uid : ℕ) (msg : Message) (organization : ℕ) (team : Option ℕ) (s : TaskStatus)
        (w : World m)
        → Settles msg.task_id w (cancel_at m others uid msg organization team s w)
    unfolding cancel_at
    cancel_at-Settles uid msg organization team s w =
        by_endpoint (find_one m (endpoint_query uid organization team) w.endpoints)
      where
        by_queue :
            (e : ℕ) (q : Option (ℕ × TaskQueue))
            → Settles msg.task_id w (elim q [
              | none ↦ (ok tt, w)
              | some (pk, d) ↦ cancel_found m others e (record { pk = pk; doc = d }) msg.task_id s w
            ])
        by_queue e none = λ u done. inr refl
        by_queue e (some (pk, d)) =
            cancel_found-Marks e (record { pk = pk; doc = d }) msg.task_id s w

        by_endpoint :
            (o : Option (ℕ × Endpoint))
            → Settles msg.task_id w (elim o [
              | none ↦ (ok tt, w)
              | some (e, _) ↦
                  elim (find_one m (queue_query organization team e msg.priority) w.task_queues) [
                    | none ↦ (ok tt, w)
                    | some (pk, q) ↦
                        cancel_found m others e (record { pk = pk; doc = q }) msg.task_id s w
                  ]
            ])
        by_endpoint none = λ u done. inr refl
        by_endpoint (some (e, _)) =
            by_queue e (find_one m (queue_query organization team e msg.priority) w.task_queues)

    cancel_queued-Settles :
        (msg : Message) (organization : ℕ) (team : Option ℕ) (w : World m)
        → Settles msg.task_id w (cancel_queued m others msg organization team w)
    unfolding cancel_queued
    cancel_queued-Settles msg organization team w =
        by_queue
          (find_one m (queued_query organization team msg.priority msg.task_id) w.task_queues)
      where
        by_queue :
            (q : Option (ℕ × TaskQueue))
            → Settles msg.task_id w (elim q [
              | none ↦ (ok tt, w)
              | some (pk, d) ↦
                  (do
                    unqueue m msg.task_id (record { pk = pk; doc = d })
                    mark_cancelled m msg.task_id)
                    w
            ])
        by_queue none = λ u done. inr refl
        by_queue (some (pk, d)) = λ u done. inl (
            Post-bind (λ _ v. IsCancelled msg.task_id v)
              (unqueue m msg.task_id (record { pk = pk; doc = d })) _ w
              (λ _ v. mark_cancelled-Marks msg.task_id v) u done)

    -- A run of the cancel handler that returns has cancelled the task, or has changed nothing: however
    -- it finds the queue, and whatever other parts of the program do while it waits.
    pub event_handler_cancel_task-cancels :
        (msg : Message) (organization : ℕ) (team : Option ℕ) (w : World m)
        → let (r, w') = event_handler_cancel_task m others msg organization team w in
          r ≡ ok tt → (status_of msg.task_id w' ≡ some TaskStatus.cancelled) ⊎ (w' ≡ w)
    unfolding event_handler_cancel_task
    event_handler_cancel_task-cancels msg organization team w =
        by_task (m.get w.tasks msg.task_id) msg.endpoint_uid
      where
        by_task :
            (t : Option Task) (uid : Option ℕ)
            → let p : Result (Unit {0}) × World m = elim t [
              | none ↦ (ok tt, w)
              | some task ↦ elim uid [
                | none ↦ cancel_queued m others msg organization team w
                | some u ↦ cancel_at m others u msg organization team task.status w
              ]
            ] in
              p.0 ≡ ok tt → (status_of msg.task_id p.1 ≡ some TaskStatus.cancelled) ⊎ (p.1 ≡ w)
        by_task none uid = λ done. inr refl
        by_task (some task) none = cancel_queued-Settles msg organization team w tt
        by_task (some task) (some u) = cancel_at-Settles u msg organization team task.status w tt

    -- A task that its loop has popped, but that no loop is working on any more, cannot be cancelled:
    -- it is no longer in the list, so its removal raises `ValueError`, and it stays waiting without a
    -- queue that holds it.
    pub cancel_orphan :
        (endpoint t : ℕ) (q : Handle TaskQueue) (w : World m) {d : TaskQueue}
        → m.get w.task_queues q.pk ≡ some d
        → q.doc.running_task ≡ some t
        → contains t q.doc.tasks ≡ false
        → counter endpoint w.task_per_endpoint ≡ none
        → let (r, w') = cancel_found m others endpoint q t waiting w in
          (r ≡ raised value_error)
          × (status_of t w' ≡ status_of t w)
          × (m.get w'.task_queues q.pk ≡ some (record d { running_task = none }))
    unfolding cancel_found
    cancel_orphan endpoint t q w {d} stored mine absent idle =
        let gone : remove? t q.doc.tasks ≡ none = ground (arith, present-remove t q.doc.tasks) in
        let w1 = set_queue m q.pk (λ x. record x { running_task = none }) w in
        let run : cancel_found m others endpoint q t waiting w ≡ (raised value_error, w1) = ground (
          arith,
          gone,
          ==_refl t,
          commit_queue_ok m q.pk (λ x. record x { running_task = none }) w stored,
        ) in
        rw run (refl, refl, simp (L.get-update, ==_refl, stored))
