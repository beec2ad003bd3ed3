-- ===== src/Runner/Events.antt =====
-- One round of `event_loop`, `reset_event_queue_status` and `prepare_to_run` of
-- webserver/task_runner/runner.py.
use auto_test_system.Prelude.{
  ℕ, ◌≡◌, true, false, Option, none, some, [], ◌==◌, if◌then◌else◌, arith, present, Option-cases,
  inl, inr,
}
use auto_test_system.Exec.{
  Exec, ok, stop, raised, key_error, type_error, document_missing, pure, raise, modify, ◌>>=◌, ◌>>◌,
}
use auto_test_system.Mongo.Defs.{Mongo, IsLawful, find_one}
use auto_test_system.Mongo.Find.{find_one-Sound}
use auto_test_system.Documents.{
  Event, EventQueue, EventStatus, event_code_start_task, event_code_cancel_task,
  event_code_update_user_script, event_code_get_endpoint_config,
}
use auto_test_system.World.{World}
use auto_test_system.EventQueue.{pop, try_lock, set_events}
use auto_test_system.Organization.{fetch, fetch_if}
use auto_test_system.Access.{pk_of}
use auto_test_system.Runner.Start.{event_handler_start_task}
use auto_test_system.Runner.Cancel.{event_handler_cancel_task}
use auto_test_system.Runner.Reset.{reset_task_queue_status}

-- What a round has done: nothing was there, an event was handled, or its code was unknown.
pub data Round : Type 0 where
  idle handled unknown : Round

module _ (m : Mongo) where
  unfoldable pub reset_event_queue_status : World m → World m
  reset_event_queue_status w = elim (find_one m (λ _. true) w.event_queues) [
    | none ↦ record w {
      event_queues =
          m.insert w.event_queues (m.new_id w.event_queues)
            (record { events = []; rw_lock = false });
    }
    | some (k, q) ↦ if q.rw_lock then set_events m k (λ d. record d { rw_lock = false }) w else w
  ]

  -- Nothing is restarted. The status of the reset of the task queues is the result.
  unfoldable pub prepare_to_run : ℕ → Option ℕ → World m → ℕ × World m
  unfolding reset_event_queue_status
  prepare_to_run organization team w =
      reset_task_queue_status m organization team (reset_event_queue_status w)

  module _ (others : ℕ → World m → World m) where
    -- A start or cancel handler begins with the fetch of the event's organization and team. The
    -- handler of a configuration calls the message, which is no function.
    unfoldable pub dispatch : Event → Exec (World m) (Unit {0})
    dispatch e =
        if e.code == event_code_start_task
        then (do
          o ← fetch m (λ w. w.organizations) e.organization
          t ← fetch_if m (λ w. w.teams) e.team
          elim e.message.endpoint_uid [
            | none ↦ pure tt
            | some uid ↦ modify (event_handler_start_task m uid o.pk (pk_of t))
          ])
        else if e.code == event_code_cancel_task
        then (do
          o ← fetch m (λ w. w.organizations) e.organization
          t ← fetch_if m (λ w. w.teams) e.team
          event_handler_cancel_task m others e.message o.pk (pk_of t))
        else if e.code == event_code_update_user_script
        then pure tt
        else if e.code == event_code_get_endpoint_config
        then raise type_error
        else raise key_error

    unfoldable pub commit_event : ℕ → (Event → Event) → Exec (World m) (Unit {0})
    commit_event pk f w = elim (m.get w.events pk) [
      | none ↦ (raised document_missing, w)
      | some d ↦ (ok tt, record w { events = m.update w.events pk f })
    ]

    -- `except KeyError`; any other exception ends the loop.
    abbrev pub unless_unknown : Exec (World m) (Unit {0}) → Exec (World m) Round
    unless_unknown e w =
        let (r, w') = e w in
        elim r [
          | ok _ ↦ (ok handled, w')
          | stop c t ↦ (stop c t, w')
          | raised key_error ↦ (ok unknown, w')
          | raised x ↦ (raised x, w')
        ]

    unfoldable pub process : ℕ → Exec (World m) Round
    unfolding dispatch commit_event
    process k = do
      event ← fetch m (λ w. w.events) k
      unless_unknown
          (dispatch event.doc >> commit_event k (λ e. record e { status = EventStatus.processed }))

    unfoldable pub event_round : ℕ → Exec (World m) Round
    unfolding process
    event_round queue = do
      popped ← pop m others queue
      elim popped [ none ↦ pure idle | some k ↦ process k ]

    -- A stored event with a code that no handler has is dropped: the round goes on without a change, and
    -- the event keeps its status.
    pub process-unknown :
        (k : ℕ) (w : World m) {e : Event}
        → m.get w.events k ≡ some e
        → (e.code == 200) ≡ false
        → (e.code == 201) ≡ false
        → (e.code == 202) ≡ false
        → (e.code == 208) ≡ false
        → process k w ≡ (ok unknown, w)
    unfolding process dispatch
    process-unknown k w at a b c d = ground (arith, at, a, b, c, d)

  -- After a reset there is an event queue whose lock can be taken at once.
  pub reset_event_queue_status_lem :
      IsLawful m
      → (w : World m) → (k : ℕ) × (present (try_lock m k (reset_event_queue_status w)) ≡ true)
  unfolding reset_event_queue_status try_lock
  reset_event_queue_status_lem L w = elim (Option-cases (find_one m (λ _. true) w.event_queues)) [
    | inl none_yet ↦ (
      m.new_id w.event_queues,
      ground (
        arith,
        none_yet,
        L.get-insert EventQueue w.event_queues (m.new_id w.event_queues) (m.new_id w.event_queues)
            (record { events = []; rw_lock = false }),
      ),
    )
    | inr ((k, q), found) ↦ (
      k,
      ground (
        arith,
        found,
        (find_one-Sound m (λ _. true) w.event_queues k q found).0,
        L.get-update EventQueue w.event_queues k k (λ d. record d { rw_lock = false }),
      ),
    )
  ]
