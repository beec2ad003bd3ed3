-- ===== src/EventQueue.antt =====
-- `EventQueue` of webserver/app/main/model/database.py, and `push_event` of
-- webserver/app/main/util/eventqueue.py.
use auto_test_system.Prelude.{
  ℕ, zero, suc, Bool, true, false, Option, none, some, List, [], ◌∷◌, ◌++◌, if◌then◌else◌, not,
}
use auto_test_system.Exec.{
  Exec, ok, stop, raised, runtime_error, document_missing, pure, gets, or_raise, modify, raise_if,
  ◌>>=◌, ◌>>◌,
}
use auto_test_system.Mongo.Defs.{Mongo, find_one}
use auto_test_system.Documents.{EventQueue, EventStatus, Message, lock_timeout}
use auto_test_system.World.{World}
use auto_test_system.Queue.{Handle}

module _ (m : Mongo) where
  abbrev pub set_events : ℕ → (EventQueue → EventQueue) → World m → World m
  set_events pk f w = record w { event_queues = m.update w.event_queues pk f }

  unfoldable pub commit_events : ℕ → (EventQueue → EventQueue) → Exec (World m) (Unit {0})
  commit_events pk f w = elim (m.get w.event_queues pk) [
    | none ↦ (raised document_missing, w)
    | some d ↦ (ok tt, set_events pk f w)
  ]

  unfoldable pub try_lock : ℕ → World m → Option (World m)
  try_lock pk w = elim (m.get w.event_queues pk) [
    | none ↦ none
    | some q ↦ if q.rw_lock then none else some (set_events pk (λ d. record d { rw_lock = true }) w)
  ]

  unfoldable pub release_lock : ℕ → Exec (World m) (Unit {0})
  release_lock pk = modify (set_events pk (λ d. record d { rw_lock = false }))

  module _ (others : ℕ → World m → World m) where
    unfoldable pub acquire_from : ℕ → ℕ → World m → Bool × World m
    acquire_from zero pk w = (false, w)
    acquire_from (suc n) pk w = elim (try_lock pk w) [
      | some w' ↦ (true, w')
      | none ↦ acquire_from n pk (others n w)
    ]

    unfoldable pub acquire_lock : ℕ → World m → Bool × World m
    unfolding acquire_from
    acquire_lock = acquire_from lock_timeout

    abbrev pub acquired : ℕ → Exec (World m) Bool
    acquired pk w = let (got, w') = acquire_lock pk w in (ok got, w')

    unfoldable pub take_first : ℕ → List ℕ → Exec (World m) (Option ℕ)
    unfolding release_lock
    take_first pk [] = do release_lock pk; pure none
    take_first pk (e ∷ es) = do
      found ← gets (λ w. m.get w.events e)
      event ← or_raise found document_missing
      commit_events pk (λ d. record d { events = es })
      release_lock pk
      pure (some e)

    unfoldable pub pop : ℕ → Exec (World m) (Option ℕ)
    unfolding take_first
    pop pk = do
      got ← acquired pk
      if got
          then (do
            q ← gets (λ w. m.get w.event_queues pk)
            self ← or_raise q document_missing
            take_first pk self.events)
          else pure none

    unfoldable pub push : ℕ → Handle EventQueue → Exec (World m) (Handle EventQueue)
    unfolding release_lock
    push event self = do
      got ← acquired self.pk
      raise_if (not got) runtime_error
      let events = self.doc.events ++ (event ∷ [])
      commit_events self.pk (λ d. record d { events = events })
      release_lock self.pk
      pure (record self { doc = record self.doc { events = events } })

    -- `except RuntimeError: return False`
    abbrev pub caught : Exec (World m) (Handle EventQueue) → Exec (World m) Bool
    caught e w =
        let (r, w') = e w in
        elim r [
          | ok _ ↦ (ok true, w')
          | stop c t ↦ (stop c t, w')
          | raised runtime_error ↦ (ok false, w')
          | raised x ↦ (raised x, w')
        ]

    -- `EventQueue.find_one({})`, then the push of the committed event.
    push_found : ℕ → Option (ℕ × EventQueue) → Exec (World m) Bool
    push_found event none = pure false
    push_found event (some (pk, q)) = caught (push event (record { pk = pk; doc = q }))

    unfoldable pub push_event : ℕ → Option ℕ → ℕ → Message → Exec (World m) Bool
    unfolding push_found
    push_event organization team code message = do
      event ← gets (λ w. m.new_id w.events)
      modify (λ w. record w {
        events = m.insert w.events event (record {
          code = code;
          message = message;
          organization = organization;
          team = team;
          status = EventStatus.triggered;
        });
      })
      q ← gets (λ w. find_one m (λ _. true) w.event_queues)
      push_found event q
