-- ===== src/Runner/Start/Wakeup.antt =====
-- The counter that keeps a start event from being lost between the last search of a loop and its end.
use auto_test_system.Prelude.{
  ℕ, ◌≡◌, refl, Option, none, some, List, [], ◌∷◌, arith, ◌==◌, if◌then◌else◌, present,
  Option-cases, inl, inr,
}
use auto_test_system.Runner.Cancel.{counter, set_counter}
use auto_test_system.Mongo.Defs.{Mongo, find_one}
use auto_test_system.World.{World}
use auto_test_system.Runner.Reset.{reset_task_queue_status, reset_task_queue_status-keeps}
use auto_test_system.Runner.Cancel.{endpoint_query}
use auto_test_system.Documents.{Endpoint}
use auto_test_system.Exec.{ok}
use auto_test_system.Runner.Loop.{after_scan, search_on, again, finished}
use auto_test_system.Runner.Start.{schedule, event_handler_start_task, del_counter, delete_task}

pub counter-set_counter :
    (e k n : ℕ) (l : List (ℕ × ℕ))
    → counter k (set_counter e n l) ≡ (if k == e then some n else counter k l)
counter-set_counter e k n [] = refl
counter-set_counter e k n ((j, v) ∷ l) = ground (arith, counter-set_counter e k n l)

pub counter-del_counter :
    (m : Mongo) (e k : ℕ) (l : List (ℕ × ℕ))
    → counter k (del_counter m e l) ≡ (if k == e then none else counter k l)
counter-del_counter m e k [] = ground arith
counter-del_counter m e k ((j, v) ∷ l) = ground (arith, counter-del_counter m e k l)

module _ (m : Mongo) (others : ℕ → World m → World m) (robot : ℕ → World m → ℕ × World m) where
  task_per_endpoint-reset :
      (organization : ℕ) (team : Option ℕ) (w : World m)
      → let w' = (reset_task_queue_status m organization team w).1 in
        (w'.task_per_endpoint ≡ w.task_per_endpoint) × (w'.loops ≡ w.loops)
  task_per_endpoint-reset organization team w = reset_task_queue_status-keeps m organization team w

  -- What a start event does for a known endpoint: it starts a loop with the counter 1 where none is
  -- alive, and otherwise starts none and sets the counter of the loop to 2.
  abbrev pub Woken : ℕ → World m → World m → Type 0
  Woken e w w' =
      (counter e w'.task_per_endpoint
        ≡ (if present (counter e w.task_per_endpoint) then some 2 else some 1))
      × (w'.loops ≡ (if present (counter e w.task_per_endpoint) then w.loops else e ∷ w.loops))

  schedule-Woken :
      (e organization : ℕ) (team : Option ℕ) (w : World m)
      → Woken e w (schedule m e organization team w)
  unfolding schedule
  schedule-Woken e organization team w =
      let r = (reset_task_queue_status m organization team w).1 in
      let (same, loops) = task_per_endpoint-reset organization team w in
      elim (Option-cases (counter e w.task_per_endpoint)) [
        | inl idle ↦
            (ground (arith, counter-set_counter e e 1 r.task_per_endpoint), ground (arith, loops))
        | inr (n, alive) ↦
            (ground (arith, counter-set_counter e e 2 w.task_per_endpoint), ground arith)
      ]

  -- A start event for a known endpoint whose loop is alive starts no second loop. In any later state in
  -- which the counter of the endpoint is still the one that the event has left, a search of the loop that
  -- ends without a task is followed by another round, with the counter back at 1.
  pub start_wakes_loop :
      (uid organization e n : ℕ) (team : Option ℕ) (d : Endpoint) (w v : World m)
      → find_one m (endpoint_query uid organization team) w.endpoints ≡ some (e, d)
      → counter e w.task_per_endpoint ≡ some n
      → counter e v.task_per_endpoint
        ≡ counter e (event_handler_start_task m uid organization team w).task_per_endpoint
      → ((event_handler_start_task m uid organization team w).loops ≡ w.loops)
        × ((after_scan m others robot e search_on v).0 ≡ ok again)
        × (counter e (after_scan m others robot e search_on v).1.task_per_endpoint ≡ some 1)
  unfolding event_handler_start_task schedule after_scan
  start_wakes_loop uid organization e n team d w v known alive later =
      let set = counter-set_counter e e 2 w.task_per_endpoint in
      let left : counter e v.task_per_endpoint ≡ some 2 =
        ground (arith, later, known, alive, set) in
      (
        ground arith,
        ground (arith, left),
        ground (arith, left, counter-set_counter e e 1 v.task_per_endpoint),
      )

  -- A start event for an endpoint with no loop starts one, with the counter 1.
  pub start_spawns_loop :
      (uid organization e : ℕ) (team : Option ℕ) (d : Endpoint) (w : World m)
      → find_one m (endpoint_query uid organization team) w.endpoints ≡ some (e, d)
      → counter e w.task_per_endpoint ≡ none
      → Woken e w (event_handler_start_task m uid organization team w)
  unfolding event_handler_start_task
  start_spawns_loop uid organization e team d w known idle =
      rw (known, event_handler_start_task) (schedule-Woken e organization team w)

  -- A start event that comes after the loop has decided to end, and before its done callback has run,
  -- starts nothing: no loop is started, and the counter is gone afterwards.
  pub late_start_lost :
      (uid organization e : ℕ) (team : Option ℕ) (d : Endpoint) (w v : World m)
      → after_scan m others robot e search_on v ≡ (ok finished, w)
      → find_one m (endpoint_query uid organization team) w.endpoints ≡ some (e, d)
      → let w' = delete_task m e (event_handler_start_task m uid organization team w) in
        (w'.loops ≡ w.loops) × (counter e w'.task_per_endpoint ≡ none)
  unfolding event_handler_start_task schedule after_scan delete_task
  late_start_lost uid organization e team d w v ended known = (
    ground arith,
    ground (arith, counter-del_counter m e e (set_counter e 2 w.task_per_endpoint)),
  )
