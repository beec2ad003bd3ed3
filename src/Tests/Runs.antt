-- ===== src/Tests/Runs.antt =====
-- Tests of the task runner, and its theorems at the data of `Tests/Data.antt`.
use auto_test_system.Markdown.{lower_eq}
use auto_test_system.Runner.Variables.{
  Numbers, literal, reference, scan, constant_of, substituted, sub_variable,
}
use auto_test_system.Runner.Variables.Scanned.{text_of, sub_variable-constant}
use auto_test_system.Prelude.{
  ◌<>◌, ℕ, ◌≡◌, ◌≢◌, ◌⊎◌, refl, true, false, none, some, [], ◌∷◌, arith, ap,
}
use auto_test_system.Exec.{ok, raised, value_error}
use auto_test_system.Mongo.Defs.{IsLawful, find_one}
use auto_test_system.Mongo.Assoc.{assoc, assoc_with-IsLawful}
use auto_test_system.Documents.{TaskQueue, TaskStatus, failed, Message}
use auto_test_system.World.{World}
use auto_test_system.Queue.{commit_task, commit_queue}
use auto_test_system.Runner.Cancel.{
  endpoint_query, counter, event_handler_cancel_task, cancel_found,
}
use auto_test_system.Runner.Cancel.Outcome.{
  status_of, event_handler_cancel_task-cancels, cancel_orphan,
}
use auto_test_system.Runner.Start.{schedule, event_handler_start_task, delete_task}
use auto_test_system.Runner.Start.Wakeup.{start_wakes_loop, late_start_lost}
use auto_test_system.Runner.Loop.{settle, after_scan, search_on, again, finished, pick, found}
use auto_test_system.Runner.Loop.Claim.{
  Race, fresh, tested, lost, kickedoff_of, at, Reach, here, next, test, IsFair, Reach-IsFair,
  both_give_up,
}
use auto_test_system.Runner.Loop.Rounds.{settle_lem}
use auto_test_system.Tests.Data.{quiet, task, queue_of, busy_queue, endpoint, site}

lawful : IsLawful assoc
lawful = assoc_with-IsLawful true

abbrev cancel_11 : Message
cancel_11 = record { endpoint_uid = some 7; priority = 2; task_id = 11; to_delete = false }

-- The queued task 11 is taken off its queue and cancelled.
cancel_queued_run : event_handler_cancel_task assoc quiet cancel_11 1 none site ≡ (
  ok tt,
  record site {
    tasks = (11, task TaskStatus.cancelled) ∷ (12, task TaskStatus.waiting) ∷ [];
    task_queues = (3, queue_of (12 ∷ [])) ∷ [];
  },
)
unfolding event_handler_cancel_task find_one commit_task commit_queue
cancel_queued_run = refl

event_handler_cancel_task-cancels_example :
    (status_of assoc 11 (event_handler_cancel_task assoc quiet cancel_11 1 none site).1
      ≡ some TaskStatus.cancelled)
    ⊎ ((event_handler_cancel_task assoc quiet cancel_11 1 none site).1 ≡ site)
event_handler_cancel_task-cancels_example =
    event_handler_cancel_task-cancels assoc lawful quiet cancel_11 1 none site
      (ap (λ p. p.0) cancel_queued_run)

-- The queue after a pop of the task 11 whose loop has died.
abbrev orphaned : TaskQueue
orphaned = record (queue_of (12 ∷ [])) { running_task = some 11 }

abbrev orphan_site : World assoc
orphan_site = record site { task_queues = (3, orphaned) ∷ [] }

cancel_orphan_example :
    let (r, w') =
      cancel_found assoc quiet 5
        (record { pk = 3; doc = orphaned })
        11
        TaskStatus.waiting
        orphan_site in
    (r ≡ raised value_error)
    × (status_of assoc 11 w' ≡ status_of assoc 11 orphan_site)
    × (assoc.get w'.task_queues 3 ≡ some (record orphaned { running_task = none }))
cancel_orphan_example =
    cancel_orphan assoc lawful quiet 5 11 (record { pk = 3; doc = orphaned }) orphan_site refl refl
      refl refl

abbrev all_held : World assoc
all_held = record site {
  task_queues =
      (3, record busy_queue { rw_lock = true })
      ∷ (4, record busy_queue { rw_lock = true; team = some 9 })
      ∷ [];
}

-- A process that fails.
abbrev failing : ℕ → World assoc → ℕ × World assoc
failing t w = (1, w)

abbrev looping : World assoc
looping = record site { task_per_endpoint = (5, 1) ∷ [] }

endpoint_found : find_one assoc (endpoint_query 7 1 none) looping.endpoints ≡ some (5, endpoint)
unfolding find_one
endpoint_found = refl

-- Behind the event, a task of another endpoint has been terminated.
abbrev later : World assoc
later = record looping { task_per_endpoint = (5, 2) ∷ []; terminated = 9 ∷ [] }

start_wakes_loop_example :
    ((event_handler_start_task assoc 7 1 none looping).loops ≡ [])
    × ((after_scan assoc quiet failing 5 search_on later).0 ≡ ok again)
    × (counter 5 (after_scan assoc quiet failing 5 search_on later).1.task_per_endpoint ≡ some 1)
unfolding event_handler_start_task schedule find_one
start_wakes_loop_example =
    start_wakes_loop assoc quiet failing 7 1 5 1 none endpoint looping later endpoint_found refl
      refl

loop_ends : after_scan assoc quiet failing 5 search_on looping ≡ (ok finished, looping)
unfolding after_scan
loop_ends = refl

late_start_lost_example :
    let w' = delete_task assoc 5 (event_handler_start_task assoc 7 1 none looping) in
    (w'.loops ≡ []) × (counter 5 w'.task_per_endpoint ≡ none)
late_start_lost_example =
    late_start_lost assoc quiet failing 7 1 5 none endpoint looping looping loop_ends endpoint_found

abbrev race : Race assoc 11
race = record { world = site; phase = λ c. fresh }

race-IsFair : IsFair assoc 11 race
race-IsFair = record {
  number = 0;
  stored = refl;
  counted = λ c e. absurd (cc);
  counted_twice = λ c d e f. absurd (cc);
  one_winner = λ c d e f. absurd (cc);
}

abbrev raced : Race assoc 11
raced = record { world = site; phase = at assoc 11 race.phase 5 tested }

Reach-IsFair_example : IsFair assoc 11 raced
Reach-IsFair_example = Reach-IsFair assoc 11 lawful race-IsFair (next here (test race 5 refl refl))

both_give_up_example :
    (v : Race assoc 11) × Reach assoc 11 race v
    × (v.phase 5 ≡ lost)
    × (v.phase 6 ≡ lost)
    × (kickedoff_of assoc 11 v.world ≡ some 2)
both_give_up_example = both_give_up assoc 11 lawful race 5 6 (omega arith) refl refl refl

settle_lem_example :
    let (r, w') = settle assoc quiet failing 11 1 site in
    (r ≡ ok tt)
    × (status_of assoc 11 w' ≡ some failed)
    × ((j : ℕ) → 11 ≢ j → assoc.get w'.tasks j ≡ assoc.get site.tasks j)
settle_lem_example = settle_lem assoc lawful quiet failing 11 1 site refl

abbrev cancelled_site : World assoc
cancelled_site = record site { tasks = (11, task TaskStatus.cancelled) ∷ [] }

picked : (pick assoc 2 (3 ∷ []) site).0 ≡ ok (found 3)
unfolding pick
picked = refl

abbrev no_numbers : Numbers
no_numbers = record { is_float = λ s. false; is_int = λ s b. false }

-- The name in braces is no Python expression without the f-string.
sub_variable-constant_example :
    sub_variable no_numbers "${name}${TRUE}!"
    ≡ substituted no_numbers (reference "name" ∷ []) <> ("True" <> text_of (literal "!" ∷ []))
unfolding scan constant_of lower_eq
sub_variable-constant_example =
    sub_variable-constant no_numbers "${name}${TRUE}!" "TRUE" "True" (reference "name" ∷ [])
      (literal "!" ∷ []) refl tt refl
