-- ===== src/Runner/Reset.antt =====
-- `reset_task_queue_status` of
-- webserver/task_runner/runner.py: the locks that an aborted runner has left are opened again.
use auto_test_system.Prelude.{
  ℕ, ◌≡◌, refl, Bool, false, ◌&&◌, Option, none, some, List, [], ◌∷◌, arith, ◌==◌, contains,
  if◌then◌else◌, opt_eq, is_empty, ◌∙◌, ap,
}
use auto_test_system.Mongo.Defs.{Mongo, IsLawful, find, map_at}
use auto_test_system.Mongo.Find.{keys, matches, contains-find}
use auto_test_system.Documents.{TaskQueue}
use auto_test_system.World.{World}

-- `{'organization': organization.pk, 'team': team.pk if team else None}`
abbrev pub of_queue : ℕ → Option ℕ → TaskQueue → Bool
of_queue organization team q = opt_eq q.organization (some organization) && opt_eq q.team team

module _ (m : Mongo) where
  -- `find_one_and_update({'_id': q.pk, 'rw_lock': True}, {'$set': {'rw_lock': False}})`
  abbrev pub open_lock : ℕ → World m → World m
  open_lock pk w = elim (m.get w.task_queues pk) [
    | none ↦ w
    | some d ↦
        if d.rw_lock
        then record w {
          task_queues = m.update w.task_queues pk (λ q. record q { rw_lock = false });
        }
        else w
  ]

  unfoldable pub open_each : List ℕ → World m → World m
  open_each [] w = w
  open_each (k ∷ ks) w = open_each ks (open_lock k w)

  -- The status 1 is returned where no queue was found.
  unfoldable pub reset_task_queue_status : ℕ → Option ℕ → World m → ℕ × World m
  unfolding open_each
  reset_task_queue_status organization team w =
      let qs = find m (of_queue organization team) w.task_queues in
      (if is_empty qs then 1 else 0, open_each (keys qs) w)

  open_each-keeps :
      (ks : List ℕ) (w : World m)
      → ((open_each ks w).task_per_endpoint ≡ w.task_per_endpoint)
        × ((open_each ks w).loops ≡ w.loops)
  unfolding open_each
  open_each-keeps [] w = (refl, refl)
  open_each-keeps (k ∷ ks) w = ground (arith, open_each-keeps ks (open_lock k w))

  pub reset_task_queue_status-keeps :
      (organization : ℕ) (team : Option ℕ) (w : World m)
      → let w' = (reset_task_queue_status organization team w).1 in
        (w'.task_per_endpoint ≡ w.task_per_endpoint) × (w'.loops ≡ w.loops)
  unfolding reset_task_queue_status
  reset_task_queue_status-keeps organization team w =
      open_each-keeps (keys (find m (of_queue organization team) w.task_queues)) w

  abbrev pub opened : TaskQueue → TaskQueue
  opened q = record q { rw_lock = false }

  module _ (L : IsLawful m) where
    get-open_lock :
        (k j : ℕ) (w : World m)
        → m.get (open_lock k w).task_queues j
          ≡ (if k == j then map_at opened (m.get w.task_queues j) else m.get w.task_queues j)
    get-open_lock k j w = ground (arith, L.get-update TaskQueue w.task_queues k j opened)

    get-open_each :
        (ks : List ℕ) (j : ℕ) (w : World m)
        → m.get (open_each ks w).task_queues j
          ≡ (if contains j ks then map_at opened (m.get w.task_queues j) else m.get w.task_queues j)
    unfolding open_each
    get-open_each [] j w = refl
    get-open_each (k ∷ ks) j w =
        ground (arith, get-open_each ks j (open_lock k w), get-open_lock k j w)

    -- After a reset exactly the queues of that organization and team have had their lock opened; no
    -- queue has changed otherwise.
    pub reset_task_queue_status_lem :
        (organization : ℕ) (team : Option ℕ) (w : World m) (j : ℕ)
        → m.get (reset_task_queue_status organization team w).1.task_queues j ≡ (
            if matches (of_queue organization team) (m.get w.task_queues j)
            then map_at opened (m.get w.task_queues j)
            else m.get w.task_queues j)
    unfolding reset_task_queue_status
    reset_task_queue_status_lem organization team w j =
        get-open_each (keys (find m (of_queue organization team) w.task_queues)) j w
        ∙ ap (λ b. if b then map_at opened (m.get w.task_queues j) else m.get w.task_queues j)
            (contains-find m (of_queue organization team) w.task_queues L j)
