-- ===== src/Tasks/Statistics.antt =====
-- The statistics of webserver/app/main/controller/task_controller.py (TaskView.get): one entry for each
-- day of a span. Times are milliseconds, in which the database stores them; the documents of the model
-- leave them out, so they are functions of a task's `_id` here.
use auto_test_system.Prelude.{
  ℕ, zero, suc, ◌+◌, ◌-◌, ◌*◌, ◌/◌, ◌%◌, ◌≤◌, ◌<◌, ◌≡◌, ◌↔◌, refl, Bool, true, false, ◌&&◌, Option,
  none, some, List, [], ◌∷◌, ◌==◌, leb, opt_eq, if◌then◌else◌, arith, Bool-cases, inl, inr,
}
use auto_test_system.Exec.{Exec, pure, gets, stop_if, einval, ◌>>=◌, ◌>>◌}
use auto_test_system.Mongo.Defs.{Mongo, find}
use auto_test_system.Documents.{Task, TaskStatus}
use auto_test_system.World.{World}
use auto_test_system.Access.{Context, pk_of}

-- `timedelta(days=1)`
abbrev pub day : ℕ
day = 86400000

-- `days`: the days of the span, a part of a day counted as one. A span that ends before it starts, by
-- less than a day, has none.
unfoldable pub days_of : ℕ → ℕ → ℕ
days_of start fin =
    let delta = fin - start in if delta % day == 0 then delta / day else suc (delta / day)

-- The interval of each round of the loop; the last one ends with the span.
unfoldable pub windows : ℕ → ℕ → ℕ → List (ℕ × ℕ)
windows zero start fin = []
windows (suc zero) start fin = (start, fin) ∷ []
windows (suc (suc n)) start fin = (start, start + day) ∷ windows (suc n) (start + day) fin

-- `{'$gte': start, '$lte': end}`
abbrev pub between : ℕ × ℕ → ℕ → Bool
between i t = leb (i.0) t && leb t (i.1)

abbrev pub count_windows : ℕ → List (ℕ × ℕ) → ℕ
count_windows t [] = 0
count_windows t (i ∷ is) = let rest = count_windows t is in if between i t then suc rest else rest

pub record Stat : Type 0 where
  pub succeeded : ℕ
  pub failed : ℕ
  pub running : ℕ
  pub waiting : ℕ

abbrev pub is_status : TaskStatus → TaskStatus → Bool
is_status TaskStatus.waiting TaskStatus.waiting = true
is_status TaskStatus.running TaskStatus.running = true
is_status TaskStatus.successful TaskStatus.successful = true
is_status TaskStatus.failed TaskStatus.failed = true
is_status TaskStatus.cancelled TaskStatus.cancelled = true
is_status _ _ = false

module _ (m : Mongo) (run_date schedule_date : ℕ → Option ℕ) where
  abbrev within : ℕ × ℕ → Option ℕ → Bool
  within i none = false
  within i (some t) = between i t

  -- `Task.count_documents(query)`
  abbrev count : (ℕ → Option ℕ) → ℕ × ℕ → List (ℕ × Task) → ℕ
  count date i [] = 0
  count date i ((k, _) ∷ ts) =
      let rest = count date i ts in if within i (date k) then suc rest else rest

  abbrev tasks_with : Context → TaskStatus → World m → List (ℕ × Task)
  tasks_with ctx s w =
      find m
        (λ t.
          is_status t.status s
          && opt_eq t.organization (some ctx.organization.pk)
          && opt_eq t.team (pk_of ctx.team))
        w.tasks

  unfoldable pub stat_of : Context → ℕ × ℕ → World m → Stat
  stat_of ctx i w = record {
    succeeded = count run_date i (tasks_with ctx TaskStatus.successful w);
    failed = count run_date i (tasks_with ctx TaskStatus.failed w);
    running = count run_date i (tasks_with ctx TaskStatus.running w);
    waiting = count schedule_date i (tasks_with ctx TaskStatus.waiting w);
  }

  abbrev stats_of : Context → List (ℕ × ℕ) → World m → List Stat
  stats_of ctx [] w = []
  stats_of ctx (i ∷ is) w = stat_of ctx i w ∷ stats_of ctx is w

  abbrev given : Option ℕ → ℕ → ℕ
  given none default = default
  given (some t) default = t

  -- Without a start it is less than a day ago.
  unfoldable pub get_statistics : ℕ → Option ℕ → Option ℕ → Context → Exec (World m) (List Stat)
  unfolding days_of windows stat_of
  get_statistics now start_date end_date ctx = do
    start ← pure (given start_date (now - 86300000))
    fin ← pure (given end_date now)
    stop_if (leb (fin + day) start) einval "start date is larger than end date"
    gets (stats_of ctx (windows (days_of start fin) start fin))

-- How many windows hold a time, where the last one is not longer than a day.
inside :
    (n start fin t : ℕ)
    → start + n * day < fin
    → fin ≤ start + n * day + day
    → t < start
    → count_windows t (windows (suc n) start fin) ≡ 0
unfolding windows
inside zero start fin t h k e = ground arith
inside (suc n) start fin t h k e =
    ground (arith, inside n (start + day) fin t (omega arith) (omega arith) (omega arith))

covered :
    (n start fin t : ℕ)
    → start + n * day < fin
    → fin ≤ start + n * day + day
    → (1 ≤ count_windows t (windows (suc n) start fin)) ↔ ((start ≤ t) × (t ≤ fin))
unfolding windows
covered zero start fin t h k = ground arith
covered (suc n) start fin t h k =
    ground (arith, covered n (start + day) fin t (omega arith) (omega arith))

at_most_twice :
    (n start fin t : ℕ)
    → start + n * day < fin
    → fin ≤ start + n * day + day
    → (count_windows t (windows (suc n) start fin) ≤ 2)
      × (t < start + day → count_windows t (windows (suc n) start fin) ≤ 1)
unfolding windows
at_most_twice zero start fin t h k = (ground arith, λ e. ground arith)
at_most_twice (suc n) start fin t h k = elim (Bool-cases (leb (start + day) t)) [
  | inl later ↦
      let (two, one) = at_most_twice n (start + day) fin t (omega arith) (omega arith) in
      (grind (arith, two, one), λ e. ground arith)
  | inr sooner ↦
      let none_later = inside n (start + day) fin t (omega arith) (omega arith) (ground arith) in
      (ground (arith, none_later), λ e. ground (arith, none_later))
]

days_of_lem :
    (start fin : ℕ)
    → start < fin
    → (n : ℕ) × (days_of start fin ≡ suc n)
      × (start + n * day < fin)
      × (fin ≤ start + n * day + day)
unfolding days_of
days_of_lem start fin h = elim (Bool-cases ((fin - start) % day == 0)) [
  | inl whole ↦ ((fin - start) / day - 1, rw whole (ground arith), ground arith, ground arith)
  | inr broken ↦ ((fin - start) / day, rw broken refl, ground arith, ground arith)
]

-- For a span that ends after it starts, a time counts in an entry of the statistics exactly if it lies in
-- the span, and in at most two entries.
pub statistics_cover :
    (start fin t : ℕ)
    → start < fin
    → ((1 ≤ count_windows t (windows (days_of start fin) start fin)) ↔ ((start ≤ t) × (t ≤ fin)))
      × (count_windows t (windows (days_of start fin) start fin) ≤ 2)
statistics_cover start fin t h =
    let (n, days, below, above) = days_of_lem start fin h in
    rw days (covered n start fin t below above, (at_most_twice n start fin t below above).0)

-- Except at its end, a border of two days of a span counts in both.
border_in_two :
    (n start fin : ℕ)
    → start + day < fin
    → 2 ≤ count_windows (start + day) (windows (suc (suc n)) start fin)
unfolding windows
border_in_two zero start fin h = ground arith
border_in_two (suc n) start fin h = ground arith
