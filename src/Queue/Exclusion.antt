-- ===== src/Queue/Exclusion.antt =====
-- Clients that run `pop`, `push` and `flush` at the same time, cut at their awaits: who is between
-- taking and releasing the lock. The reset of the locks is a step of its own.
use auto_test_system.Prelude.{
  ℕ, ◌≡◌, Bool, true, false, Option, none, some, arith, ◌==◌, if◌then◌else◌, Option-cases, inl, inr,
  ◌∙◌,
}
use auto_test_system.Mongo.Defs.{Mongo, IsLawful}
use auto_test_system.Documents.{TaskQueue}
use auto_test_system.World.{World}
use auto_test_system.Queue.{try_lock, release_lock}

module _ (m : Mongo) (pk : ℕ) where
  -- The `rw_lock` field of the stored queue.
  abbrev pub lock_of : World m → Option Bool
  lock_of w = elim (m.get w.task_queues pk) [ none ↦ none | some q ↦ some q.rw_lock ]

  pub record System : Type 0 where
    pub world : World m
    -- whether a client stands between `acquire_lock` and `release_lock`
    pub inside : ℕ → Bool

  abbrev pub enter_at : (ℕ → Bool) → ℕ → Bool → ℕ → Bool
  enter_at f c b d = if c == d then b else f d

  pub data Step : System → System → Type 0 where
    -- a try of `acquire_lock` that succeeds
    enter :
        (s : System) (c : ℕ) (w : World m)
        → s.inside c ≡ false
        → try_lock m pk s.world ≡ some w
        → Step s (record { world = w; inside = enter_at s.inside c true })
    -- `release_lock`
    leave :
        (s : System) (c : ℕ)
        → s.inside c ≡ true
        → Step s
            (record { world = (release_lock m pk s.world).1; inside = enter_at s.inside c false })
    -- any other write, which leaves the lock field alone
    write :
        (s : System) (w : World m) → lock_of w ≡ lock_of s.world → Step s (record s { world = w })

  pub data Reach (s : System) : System → Type 0 where
    here : Reach s s
    next : {t u : System} → Reach s t → Step t u → Reach s u

  -- Whoever is inside holds the lock, and nobody else is inside.
  pub record IsExclusive (s : System) : Type 0 where
    pub locked : (c : ℕ) → s.inside c ≡ true → lock_of s.world ≡ some true
    pub alone : (c d : ℕ) → s.inside c ≡ true → s.inside d ≡ true → c ≡ d

  module _ (L : IsLawful m) where
    try_lock-free :
        (w w' : World m)
        → try_lock m pk w ≡ some w'
        → (lock_of w ≡ some false) × (lock_of w' ≡ some true)
    unfolding try_lock
    try_lock-free w w' e = elim (Option-cases (m.get w.task_queues pk)) [
      | inl gone ↦ ground arith
      | inr (d, stored) ↦ (
        ground arith,
        ground
            (arith, L.get-update TaskQueue w.task_queues pk pk (λ d. record d { rw_lock = true })),
      )
    ]

    Step-IsExclusive : {s t : System} → Step s t → IsExclusive s → IsExclusive t
    Step-IsExclusive (enter s c w out found) h =
        let (was, now) = try_lock-free s.world w found in
        record {
          locked = λ d e. now;
          alone = λ d e p q. ground (arith, was, h.locked d, h.locked e);
        }
    Step-IsExclusive (leave s c inside_c) h = record {
      locked = λ d e. ground (arith, h.alone c d);
      alone = λ d e p q. ground (arith, h.alone d e);
    }
    Step-IsExclusive (write s w same) h = record {
      locked = λ d e. same ∙ h.locked d e;
      alone = h.alone;
    }

    -- As long as nobody resets the locks, any interleaving of the clients' steps keeps it so that at
    -- most one client stands between taking and releasing the lock, and that the lock is then set.
    pub Reach-IsExclusive : {s t : System} → IsExclusive s → Reach s t → IsExclusive t
    Reach-IsExclusive h here = h
    Reach-IsExclusive h (next r st) = Step-IsExclusive st (Reach-IsExclusive h r)
