-- ===== src/Runner/Loop/Claim.antt =====
-- Who may run a task: the test and the increment of `kickedoff` in several loops at once.
use auto_test_system.Prelude.{
  ℕ, ◌+◌, ◌≤◌, ◌≡◌, ◌≢◌, Bool, true, false, Option, none, some, arith, ◌==◌, ◌||◌, if◌then◌else◌,
}
use auto_test_system.Exec.{ok}
use auto_test_system.Mongo.Defs.{Mongo, IsLawful}
use auto_test_system.Documents.{Task}
use auto_test_system.World.{World}
use auto_test_system.Queue.{set_task}
use auto_test_system.Runner.Loop.{claim, inc_kickedoff}

-- Where a loop stands with the task that it has popped.
pub data Phase : Type 0 where
  -- not yet tested; tested with `kickedoff` at 0; incremented; may run; has given up
  fresh tested incremented won lost : Phase

-- It has incremented.
abbrev pub past : Phase → Bool
past fresh = false
past tested = false
past _ = true

module _ (m : Mongo) (t : ℕ) where
  abbrev pub kickedoff_of : World m → Option ℕ
  kickedoff_of w = elim (m.get w.tasks t) [ none ↦ none | some d ↦ some d.kickedoff ]

  pub record Race : Type 0 where
    pub world : World m
    pub phase : ℕ → Phase

  abbrev pub at : (ℕ → Phase) → ℕ → Phase → ℕ → Phase
  at f c p d = if c == d then p else f d

  -- The awaits of `claim` in any interleaving, for a task that is not parallel.
  pub data Step : Race → Race → Type 0 where
    test :
        (s : Race) (c : ℕ)
        → s.phase c ≡ fresh
        → kickedoff_of s.world ≡ some 0
        → Step s (record s { phase = at s.phase c tested })
    increment :
        (s : Race) (c k : ℕ)
        → s.phase c ≡ tested
        → kickedoff_of s.world ≡ some k
        → Step s (record {
          world = set_task m t (inc_kickedoff m) s.world;
          phase = at s.phase c incremented;
        })
    win :
        (s : Race) (c : ℕ)
        → s.phase c ≡ incremented
        → kickedoff_of s.world ≡ some 1
        → Step s (record s { phase = at s.phase c won })
    give_up :
        (s : Race) (c k : ℕ)
        → s.phase c ≡ incremented
        → kickedoff_of s.world ≡ some k
        → k ≢ 1
        → Step s (record s { phase = at s.phase c lost })

  pub data Reach (s : Race) : Race → Type 0 where
    here : Reach s s
    next : {u v : Race} → Reach s u → Step u v → Reach s v

  pub record IsFair (s : Race) : Type 0 where
    pub number : ℕ
    pub stored : kickedoff_of s.world ≡ some number
    pub counted : (c : ℕ) → past (s.phase c) ≡ true → 1 ≤ number
    pub counted_twice :
        (c d : ℕ) → past (s.phase c) ≡ true → past (s.phase d) ≡ true → c ≢ d → 2 ≤ number
    pub one_winner : (c d : ℕ) → s.phase c ≡ won → s.phase d ≡ won → c ≡ d

  module _ (L : IsLawful m) where
    kickedoff-inc :
        (w : World m) (k : ℕ)
        → kickedoff_of w ≡ some k
        → kickedoff_of (set_task m t (inc_kickedoff m) w) ≡ some (k + 1)
    kickedoff-inc w k e = ground (arith, L.get-update Task w.tasks t t (inc_kickedoff m))

    Step-IsFair : {u v : Race} → Step u v → IsFair u → IsFair v
    Step-IsFair (test s c is_fresh at_zero) h = record {
      number = h.number;
      stored = h.stored;
      counted = λ d. ground (arith, h.counted d);
      counted_twice = λ d e. ground (arith, h.counted_twice d e);
      one_winner = λ d e. ground (arith, h.one_winner d e);
    }
    Step-IsFair (increment s c k is_tested at_k) h = record {
      number = h.number + 1;
      stored = kickedoff-inc s.world h.number h.stored;
      counted = λ d p. omega arith;
      counted_twice = λ d e. ground (arith, h.counted d, h.counted e);
      one_winner = λ d e. ground (arith, h.one_winner d e);
    }
    Step-IsFair (win s c inc at_one) h = record {
      number = h.number;
      stored = h.stored;
      counted = λ d. ground (arith, h.counted d, h.counted c);
      counted_twice = λ d e. ground (arith, h.counted_twice d e);
      one_winner = λ d e.
          ground (arith, h.stored, h.counted_twice d c, h.counted_twice c e, h.one_winner d e);
    }
    Step-IsFair (give_up s c k inc at_k more) h = record {
      number = h.number;
      stored = h.stored;
      counted = λ d. ground (arith, h.counted d, h.counted c);
      counted_twice = λ d e. ground (arith, h.counted_twice d e);
      one_winner = λ d e. ground (arith, h.one_winner d e);
    }

    -- However the loops of several endpoints interleave, at most one of them runs a task that is not
    -- parallel.
    pub Reach-IsFair : {u v : Race} → IsFair u → Reach u v → IsFair v
    Reach-IsFair h here = h
    Reach-IsFair h (next r st) = Step-IsFair st (Reach-IsFair h r)

    -- But two loops that both test before either increments both give up: each reads 2, and the task,
    -- which both queues have let go, is run by nobody.
    pub both_give_up :
        (s : Race) (c d : ℕ)
        → c ≢ d
        → s.phase c ≡ fresh
        → s.phase d ≡ fresh
        → kickedoff_of s.world ≡ some 0
        → (v : Race) × Reach s v
          × (v.phase c ≡ lost)
          × (v.phase d ≡ lost)
          × (kickedoff_of v.world ≡ some 2)
    both_give_up s c d other c_fresh d_fresh at_zero =
        let w1 : World m = set_task m t (inc_kickedoff m) s.world in
        let w2 : World m = set_task m t (inc_kickedoff m) w1 in
        let one : kickedoff_of w1 ≡ some 1 = kickedoff-inc s.world 0 at_zero in
        let two : kickedoff_of w2 ≡ some 2 = kickedoff-inc w1 1 one in
        let f1 : ℕ → Phase = at s.phase c tested in
        let f2 : ℕ → Phase = at f1 d tested in
        let f3 : ℕ → Phase = at f2 c incremented in
        let f4 : ℕ → Phase = at f3 d incremented in
        let f5 : ℕ → Phase = at f4 c lost in
        let s2 : Race = record { world = s.world; phase = f2 } in
        let s4 : Race = record { world = w2; phase = f4 } in
        let first_half : Reach s s2 =
          next (next here (test s c c_fresh at_zero))
            (test (record { world = s.world; phase = f1 }) d (ground arith) at_zero) in
        let second_half : Reach s s4 =
          next (next first_half (increment s2 c 0 (ground arith) at_zero))
            (increment (record { world = w1; phase = f3 }) d 1 (ground arith) one) in
        (
          record { world = w2; phase = at f5 d lost },
          next (next second_half (give_up s4 c 2 (ground arith) two (omega arith)))
              (give_up (record { world = w2; phase = f5 }) d 2 (ground arith) two (omega arith)),
          ground arith,
          ground arith,
          two,
        )

module _ (m : Mongo) (L : IsLawful m) (others : ℕ → World m → World m) where
  -- With nobody in between, a loop may run a task exactly when it is parallel or has not been taken
  -- before; then the task counts as taken once more, and otherwise nothing changes.
  pub claim_lem :
      (t : ℕ) (w : World m) {d : Task}
      → others 0 w ≡ w
      → m.get w.tasks t ≡ some d
      → claim m others t w ≡ (
          if d.parallelization || d.kickedoff == 0
          then (ok true, set_task m t (inc_kickedoff m) w)
          else (ok false, w))
  unfolding claim
  claim_lem t w {d} alone e = ground (arith, L.get-update Task w.tasks t t (inc_kickedoff m))
