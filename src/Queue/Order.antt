-- ===== src/Queue/Order.antt =====
-- First in, first out: a batch pushed through one copy comes back in its order.
use auto_test_system.Prelude.{
  ℕ, zero, suc, ◌≡◌, refl, false, Option, some, List, [], ◌∷◌, ◌++◌, length, ◌∙◌, arith, sym, subst,
  true, contains, contains-append, present, Bool-cases, inl, inr,
}
use mathlib.Core.List.{append_assoc, append-nil}
use auto_test_system.Exec.{ok, Result}
use auto_test_system.Mongo.Defs.{Mongo, IsLawful}
use auto_test_system.Documents.{TaskQueue}
use auto_test_system.World.{World}
use auto_test_system.Queue.{Handle, pop, push}
use auto_test_system.Queue.Fifo.{pop_lem, push_lem}

module _ (m : Mongo) where
  abbrev pub Known : World m → List ℕ → Type 0
  Known w ts = (t : ℕ) → contains t ts ≡ true → present (m.get w.tasks t) ≡ true

  Known-same : (w w' : World m) (ts : List ℕ) → w'.tasks ≡ w.tasks → Known w ts → Known w' ts
  Known-same w w' ts same k t e = subst (λ c. present (m.get c t) ≡ true) (sym same) (k t e)

  Known-upto :
      (t : ℕ) (ts : List ℕ) (self : Handle TaskQueue) (w : World m)
      → Known w (self.doc.tasks ++ (t ∷ ts))
      → Known w (self.doc.tasks ++ (t ∷ []))
  Known-upto t ts self w k t' e = k t' (
      ground (
        arith,
        e,
        contains-append t' self.doc.tasks (t ∷ ts),
        contains-append t' self.doc.tasks (t ∷ []),
      ))

  -- The queue stores the tasks `ts`, and its lock is free.
  pub record Holds (pk : ℕ) (w : World m) (ts : List ℕ) : Type 0 where
    pub doc : TaskQueue
    pub stored : m.get w.task_queues pk ≡ some doc
    pub free : doc.rw_lock ≡ false
    pub tasks : doc.tasks ≡ ts
    -- every task of the queue is stored
    pub known : (t : ℕ) → contains t ts ≡ true → present (m.get w.tasks t) ≡ true

  module _ (others : ℕ → World m → World m) where
    -- `for task in tasks: await queue.push(task)`
    unfoldable pub push_all : List ℕ → Handle TaskQueue → World m → World m
    push_all [] self w = w
    push_all (t ∷ ts) self w =
        push_all ts (record self { doc = record self.doc { tasks = self.doc.tasks ++ (t ∷ []) } })
          (push m others t self w).1

    -- The results of `n` pops in a row.
    unfoldable pub drain : ℕ → ℕ → World m → List (Result (Option ℕ))
    drain pk zero w = []
    drain pk (suc n) w = let (r, w') = pop m others pk w in r ∷ drain pk n w'

    abbrev pub returned : List ℕ → List (Result (Option ℕ))
    returned [] = []
    returned (t ∷ ts) = ok (some t) ∷ returned ts

    module _ (L : IsLawful m) where
      push-Holds :
          (t : ℕ) (self : Handle TaskQueue) (w : World m) {ts : List ℕ}
          → Holds self.pk w ts
          → Known w (self.doc.tasks ++ (t ∷ []))
          → Holds self.pk (push m others t self w).1 (self.doc.tasks ++ (t ∷ []))
      push-Holds t self w h k = record {
        doc = record h.doc { tasks = self.doc.tasks ++ (t ∷ []); rw_lock = false };
        stored = (push_lem m L others t self w h.stored h.free).1;
        free = refl;
        tasks = refl;
        known =
            Known-same w (push m others t self w).1 _
              (push_lem m L others t self w h.stored h.free).3 k;
      }

      pop-Holds :
          (pk t : ℕ) (ts : List ℕ) (w : World m)
          → Holds pk w (t ∷ ts)
          → ((pop m others pk w).0 ≡ ok (some t)) × Holds pk (pop m others pk w).1 ts
      pop-Holds pk t ts w h =
          let (r, s, _, same) =
            pop_lem m L others pk w h.stored h.free
              (λ t' e. h.known t' (ground (arith, e, h.tasks))) in
          (
            rw (r, h.tasks) refl,
            record {
              doc = record h.doc { tasks = ts; running_task = some t; rw_lock = false };
              stored = s ∙ rw h.tasks refl;
              free = refl;
              tasks = refl;
              known =
                  Known-same w (pop m others pk w).1 ts same
                    (λ t' e. h.known t' (ground (arith, e)));
            },
          )

      push_all-Holds :
          (ts : List ℕ) (self : Handle TaskQueue) (w : World m)
          → Holds self.pk w self.doc.tasks
          → Known w (self.doc.tasks ++ ts)
          → Holds self.pk (push_all ts self w) (self.doc.tasks ++ ts)
      unfolding push_all
      push_all-Holds [] self w h k = rw append-nil h
      push_all-Holds (t ∷ ts) self w h k = rw append_assoc at (
          push_all-Holds ts
            (record self { doc = record self.doc { tasks = self.doc.tasks ++ (t ∷ []) } })
            (push m others t self w).1 (push-Holds t self w h (Known-upto t ts self w k))
            (rw append_assoc (
              Known-same w (push m others t self w).1 _
                (push_lem m L others t self w h.stored h.free).3 k)))

      drain-Holds :
          (pk : ℕ) (ts : List ℕ) (w : World m)
          → Holds pk w ts
          → drain pk (length ts) w ≡ returned ts
      unfolding drain
      drain-Holds pk [] w h = refl
      drain-Holds pk (t ∷ ts) w h =
          let (r, h') = pop-Holds pk t ts w h in cc (r, drain-Holds pk ts (pop m others pk w).1 h')

      -- Stored tasks that are pushed one after another onto a free queue whose copy is fresh are popped
      -- in the same order, behind those that it held, and none is lost.
      pub drain-push_all :
          (ts : List ℕ) (self : Handle TaskQueue) (w : World m)
          → Holds self.pk w self.doc.tasks
          → ((t : ℕ) → contains t ts ≡ true → present (m.get w.tasks t) ≡ true)
          → drain self.pk (length (self.doc.tasks ++ ts)) (push_all ts self w)
            ≡ returned (self.doc.tasks ++ ts)
      drain-push_all ts self w h new = drain-Holds self.pk _ _ (
          push_all-Holds ts self w h λ t e. elim (Bool-cases (contains t self.doc.tasks)) [
            | inl old ↦ h.known t old
            | inr fresh ↦ new t (ground (arith, e, fresh, contains-append t self.doc.tasks ts))
          ])
