-- ===== src/Mongo/Assoc.antt =====
-- Collections as association lists: a concrete database, at which the models run.
use auto_test_system.Prelude.{
  ℕ, suc, ◌+◌, ◌≤◌, Bool, true, Option, none, some, List, [], ◌∷◌, ◌≡◌, refl, ◌==◌, if◌then◌else◌,
  String, present, contains, arith, str_eq,
}
use auto_test_system.Mongo.Defs.{Mongo, IsLawful, map_at}

module _ {D : Type 0} where
  abbrev pub lookup : List (ℕ × D) → ℕ → Option D
  lookup [] k = none
  lookup ((j, d) ∷ c) k = if j == k then some d else lookup c k

  abbrev pub change : List (ℕ × D) → ℕ → (D → D) → List (ℕ × D)
  change [] k f = []
  change ((j, d) ∷ c) k f = (j, if j == k then f d else d) ∷ change c k f

  abbrev pub erase : List (ℕ × D) → ℕ → List (ℕ × D)
  erase [] k = []
  erase ((j, d) ∷ c) k = let rest = erase c k in if j == k then rest else (j, d) ∷ rest

  abbrev pub keys : List (ℕ × D) → List ℕ
  keys [] = []
  keys ((j, d) ∷ c) = j ∷ keys c

  -- A key above all the others.
  abbrev pub above : List (ℕ × D) → ℕ
  above [] = 1
  above ((j, d) ∷ c) = suc (j + above c)

  lookup-change :
      (c : List (ℕ × D)) (k j : ℕ) (f : D → D)
      → lookup (change c k f) j ≡ (if k == j then map_at f (lookup c j) else lookup c j)
  lookup-change [] k j f = ground arith
  lookup-change ((i, d) ∷ c) k j f = ground (arith, lookup-change c k j f)

  lookup-erase :
      (c : List (ℕ × D)) (k j : ℕ) → lookup (erase c k) j ≡ (if k == j then none else lookup c j)
  lookup-erase [] k j = ground arith
  lookup-erase ((i, d) ∷ c) k j = ground (arith, lookup-erase c k j)

  contains-keys : (c : List (ℕ × D)) (k : ℕ) → contains k (keys c) ≡ present (lookup c k)
  contains-keys [] k = refl
  contains-keys ((i, d) ∷ c) k = ground (arith, contains-keys c k)

  lookup-above : (c : List (ℕ × D)) (k : ℕ) → above c ≤ k → lookup c k ≡ none
  lookup-above [] k h = refl
  lookup-above ((i, d) ∷ c) k h = ground (arith, lookup-above c k)

-- The ids in the tests' requests.
abbrev pub small_id : String → Option ℕ
small_id s =
    if str_eq s "1"
    then some 1
    else if str_eq s "2"
    then some 2
    else if str_eq s "3"
    then some 3
    else if str_eq s "4"
    then some 4
    else none

-- The flag says whether unfetched references have the fields of their documents.
abbrev pub assoc_with : Bool → Mongo
assoc_with b = record {
  Collection = λ D. List (ℕ × D);
  get = λ c k. lookup c k;
  update = λ c k f. change c k f;
  insert = λ c k d. (k, d) ∷ c;
  delete = λ c k. erase c k;
  scan = λ c. keys c;
  new_id = λ c. above c;
  object_id = small_id;
  forwards = b;
}

pub assoc_with-IsLawful : (b : Bool) → IsLawful (assoc_with b)
assoc_with-IsLawful b = record {
  get-update = λ D c k j f. lookup-change c k j f;
  get-insert = λ D c k j d. refl;
  get-delete = λ D c k j. lookup-erase c k j;
  scan-get = λ D c k. contains-keys c k;
  get-new_id = λ D c. lookup-above c (above c) (omega arith);
}

abbrev pub assoc : Mongo
assoc = assoc_with true
