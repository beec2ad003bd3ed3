-- ===== src/Mongo/Defs.antt =====
-- The document database, which the program reaches through umongo and Motor: a parameter of the
-- model. A collection maps the `_id` of a document to its fields. The laws are the documented
-- behaviour of MongoDB's single-document operations; `scan` is the order in which a query yields
-- documents, of which nothing is assumed but that it lists the stored ones.
use auto_test_system.Prelude.{
  ℕ, Bool, Option, none, some, List, [], ◌∷◌, ◌≡◌, ◌==◌, if◌then◌else◌, String, present, contains,
}

pub record Mongo : Type 1 where
  pub Collection : Type 0 → Type 0
  -- `find_one({'_id': pk})`, `fetch`, `reload`
  pub get : {D : Type 0} → Collection D → ℕ → Option D
  -- `update_one({'_id': pk}, {'$set': ...})`: no effect where no document matches
  pub update : {D : Type 0} → Collection D → ℕ → (D → D) → Collection D
  -- `insert_one` of a document with that new `_id`
  pub insert : {D : Type 0} → Collection D → ℕ → D → Collection D
  -- `delete_one({'_id': pk})`
  pub delete : {D : Type 0} → Collection D → ℕ → Collection D
  -- the keys of all documents, in the order of a query's cursor
  pub scan : {D : Type 0} → Collection D → List ℕ
  -- the `_id` that the driver makes for the next document
  pub new_id : {D : Type 0} → Collection D → ℕ
  -- `bson.ObjectId(text)`; `none` is `InvalidId`
  pub object_id : String → Option ℕ
  -- whether a reference that was not fetched has the fields and methods of its document
  pub forwards : Bool

abbrev pub map_at {ℓ} : {D : Type ℓ} → (D → D) → Option D → Option D
map_at f none = none
map_at f (some d) = some (f d)

pub record IsLawful (m : Mongo) : Type 1 where
  pub get-update :
      (D : Type 0) (c : m.Collection D) (k j : ℕ) (f : D → D)
      → m.get (m.update c k f) j ≡ (if k == j then map_at f (m.get c j) else m.get c j)
  pub get-insert :
      (D : Type 0) (c : m.Collection D) (k j : ℕ) (d : D)
      → m.get (m.insert c k d) j ≡ (if k == j then some d else m.get c j)
  pub get-delete :
      (D : Type 0) (c : m.Collection D) (k j : ℕ)
      → m.get (m.delete c k) j ≡ (if k == j then none else m.get c j)
  pub scan-get :
      (D : Type 0) (c : m.Collection D) (k : ℕ) → contains k (m.scan c) ≡ present (m.get c k)
  pub get-new_id : (D : Type 0) (c : m.Collection D) → m.get c (m.new_id c) ≡ none

-- `find_one(query)` and `find(query)`: the stored documents that match, first or all.
module _ (m : Mongo) {D : Type 0} where
  unfoldable pub match_in : (D → Bool) → m.Collection D → List ℕ → List (ℕ × D)
  match_in q c [] = []
  match_in q c (k ∷ ks) =
      let rest = match_in q c ks in
      elim (m.get c k) [ none ↦ rest | some d ↦ if q d then (k, d) ∷ rest else rest ]

  unfoldable pub find : (D → Bool) → m.Collection D → List (ℕ × D)
  unfolding match_in
  find q c = match_in q c (m.scan c)

  abbrev pub first_of_list : List (ℕ × D) → Option (ℕ × D)
  first_of_list [] = none
  first_of_list (x ∷ xs) = some x

  unfoldable pub find_one : (D → Bool) → m.Collection D → Option (ℕ × D)
  unfolding find
  find_one q c = first_of_list (find q c)
