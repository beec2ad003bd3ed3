-- ===== src/Mongo/Find.antt =====
-- What a query returns, in terms of the stored documents.
use auto_test_system.Prelude.{
  ℕ, ◌≡◌, refl, Bool, true, false, ◌&&◌, Option, none, some, List, [], ◌∷◌, arith, sym, ◌∙◌, subst,
  contains, present, Bool-cases, Option-cases, inl, inr,
}
use auto_test_system.Mongo.Defs.{Mongo, IsLawful, match_in, find, find_one, first_of_list}

module _ {D : Type 0} where
  abbrev pub matches : (D → Bool) → Option D → Bool
  matches q none = false
  matches q (some d) = q d

  abbrev pub keys : List (ℕ × D) → List ℕ
  keys [] = []
  keys ((k, d) ∷ l) = k ∷ keys l

module _ (m : Mongo) {D : Type 0} (q : D → Bool) (c : m.Collection D) where
  contains-match_in :
      (k : ℕ) (ks : List ℕ)
      → contains k (keys (match_in m q c ks)) ≡ (contains k ks && matches q (m.get c k))
  unfolding match_in
  contains-match_in k [] = refl
  contains-match_in k (j ∷ ks) = elim (Option-cases (m.get c j)) [
    | inl e ↦ ground (arith, contains-match_in k ks)
    | inr (d, e) ↦ ground (arith, contains-match_in k ks)
  ]

  -- The keys of `find(query)` are those of the stored documents that match.
  pub contains-find : IsLawful m → (k : ℕ) → contains k (keys (find m q c)) ≡ matches q (m.get c k)
  unfolding find
  contains-find L k = ground (arith, contains-match_in k (m.scan c), L.scan-get D c k)

  abbrev pub Sound : Option (ℕ × D) → Type 0
  Sound none = Unit
  Sound (some (k, d)) = (m.get c k ≡ some d) × (q d ≡ true)

  match_in-Sound : (ks : List ℕ) → Sound (first_of_list m (match_in m q c ks))
  unfolding match_in
  match_in-Sound [] = tt
  match_in-Sound (k ∷ ks) = elim (Option-cases (m.get c k)) [
    | inl e ↦ rw (e, match_in) (match_in-Sound ks)
    | inr (d, e) ↦ elim (Bool-cases (q d)) [
      | inl fits ↦ rw (e, match_in) (rw fits (e, fits))
      | inr other ↦ rw (e, match_in) (rw other (match_in-Sound ks))
    ]
  ]

  -- `find_one(query)` returns a stored document that matches.
  pub find_one-Sound :
      (k : ℕ) (d : D) → find_one m q c ≡ some (k, d) → (m.get c k ≡ some d) × (q d ≡ true)
  unfolding find_one
  find_one-Sound k d e = subst Sound e (match_in-Sound (m.scan c))

  none_found : (l : List (ℕ × D)) → first_of_list m l ≡ none → (k : ℕ) → contains k (keys l) ≡ false
  none_found [] e k = refl
  none_found (x ∷ xs) e k = cc

  -- Where it returns `None`, no stored document matches.
  pub find_one-none : IsLawful m → find_one m q c ≡ none → (k : ℕ) → matches q (m.get c k) ≡ false
  unfolding find_one
  find_one-none L e k = sym (contains-find L k) ∙ none_found (find m q c) e k

  first_ne_none :
      (l : List (ℕ × D)) (k : ℕ) → contains k (keys l) ≡ true → present (first_of_list m l) ≡ true
  first_ne_none [] k e = cc
  first_ne_none (x ∷ xs) k e = refl

  -- Where a stored document matches, it returns one.
  pub find_one-present :
      IsLawful m → (k : ℕ) → matches q (m.get c k) ≡ true → present (find_one m q c) ≡ true
  unfolding find_one
  find_one-present L k e = first_ne_none (find m q c) k (contains-find L k ∙ e)
