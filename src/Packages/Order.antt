-- ===== src/Packages/Order.antt =====
-- The order of the files of a package after `sort`.
use auto_test_system.Prelude.{
  ℕ, suc, ◌≡◌, refl, Bool, true, false, List, [], ◌∷◌, String, arith, Bool-cases, inl, inr,
  if◌then◌else◌,
}
use auto_test_system.Packages.{Versions, insert, sort_files}

-- What the code relies on in the comparison of versions.
pub record IsOrder (V : Versions) : Type 0 where
  pub total : (a b : String) → V.at_most a b ≡ false → V.at_most b a ≡ true
  pub trans : (a b c : String) → V.at_most a b ≡ true → V.at_most b c ≡ true → V.at_most a c ≡ true

pub at_most_self : (V : Versions) → IsOrder V → (a : String) → V.at_most a a ≡ true
at_most_self V O a = elim (Bool-cases (V.at_most a a)) [
  | inl holds ↦ holds
  | inr nay ↦ O.total a a nay
]

abbrev pub All : {F : Type 0} → (F → Type 0) → List F → Type 0
All P [] = Unit
All P (f ∷ fs) = P f × All P fs

abbrev pub count_if : {F : Type 0} → (F → Bool) → List F → ℕ
count_if q [] = 0
count_if q (f ∷ fs) = if q f then suc (count_if q fs) else count_if q fs

module _ (V : Versions) {F : Type 0} (version_of : F → String) where
  -- No later file is newer.
  abbrev pub IsDescending : List F → Type 0
  IsDescending [] = Unit
  IsDescending (f ∷ fs) =
      All (λ g. V.at_most (version_of g) (version_of f) ≡ true) fs × IsDescending fs

  module _ (P : F → Type 0) where
    pub All-insert : (f : F) (fs : List F) → P f → All P fs → All P (insert V version_of f fs)
    All-insert f [] h k = (h, tt)
    All-insert f (g ∷ gs) h (k, ks) = elim (Bool-cases (V.at_most (version_of g) (version_of f))) [
      | inl first ↦ rw first (h, (k, ks))
      | inr later ↦ rw later (k, All-insert f gs h ks)
    ]

    All-insert_back : (f : F) (fs : List F) → All P (insert V version_of f fs) → P f × All P fs
    All-insert_back f [] h = h
    All-insert_back f (g ∷ gs) h = elim (Bool-cases (V.at_most (version_of g) (version_of f))) [
      | inl first ↦ rw first at h
      | inr later ↦
          let k = rw later at h in let (p, ps) = All-insert_back f gs k.1 in (p, (k.0, ps))
    ]

    pub All-sort : (fs : List F) → All P fs → All P (sort_files V version_of fs)
    unfolding sort_files
    All-sort [] h = tt
    All-sort (f ∷ fs) (h, hs) = All-insert f (sort_files V version_of fs) h (All-sort fs hs)

    pub All-sort_back : (fs : List F) → All P (sort_files V version_of fs) → All P fs
    unfolding sort_files
    All-sort_back [] h = tt
    All-sort_back (f ∷ fs) h =
        let (p, ps) = All-insert_back f (sort_files V version_of fs) h in (p, All-sort_back fs ps)

  count-insert :
      (q : F → Bool) (f : F) (fs : List F)
      → count_if q (insert V version_of f fs) ≡ count_if q (f ∷ fs)
  count-insert q f [] = refl
  count-insert q f (g ∷ gs) = ground (arith, count-insert q f gs)

  count-sort :
      (q : F → Bool) (fs : List F) → count_if q (sort_files V version_of fs) ≡ count_if q fs
  unfolding sort_files
  count-sort q [] = refl
  count-sort q (f ∷ fs) =
      ground (arith, count-insert q f (sort_files V version_of fs), count-sort q fs)

  All-below :
      IsOrder V
      → (f g : F) (fs : List F) → V.at_most (version_of f) (version_of g) ≡ true
      → All (λ h. V.at_most (version_of h) (version_of f) ≡ true) fs
      → All (λ h. V.at_most (version_of h) (version_of g) ≡ true) fs
  All-below O f g [] h k = tt
  All-below O f g (x ∷ xs) h (k, ks) = (O.trans _ _ _ k h, All-below O f g xs h ks)

  insert-IsDescending :
      IsOrder V → (f : F) (fs : List F) → IsDescending fs → IsDescending (insert V version_of f fs)
  insert-IsDescending O f [] h = (tt, tt)
  insert-IsDescending O f (g ∷ gs) (below, rest) =
      elim (Bool-cases (V.at_most (version_of g) (version_of f))) [
        | inl first ↦ rw first ((first, All-below O g f gs first below), (below, rest))
        | inr later ↦ rw later (
          All-insert (λ h. V.at_most (version_of h) (version_of g) ≡ true) f gs (O.total _ _ later)
              below,
          insert-IsDescending O f gs rest,
        )
      ]

  descending : IsOrder V → (fs : List F) → IsDescending (sort_files V version_of fs)
  unfolding sort_files
  descending O [] = tt
  descending O (f ∷ fs) = insert-IsDescending O f (sort_files V version_of fs) (descending O fs)

  -- `sort` leaves the files in descending order of their versions, and the same files, each as often as
  -- before.
  pub sort_files-IsDescending :
      IsOrder V
      → (fs : List F)
      → IsDescending (sort_files V version_of fs)
        × ((q : F → Bool) → count_if q (sort_files V version_of fs) ≡ count_if q fs)
  sort_files-IsDescending O fs = (descending O fs, λ q. count-sort q fs)
