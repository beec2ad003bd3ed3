-- ===== src/Prelude/Lists.antt =====
-- Lists of references: Python's `in`, `remove` and `append`, and lengths over the native numbers.
use Prim.Native.Nat.{ℕ, suc, ◌+◌}
use mathlib.Core.Path.{◌≡◌, refl}
use mathlib.Core.Logic.{◌≢◌}
use mathlib.Core.Bool.{Bool, true, false, ◌||◌}
use mathlib.Core.Option.{Option, none, some}
use mathlib.Core.List.{List, [], ◌∷◌, ◌++◌}
use native.Mathlib.Omega.{arith}
use auto_test_system.Prelude.Tests.{◌==◌, if◌then◌else◌, present}

module _ {ℓ} {A : Type ℓ} where
  abbrev pub length : List A → ℕ
  length [] = 0
  length (x ∷ xs) = suc (length xs)

  abbrev pub is_empty : List A → Bool
  is_empty [] = true
  is_empty (x ∷ xs) = false

  pub length-append : (xs ys : List A) → length (xs ++ ys) ≡ length xs + length ys
  length-append [] ys = omega arith
  length-append (x ∷ xs) ys = omega (arith, length-append xs ys)

-- `x in xs`
abbrev pub contains : ℕ → List ℕ → Bool
contains a [] = false
contains a (x ∷ xs) = a == x || contains a xs

-- `xs.remove(x)`: the first occurrence goes; `none` is the `ValueError`.
abbrev pub remove? : ℕ → List ℕ → Option (List ℕ)
remove? a [] = none
remove? a (x ∷ xs) =
    if a == x then some xs else elim (remove? a xs) [ none ↦ none | some r ↦ some (x ∷ r) ]

-- How often a reference stands in a list.
abbrev pub count : ℕ → List ℕ → ℕ
count a [] = 0
count a (x ∷ xs) = if a == x then suc (count a xs) else count a xs

pub contains-append :
    (a : ℕ) (xs ys : List ℕ) → contains a (xs ++ ys) ≡ (contains a xs || contains a ys)
contains-append a [] ys = refl
contains-append a (x ∷ xs) ys = ground (arith, contains-append a xs ys)

pub count-append : (a : ℕ) (xs ys : List ℕ) → count a (xs ++ ys) ≡ count a xs + count a ys
count-append a [] ys = omega arith
count-append a (x ∷ xs) ys = ground (arith, count-append a xs ys)

-- `remove` raises exactly where `in` fails.
pub present-remove : (a : ℕ) (xs : List ℕ) → present (remove? a xs) ≡ contains a xs
present-remove a [] = refl
present-remove a (x ∷ xs) = ground (arith, present-remove a xs)

-- Another reference is kept.
pub contains-remove_ne :
    (a b : ℕ) (xs r : List ℕ) → remove? a xs ≡ some r → b ≢ a → contains b r ≡ contains b xs
contains-remove_ne a b [] r e h = ground arith
contains-remove_ne a b (x ∷ xs) [] e h = ground arith
contains-remove_ne a b (x ∷ xs) (y ∷ r) e h = ground (arith, contains-remove_ne a b xs r)

pub count-remove : (a : ℕ) (xs r : List ℕ) → remove? a xs ≡ some r → count a xs ≡ suc (count a r)
count-remove a [] r e = ground arith
count-remove a (x ∷ xs) [] e = ground arith
count-remove a (x ∷ xs) (y ∷ r) e = ground (arith, count-remove a xs r)

pub contains-count : (a : ℕ) (xs : List ℕ) → count a xs ≡ 0 → contains a xs ≡ false
contains-count a [] h = refl
contains-count a (x ∷ xs) h = ground (arith, contains-count a xs)

pub count-contains : (a : ℕ) (xs : List ℕ) → contains a xs ≡ false → count a xs ≡ 0
count-contains a [] h = refl
count-contains a (x ∷ xs) h = ground (arith, count-contains a xs)
