-- ===== src/Paths/Secure.antt =====
-- Where a file is opened that `is_path_secure` lets through.

use Prim.Native.String.{String}
use auto_test_system.Prelude.{
  ◌≡◌, ◌≢◌, refl, Bool, true, false, not, ◌&&◌, List, [], ◌∷◌, ◌++◌, ◌==◌, str_eq, if◌then◌else◌,
  arith, ==_iff, sym, ◌∙◌, is_empty, Bool-cases, inl, inr,
}
use mathlib.Core.List.{append_assoc, append-nil}
use auto_test_system.Paths.{
  Directory, or_blank, leading, root, parts, posix_parts, has_pardir, is_path_secure, walk, opened,
}

and-false : (b : Bool) → (b && false) ≡ false
and-false true = refl
and-false false = refl

and-true : (b : Bool) → (b && true) ≡ b
and-true true = refl
and-true false = refl

walk-down : (at : Directory) (ps : List String) → has_pardir ps ≡ false → walk at ps ≡ at ++ ps
unfolding walk has_pardir
walk-down at [] h = sym (append-nil at)
walk-down at (p ∷ ps) h = elim (Bool-cases (str_eq p "..")) [
  | inl up ↦ ground (arith, up)
  | inr down ↦
      rw down (walk-down (at ++ (p ∷ [])) ps (ground (arith, down)) ∙ append_assoc at (p ∷ []) ps)
]

root-relative : (s : String) → leading s ≡ 0 → root s ≡ ""
unfolding root
root-relative s h = rw h refl

root-two : (s : String) → leading s ≡ 2 → root s ≡ "//"
unfolding root
root-two s h = rw h refl

root-one : (s : String) → (leading s == 0) ≡ false → (leading s == 2) ≡ false → root s ≡ "/"
unfolding root
root-one s h k = rw (h, k) refl

one-insecure : (s : String) → root s ≡ "/" → is_path_secure s ≡ false
unfolding is_path_secure
one-insecure s h = rw h (and-false (not (has_pardir (or_blank (parts s)))))

has_pardir-or_blank : (ps : List String) → has_pardir (or_blank ps) ≡ has_pardir ps
unfolding has_pardir
has_pardir-or_blank [] = refl
has_pardir-or_blank (p ∷ ps) = refl

has_pardir-relative :
    (ps : List String) → has_pardir (if is_empty ps then "." ∷ [] else ps) ≡ has_pardir ps
unfolding has_pardir
has_pardir-relative [] = refl
has_pardir-relative (p ∷ ps) = refl

relative-secure : (s : String) → root s ≡ "" → is_path_secure s ≡ not (has_pardir (parts s))
unfolding is_path_secure posix_parts
relative-secure s h = rw (h, has_pardir-relative) (and-true (not (has_pardir (parts s))))

two-secure : (s : String) → root s ≡ "//" → is_path_secure s ≡ not (has_pardir (parts s))
unfolding is_path_secure posix_parts has_pardir
two-secure s h = rw (h, has_pardir-or_blank) (and-true (not (has_pardir (parts s))))

-- A secure path that does not begin with exactly two slashes is opened below the base directory.
opened-below :
    (base : Directory) (s : String)
    → is_path_secure s ≡ true
    → leading s ≢ 2
    → opened base s ≡ base ++ parts s
unfolding opened
opened-below base s h k = elim (Bool-cases (leading s == 0)) [
  | inl none_leads ↦
      let r = root-relative s (grind (arith, ==_iff)) in
      rw r (walk-down base (parts s) (ground (arith, relative-secure s r)))
  | inr some_lead ↦ ground (arith, one-insecure s (root-one s some_lead (grind (arith, ==_iff))))
]

-- A path that begins with exactly two slashes and has no ".." is let through, and opened outside the
-- base directory, from the root of the file system.
two_slashes :
    (base : Directory) (s : String)
    → leading s ≡ 2
    → has_pardir (parts s) ≡ false
    → (is_path_secure s ≡ true) × (opened base s ≡ parts s)
unfolding opened
two_slashes base s h k =
    let r = root-two s h in (ground (arith, two-secure s r), rw r (walk-down [] (parts s) k))

-- A path that is accepted is opened below the base directory, unless it begins with exactly two slashes:
-- then it is opened from the root of the file system.
pub opened_lem :
    (base : Directory) (s : String)
    → is_path_secure s ≡ true
    → opened base s ≡ (if leading s == 2 then parts s else base ++ parts s)
opened_lem base s h = elim (Bool-cases (leading s == 2)) [
  | inl two ↦
      let k : leading s ≡ 2 = grind (arith, ==_iff) in
      rw two (two_slashes base s k (ground (arith, two-secure s (root-two s k)))).1
  | inr one ↦ rw one (opened-below base s h (grind (arith, ==_iff)))
]
