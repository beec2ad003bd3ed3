-- ===== src/Markdown/Cells.antt =====
-- The cells of a written table: tagged names, and entries `key=value`.
use Prim.Native.Char.{Char, code}
use Prim.Native.String.{String}
use text.Mathlib.TextLemmas.{cons≢nil}
use text.Mathlib.TextPositions.{eq_refl}
use auto_test_system.Prelude.{
  eq_iff, ◌≢◌, ◌≡◌, refl, ap, Bool, true, false, none, some, List, [], ◌∷◌, ◌++◌, ◌==◌, str_eq,
  if◌then◌else◌, arith, Bool-cases, inl, inr,
}
use auto_test_system.Text.{ends_with_char, drop_last, strip, lstrip, rstrip, split_on}
use auto_test_system.Markdown.{filter_kw, close, put, lookup}

-- A text and a closing brace
abbrev pub closed : String → String
closed String.[] = "}"
closed (String.◌∷◌ c s) = String.◌∷◌ c (closed s)

-- The first cell of a row for a name.
abbrev pub tagged : Char → String → String
tagged sign name = String.◌∷◌ sign (String.◌∷◌ "{" (closed name))

rstrip-closed : (s : String) → rstrip (closed s) ≡ closed s
unfolding rstrip
rstrip-closed String.[] = refl
rstrip-closed (String.◌∷◌ c String.[]) = refl
rstrip-closed (String.◌∷◌ c (String.◌∷◌ d s)) = rw (rstrip-closed (String.◌∷◌ d s)) refl

ends_with-closed : (s : String) → ends_with_char b'}' (closed s) ≡ true
unfolding ends_with_char
ends_with-closed String.[] = refl
ends_with-closed (String.◌∷◌ c String.[]) = refl
ends_with-closed (String.◌∷◌ c (String.◌∷◌ d s)) = ends_with-closed (String.◌∷◌ d s)

drop_last-closed : (s : String) → drop_last (closed s) ≡ s
unfolding drop_last
drop_last-closed String.[] = refl
drop_last-closed (String.◌∷◌ c String.[]) = refl
drop_last-closed (String.◌∷◌ c (String.◌∷◌ d s)) =
    ap (String.◌∷◌ c) (drop_last-closed (String.◌∷◌ d s))

pub close-closed : (s : String) → close (closed s) ≡ s
close-closed s = rw (ends_with-closed s) (drop_last-closed s)

rstrip-tagged :
    (c d : Char) (s : String)
    → rstrip (String.◌∷◌ c (String.◌∷◌ d (closed s))) ≡ String.◌∷◌ c (String.◌∷◌ d (closed s))
unfolding rstrip
rstrip-tagged c d String.[] = refl
rstrip-tagged c d (String.◌∷◌ e s) = rw (rstrip-closed (String.◌∷◌ e s)) refl

strip-dollar : (s : String) → strip (tagged "$" s) ≡ tagged "$" s
unfolding strip lstrip
strip-dollar s = rstrip-tagged "$" "{" s

strip-at : (s : String) → strip (tagged "@" s) ≡ tagged "@" s
unfolding strip lstrip
strip-at s = rstrip-tagged "@" "{" s

strip-and : (s : String) → strip (tagged "&" s) ≡ tagged "&" s
unfolding strip lstrip
strip-and s = rstrip-tagged "&" "{" s

pub filter_kw-dollar : (s : String) → filter_kw (tagged "$" s) ≡ s
unfolding filter_kw
filter_kw-dollar s = rw (strip-dollar s) (close-closed s)

pub filter_kw-at : (s : String) → filter_kw (tagged "@" s) ≡ s
unfolding filter_kw
filter_kw-at s = rw (strip-at s) (close-closed s)

pub filter_kw-and : (s : String) → filter_kw (tagged "&" s) ≡ s
unfolding filter_kw
filter_kw-and s = rw (strip-and s) (close-closed s)

-- `key=value`
abbrev pub joined : String → String → String
joined String.[] v = String.◌∷◌ "=" v
joined (String.◌∷◌ c k) v = String.◌∷◌ c (joined k v)

abbrev pub has_equals : String → Bool
has_equals String.[] = false
has_equals (String.◌∷◌ c s) = if code c == b'=' then true else has_equals s

split_on-plain : (s : String) → has_equals s ≡ false → split_on b'=' s ≡ s ∷ []
unfolding split_on
split_on-plain String.[] h = refl
split_on-plain (String.◌∷◌ c s) h = ground (arith, split_on-plain s)

pub split_on-joined :
    (k v : String)
    → has_equals k ≡ false
    → has_equals v ≡ false
    → split_on b'=' (joined k v) ≡ k ∷ v ∷ []
unfolding split_on
split_on-joined String.[] v h e = ground (arith, split_on-plain v)
split_on-joined (String.◌∷◌ c k) v h e = ground (arith, split_on-joined k v)

joined≢nil : (k v : String) → joined k v ≢ ""
joined≢nil String.[] v = cons≢nil
joined≢nil (String.◌∷◌ c k) v = cons≢nil

pub joined-nonempty : (k v : String) → str_eq (joined k v) "" ≡ false
joined-nonempty k v = elim (Bool-cases (str_eq (joined k v) "")) [
  | inl blank ↦ absurd (joined≢nil k v ((eq_iff (joined k v) "").0 blank))
  | inr filled ↦ filled
]

module _ {ℓ} {V : Type ℓ} (k : String) where
  pub put-fresh :
      (v : V) (d : List (String × V)) → lookup k d ≡ none → put k v d ≡ d ++ ((k, v) ∷ [])
  put-fresh v [] h = refl
  put-fresh v ((j, u) ∷ d) h = ground (arith, put-fresh v d)

  pub put-last :
      (v u : V) (d : List (String × V))
      → lookup k d ≡ none
      → put k v (d ++ ((k, u) ∷ [])) ≡ d ++ ((k, v) ∷ [])
  put-last v u [] h = ground (arith, eq_refl k)
  put-last v u ((j, w) ∷ d) h = ground (arith, put-last v u d)

  pub lookup-last :
      (u : V) (d : List (String × V)) → lookup k d ≡ none → lookup k (d ++ ((k, u) ∷ [])) ≡ some u
  lookup-last u [] h = ground (arith, eq_refl k)
  lookup-last u ((j, w) ∷ d) h = ground (arith, lookup-last u d)
