-- ===== src/Text.antt =====
-- Python's operations on texts that the modelled code uses, on native strings. White space is ASCII's.
use Prim.Native.Char.{Char, code}
use Prim.Native.String.{String}
use auto_test_system.Prelude.{
  ℕ, Bool, true, false, ◌&&◌, ◌||◌, Option, none, some, List, [], ◌∷◌, ◌==◌, if◌then◌else◌, str_eq,
  leb, ◌<>◌, ltb, not, suc,
}

abbrev cons_head : Char → List String → List String
cons_head c [] = String.◌∷◌ c "" ∷ []
cons_head c (p ∷ ps) = String.◌∷◌ c p ∷ ps

-- `text.split(sep)` for a separator of one character
unfoldable pub split_on : ℕ → String → List String
split_on sep String.[] = "" ∷ []
split_on sep (String.◌∷◌ c s) =
    let rest = split_on sep s in if code c == sep then "" ∷ rest else cons_head c rest

-- The prefix stands first.
unfoldable pub starts_with : String → String → Bool
starts_with String.[] s = true
starts_with (String.◌∷◌ c p) String.[] = false
starts_with (String.◌∷◌ c p) (String.◌∷◌ d s) = code c == code d && starts_with p s

unfoldable pub ends_with_char : ℕ → String → Bool
ends_with_char k String.[] = false
ends_with_char k (String.◌∷◌ c String.[]) = code c == k
ends_with_char k (String.◌∷◌ c (String.◌∷◌ d s)) = ends_with_char k (String.◌∷◌ d s)

-- `text.endswith(end)`
unfoldable pub ends_with : String → String → Bool
ends_with e String.[] = str_eq "" e
ends_with e (String.◌∷◌ c s) = str_eq (String.◌∷◌ c s) e || ends_with e s

-- `text[0:-1]`
unfoldable pub drop_last : String → String
drop_last String.[] = ""
drop_last (String.◌∷◌ c String.[]) = ""
drop_last (String.◌∷◌ c (String.◌∷◌ d s)) = String.◌∷◌ c (drop_last (String.◌∷◌ d s))

-- `text[2:]`
abbrev pub drop_two : String → String
drop_two String.[] = ""
drop_two (String.◌∷◌ c String.[]) = ""
drop_two (String.◌∷◌ c (String.◌∷◌ d s)) = s

unfoldable pub is_space : ℕ → Bool
is_space c = c == 32 || (leb 9 c && leb c 13)

unfoldable pub lstrip : String → String
unfolding is_space
lstrip String.[] = ""
lstrip (String.◌∷◌ c s) = let rest = lstrip s in if is_space (code c) then rest else String.◌∷◌ c s

abbrev keep : Char → String → String
keep c String.[] = if is_space (code c) then "" else String.◌∷◌ c ""
keep c (String.◌∷◌ d s) = String.◌∷◌ c (String.◌∷◌ d s)

unfoldable pub rstrip : String → String
unfolding is_space
rstrip String.[] = ""
rstrip (String.◌∷◌ c s) = keep c (rstrip s)

unfoldable pub strip : String → String
unfolding lstrip rstrip
strip s = rstrip (lstrip s)

-- The texts before and behind the last slash, as one pair; the first is `none` where there is no
-- slash.
unfoldable pub split_dir : String → Option String × String
split_dir String.[] = (none, "")
split_dir (String.◌∷◌ c s) =
    let (dir, base) = split_dir s in
    elim dir [
      | some d ↦ (some (String.◌∷◌ c d), base)
      | none ↦ if code c == b'/' then (some "", base) else (none, String.◌∷◌ c base)
    ]

abbrev keep_path : Char → String → String
keep_path c String.[] = if code c == b'/' then "" else String.◌∷◌ c ""
keep_path c (String.◌∷◌ d s) = String.◌∷◌ c (String.◌∷◌ d s)

-- `text.rstrip('/')`
unfoldable pub rstrip_slashes : String → String
rstrip_slashes String.[] = ""
rstrip_slashes (String.◌∷◌ c s) = keep_path c (rstrip_slashes s)

-- The slashes that end a directory go, unless it has nothing else.
abbrev pub directory_of : Option String → String
directory_of none = ""
directory_of (some d) =
    let stripped = rstrip_slashes d in if str_eq stripped "" then d <> "/" else stripped

-- `os.path.dirname`
unfoldable pub dirname : String → String
unfolding split_dir rstrip_slashes
dirname s = directory_of ((split_dir s).0)

-- `os.path.basename`
unfoldable pub basename : String → String
unfolding split_dir
basename s = (split_dir s).1

-- The text before the last dot; `none` where there is no dot.
unfoldable pub before_dot : String → Option String
before_dot String.[] = none
before_dot (String.◌∷◌ c s) = elim (before_dot s) [
  | some r ↦ some (String.◌∷◌ c r)
  | none ↦ if code c == b'.' then some "" else none
]

abbrev all_dots : String → Bool
all_dots String.[] = true
all_dots (String.◌∷◌ c s) = code c == b'.' && all_dots s

-- `os.path.splitext(name)[0]` of a file name; leading dots do not count.
unfoldable pub stem : String → String
unfolding before_dot
stem s = elim (before_dot s) [ none ↦ s | some r ↦ if all_dots r then s else r ]

-- `len(text)`
unfoldable pub text_length : String → ℕ
text_length String.[] = 0
text_length (String.◌∷◌ c s) = suc (text_length s)

-- The check `Length(max=n)` of a text field, and of each text of a list.
abbrev pub fits : ℕ → String → Bool
fits n s = not (ltb n (text_length s))

abbrev pub all_fit : ℕ → List String → Bool
all_fit n [] = true
all_fit n (s ∷ r) = fits n s && all_fit n r
