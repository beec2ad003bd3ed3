-- ===== src/Runner/Variables.antt =====
-- `convert_json_to_robot_variable` of webserver/task_runner/runner.py: the variables of a task as the
-- text of a Python file. Letters are compared in ASCII.
pub mod Scanned
use Prim.Native.Char.{Char, code}
use Prim.Native.String.{String}
use auto_test_system.Prelude.{
  ℕ, Bool, true, false, ◌||◌, Option, none, some, List, [], ◌∷◌, ◌++◌, ◌<>◌, str_eq, ◌==◌,
  if◌then◌else◌,
}
use auto_test_system.Documents.{Variable, scalar, items, entries}
use auto_test_system.Markdown.{lower_eq}

-- The matches of `\${(.*?)}` in a text, and what lies between them.
pub data Piece : Type 0 where
  literal : String → Piece
  reference : String → Piece

-- Where a scan stands: outside, behind a "$", or behind "${" and a text without "}".
pub data Mode : Type 0 where
  outside dollar : Mode
  inside : String → Mode

abbrev pub single : Char → String
single c = String.◌∷◌ c ""

-- What has been read in a mode and is not a match.
abbrev pub pending : Mode → List Piece
pending outside = []
pending dollar = literal "$" ∷ []
pending (inside acc) = literal ("${" <> acc) ∷ []

-- A character: the pieces that it ends, and the mode behind it. A match has no line break.
abbrev pub step : Mode → Char → List Piece × Mode
step outside c = if code c == b'$' then ([], dollar) else (literal (single c) ∷ [], outside)
step dollar c =
    if code c == b'{'
    then ([], inside "")
    else if code c == b'$'
    then (literal "$" ∷ [], dollar)
    else (literal "$" ∷ literal (single c) ∷ [], outside)
step (inside acc) c =
    if code c == b'}'
    then (reference acc ∷ [], outside)
    else if code c == 10
    then (literal ("${" <> acc) ∷ literal (single c) ∷ [], outside)
    else ([], inside (acc <> single c))

unfoldable pub scan : Mode → String → List Piece
scan mode String.[] = pending mode
scan mode (String.◌∷◌ c s) = let (ps, next) = step mode c in ps ++ scan next s

unfoldable pub with_underscores : String → String
with_underscores String.[] = ""
with_underscores (String.◌∷◌ c s) = (if code c == 32 then "_" else single c) <> with_underscores s

-- Python's `float(text)` and `int(text, base)`: whether they take the text.
pub record Numbers : Type 0 where
  pub is_float : String → Bool
  pub is_int : String → ℕ → Bool

-- `sub_type`: no reference, a constant, or a variable
pub data SubType : Type 0 where
  plain constant variable : SubType

module _ (n : Numbers) where
  abbrev pub is_number : String → Bool
  is_number s = n.is_float s || n.is_int s 16 || n.is_int s 8 || n.is_int s 2

  -- The Python text of a constant; `none` for the name of a variable.
  unfoldable pub constant_of : String → Option String
  unfolding lower_eq
  constant_of s =
      if lower_eq s "true"
      then some "True"
      else if lower_eq s "false"
      then some "False"
      else if lower_eq s "null"
      then some "None"
      else if lower_eq s "empty"
      then some "''"
      else if lower_eq s "space"
      then some "' '"
      else if is_number s
      then some s
      else none

  abbrev pub replace_with : String → Option String → String
  replace_with s (some t) = t
  replace_with s none = "{" <> with_underscores s <> "}"

  abbrev pub type_with : Option String → SubType
  type_with (some t) = constant
  type_with none = variable

  -- `p.sub(var_replace, v)`
  unfoldable pub substituted : List Piece → String
  substituted [] = ""
  substituted (literal s ∷ ps) = s <> substituted ps
  substituted (reference s ∷ ps) = replace_with s (constant_of s) <> substituted ps

  -- `sub_type` is that of the last reference.
  unfoldable pub sub_type : SubType → List Piece → SubType
  sub_type t [] = t
  sub_type t (literal s ∷ ps) = sub_type t ps
  sub_type t (reference s ∷ ps) = sub_type (type_with (constant_of s)) ps

  abbrev pub name_with : String → Option String → List String
  name_with s (some t) = []
  name_with s none = with_underscores s ∷ []

  -- `sub_vars`
  unfoldable pub sub_vars : List Piece → List String
  sub_vars [] = []
  sub_vars (literal s ∷ ps) = sub_vars ps
  sub_vars (reference s ∷ ps) = name_with s (constant_of s) ++ sub_vars ps

  abbrev pub quoted : SubType → String → String
  quoted plain s = "'" <> s <> "'"
  quoted constant s = s
  quoted variable s = "f'" <> s <> "'"

  unfoldable pub sub_variable : String → String
  sub_variable v = let ps = scan outside v in quoted (sub_type plain ps) (substituted ps)

  abbrev sub_entry : String × String → String
  sub_entry (k, v) = "'" <> k <> "': " <> sub_variable v

  abbrev joined : List String → String
  joined [] = ""
  joined (s ∷ []) = s
  joined (s ∷ (t ∷ r)) = s <> ", " <> joined (t ∷ r)

  abbrev subs : List String → List String
  subs [] = []
  subs (v ∷ r) = sub_variable v ∷ subs r

  abbrev sub_entries : List (String × String) → List String
  sub_entries [] = []
  sub_entries (e ∷ r) = sub_entry e ∷ sub_entries r

  unfoldable pub line_of : String → Variable → String
  line_of k (scalar v) = k <> " = " <> sub_variable v <> "\n"
  line_of k (items l) = k <> " = [" <> joined (subs l) <> "]\n"
  line_of k (entries d) = k <> " = {" <> joined (sub_entries d) <> "}\n"

  vars_in : List String → List String
  vars_in [] = []
  vars_in (v ∷ r) = sub_vars (scan outside v) ++ vars_in r

  abbrev values : List (String × String) → List String
  values [] = []
  values ((k, v) ∷ r) = v ∷ values r

  vars_of : Variable → List String
  vars_of (scalar v) = vars_in (v ∷ [])
  vars_of (items l) = vars_in l
  vars_of (entries d) = vars_in (values d)

  -- `sub_vars` behind all variables
  unfoldable pub referenced : List (String × Variable) → List String
  unfolding vars_of vars_in
  referenced [] = []
  referenced ((k, v) ∷ r) = vars_of v ++ referenced r

  unfoldable pub lines : List (String × Variable) → String
  unfolding line_of
  lines [] = ""
  lines ((k, v) ∷ r) = line_of k v <> lines r

abbrev pub is_in : String → List String → Bool
is_in s [] = false
is_in s (t ∷ r) = str_eq s t || is_in s r

-- The default values of the variables that are referred to, by `str` of a value.
unfoldable pub default_lines : (Variable → String) → List String → List (String × Variable) → String
default_lines str names [] = ""
default_lines str names ((k, v) ∷ r) =
    let rest = default_lines str names r in
    if is_in k names then k <> " = '" <> str v <> "'\n" <> rest else rest

-- The text of the file
unfoldable pub convert_json_to_robot_variable :
    Numbers → (Variable → String) → List (String × Variable) → List (String × Variable) → String
unfolding default_lines lines referenced
convert_json_to_robot_variable n str variables default_variables =
    default_lines str (referenced n variables) default_variables <> lines n variables
