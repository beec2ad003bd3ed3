-- ===== src/Markdown.antt =====
-- webserver/task_runner/util/dbhelper.py: the test cases and variables of a test script, `filter_kw` and
-- `update_test_from_md`. The lexer that finds the tables of a text is third-party code: the model starts
-- from its tokens.
pub mod Update
pub mod Cells
pub mod Render
pub mod Cases
pub mod Typed
use Prim.Native.Char.{code}
use Prim.Native.String
use Prim.Native.String.{String}
use auto_test_system.Prelude.{
  ℕ, Bool, true, false, not, ◌&&◌, ◌||◌, Option, none, some, List, [], ◌∷◌, ◌++◌, ◌+◌, ◌==◌, str_eq,
  if◌then◌else◌, is_empty, leb,
}
use auto_test_system.Text.{starts_with, ends_with_char, drop_last, drop_two, strip, split_on}
use auto_test_system.Exec.{
  Exec, Result, ok, pure, raise, modify, gets, or_raise, when, index_error, unbound_local_error,
  attribute_error, type_error, key_error, value_error, ◌>>=◌, ◌>>◌,
}
use auto_test_system.Documents.{Variable, scalar, items, entries, Test}

-- A token of the lexer: a table, or another block.
pub data Token : Type 0 where
  table : List String → List (List String) → Token
  other : Token

-- Equality up to the case of ASCII letters: `text.lower() == word` for a word in small ASCII letters.
abbrev lower : ℕ → ℕ
lower c = if leb 65 c && leb c 90 then c + 32 else c

unfoldable pub lower_eq : String → String → Bool
lower_eq String.[] String.[] = true
lower_eq String.[] (String.◌∷◌ d t) = false
lower_eq (String.◌∷◌ c s) String.[] = false
lower_eq (String.◌∷◌ c s) (String.◌∷◌ d t) = lower (code c) == code d && lower_eq s t

-- `item[0:-1]` behind the opening brace; without a closing brace only an error is logged.
abbrev pub close : String → String
close s = if ends_with_char b'}' s then drop_last s else s

unfoldable pub filter_kw : String → String
unfolding strip starts_with
filter_kw text =
    let item = strip text in
    if starts_with "${" item || starts_with "@{" item || starts_with "&{" item
    then close (drop_two item)
    else item

-- `d[k] = v` of a dictionary
abbrev pub put {ℓ} : {V : Type ℓ} → String → V → List (String × V) → List (String × V)
put k v [] = (k, v) ∷ []
put k v ((j, u) ∷ d) = if str_eq j k then (j, v) ∷ d else (j, u) ∷ put k v d

-- `d[k]`
abbrev pub lookup {ℓ} : {V : Type ℓ} → String → List (String × V) → Option V
lookup k [] = none
lookup k ((j, u) ∷ d) = if str_eq j k then some u else lookup k d

-- The local names of `update_test_from_md`. `dict_var` is `none` before its first assignment.
pub record Locals : Type 0 where
  pub test_cases : List String
  pub variables : List (String × Variable)
  pub list_var : Option String
  pub dict_var : Option (Option String)

abbrev pub set_variable : String → Variable → Exec Locals (Unit {0})
set_variable k v = modify (λ l. record l { variables = put k v l.variables })

-- A name that is none or empty is false in a test.
abbrev pub truthy : Option String → Option String
truthy none = none
truthy (some s) = if str_eq s "" then none else some s

abbrev pub key_value : List String → Exec Locals (String × String)
key_value (k ∷ v ∷ []) = pure (k, v)
key_value _ = raise value_error

abbrev pub with_entry : String → String → Option Variable → Exec Locals Variable
with_entry k v none = raise key_error
with_entry k v (some (entries d)) = pure (entries (put k v d))
with_entry k v (some _) = raise type_error

-- `k, v = i.split('=')` and `variables[dict_var][k] = v`
unfoldable pub add_entry : String → String → Exec Locals (Unit {0})
unfolding split_on
add_entry name item = do
  kv ← key_value (split_on b'=' item)
  old ← gets (λ l. lookup name l.variables)
  new ← with_entry kv.0 kv.1 old
  set_variable name new

unfoldable pub add_entries : String → List String → Exec Locals (Unit {0})
unfolding add_entry
add_entries name [] = pure tt
add_entries name (i ∷ is) = when (not (str_eq i "")) (add_entry name i) >> add_entries name is

abbrev pub extended : List String → Option Variable → Exec Locals Variable
extended more none = raise key_error
extended more (some (items l)) = pure (items (l ++ more))
extended more (some _) = raise attribute_error

unfoldable pub extend : String → List String → Exec Locals (Unit {0})
extend name more = do
  old ← gets (λ l. lookup name l.variables)
  new ← extended more old
  set_variable name new

-- A row that begins with "...": it goes on with the list or the dictionary of the rows above.
abbrev pub continue_dict : Option String → List String → Exec Locals (Unit {0})
continue_dict none more = pure tt
continue_dict (some name) more = add_entries name more

abbrev pub continue_with : Option String → List String → Exec Locals (Unit {0})
continue_with (some name) more = extend name more
continue_with none more = do
  assigned ← gets (λ l. l.dict_var)
  dict ← or_raise assigned unbound_local_error
  continue_dict (truthy dict) more

abbrev first_or_blank : List String → String
first_or_blank [] = ""
first_or_blank (c ∷ cs) = c

-- What the first cell makes of a row.
pub data Row : Type 0 where
  skipped scalar_row list_row continued dict_row unknown_tag : Row

unfoldable pub row_of : String → Row
unfolding starts_with
row_of c =
    if starts_with "#" c || starts_with "---" c
    then skipped
    else if starts_with "${" c
    then scalar_row
    else if starts_with "@" c
    then list_row
    else if starts_with "..." c
    then continued
    else if starts_with "&" c
    then dict_row
    else unknown_tag

-- One row of that kind, its name and its other cells.
unfoldable pub row_as : Row → String → List String → Exec Locals (Unit {0})
unfolding add_entries extend
row_as skipped name cs = pure tt
row_as scalar_row name cs = do
  modify (λ l. record l { list_var = none; dict_var = some none })
  set_variable name (scalar (first_or_blank cs))
row_as list_row name cs = do
  modify (λ l. record l { list_var = some name; dict_var = some none })
  set_variable name (items cs)
row_as continued name cs = gets (λ l. truthy l.list_var) >>= λ list. continue_with list cs
row_as dict_row name cs = do
  modify (λ l. record l { list_var = none; dict_var = some (some name) })
  set_variable name (entries [])
  add_entries name cs
row_as unknown_tag name cs = pure tt

unfoldable pub variable_row : String → List String → Exec Locals (Unit {0})
unfolding filter_kw row_of row_as
variable_row c cs = row_as (row_of c) (filter_kw c) cs

unfoldable pub variable_rows : List (List String) → Exec Locals (Unit {0})
unfolding variable_row
variable_rows [] = pure tt
variable_rows ([] ∷ rows) = raise index_error
variable_rows ((c ∷ cs) ∷ rows) = variable_row c cs >> variable_rows rows

-- The first row that is no ruler is recorded, and `break` leaves the loop.
unfoldable pub case_rows : List (List String) → Exec Locals (Unit {0})
case_rows [] = pure tt
case_rows ([] ∷ rows) = raise index_error
case_rows ((c ∷ cs) ∷ rows) =
    let rest = case_rows rows in
    if str_eq c "---"
    then rest
    else modify (λ l. record l { test_cases = l.test_cases ++ (c ∷ []) })

unfoldable pub read_token : Token → Exec Locals (Unit {0})
unfolding case_rows variable_rows lower_eq
read_token other = pure tt
read_token (table [] rows) = raise index_error
read_token (table (h ∷ hs) rows) =
    when (lower_eq h "test case" || lower_eq h "test cases") (case_rows rows)
    >> when (lower_eq h "variable" || lower_eq h "variables")
        (modify (λ l. record l { list_var = none }) >> variable_rows rows)

unfoldable pub read_tokens : List Token → Exec Locals (Unit {0})
unfolding read_token
read_tokens [] = pure tt
read_tokens (t ∷ ts) = read_token t >> read_tokens ts

abbrev pub no_locals : Locals
no_locals = record { test_cases = []; variables = []; list_var = none; dict_var = none }
