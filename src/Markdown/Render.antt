-- ===== src/Markdown/Render.antt =====
-- Tables of variables that `update_test_from_md` reads back as they were written.
use Prim.Native.Char.{Char}
use Prim.Native.String.{String}
use auto_test_system.Prelude.{
  ◌≡◌, refl, sym, ap, ◌∙◌, false, Option, none, some, List, [], ◌∷◌, ◌++◌,
}
use mathlib.Core.List.{append_assoc, append-nil}
use auto_test_system.Text.{starts_with}
use auto_test_system.Exec.{ok}
use auto_test_system.Documents.{Variable, scalar, items, entries}
use auto_test_system.Markdown.{
  Locals, lookup, add_entry, add_entries, variable_row, variable_rows, row_of, row_as, read_tokens,
  read_token, table, lower_eq, no_locals,
}
use auto_test_system.Markdown.Cells.{
  tagged, filter_kw-dollar, filter_kw-at, filter_kw-and, joined, has_equals, split_on-joined,
  joined-nonempty, put-fresh, put-last, lookup-last,
}

-- A dictionary that can be written as `key=value`: no name twice, and no "=" in a name or a value.
abbrev pub IsWritable : List (String × String) → List (String × String) → Type 0
IsWritable before [] = Unit
IsWritable before ((k, v) ∷ d) =
    (lookup k before ≡ none)
    × (has_equals k ≡ false)
    × (has_equals v ≡ false)
    × IsWritable (before ++ ((k, v) ∷ [])) d

abbrev pub write_entries : List (String × String) → List String
write_entries [] = []
write_entries ((k, v) ∷ d) = joined k v ∷ write_entries d

abbrev holding : Locals → String → List (String × Variable) → List (String × String) → Locals
holding l name before d = record l { variables = before ++ ((name, entries d) ∷ []) }

add_entry-joined :
    (l : Locals) (name : String) (before : List (String × Variable)) (d : List (String × String))
    (k v : String)
    → lookup name before ≡ none
    → lookup k d ≡ none
    → has_equals k ≡ false
    → has_equals v ≡ false
    → add_entry name (joined k v) (holding l name before d)
      ≡ (ok tt, holding l name before (d ++ ((k, v) ∷ [])))
unfolding add_entry
add_entry-joined l name before d k v fresh new h e =
    rw
      (
        split_on-joined k v h e,
        lookup-last name (entries d) before fresh,
        put-fresh k v d new,
        put-last name (entries (d ++ ((k, v) ∷ []))) (entries d) before fresh,
      )
      refl

add_entries-write :
    (l : Locals) (name : String) (before : List (String × Variable))
    (d more : List (String × String))
    → lookup name before ≡ none
    → IsWritable d more
    → add_entries name (write_entries more) (holding l name before d)
      ≡ (ok tt, holding l name before (d ++ more))
unfolding add_entries
add_entries-write l name before d [] fresh h = rw (append-nil d) refl
add_entries-write l name before d ((k, v) ∷ more) fresh (new, plain, value, rest) =
    rw (joined-nonempty k v) (
      rw (add_entry-joined l name before d k v fresh new plain value) (
        add_entries-write l name before (d ++ ((k, v) ∷ [])) more fresh rest
        ∙ ap (λ x. (ok tt, holding l name before x)) (append_assoc d ((k, v) ∷ []) more)))

abbrev sign : Variable → Char
sign (scalar t) = "$"
sign (items ts) = "@"
sign (entries d) = "&"

abbrev cells : Variable → List String
cells (scalar t) = t ∷ []
cells (items ts) = ts
cells (entries d) = write_entries d

-- A variable as a row: its sign and name in the first cell, its value in the others.
abbrev pub write_variable : String × Variable → List String
write_variable (name, v) = tagged (sign v) name ∷ cells v

abbrev pub write_variables : List (String × Variable) → List (List String)
write_variables [] = []
write_variables (x ∷ xs) = write_variable x ∷ write_variables xs

abbrev IsPlain : Variable → Type 0
IsPlain (scalar t) = Unit
IsPlain (items ts) = Unit
IsPlain (entries d) = IsWritable [] d

-- Variables with different names, whose dictionaries can be written.
abbrev pub IsTable : List (String × Variable) → List (String × Variable) → Type 0
IsTable before [] = Unit
IsTable before ((name, v) ∷ vs) =
    (lookup name before ≡ none) × IsPlain v × IsTable (before ++ ((name, v) ∷ [])) vs

abbrev last_list : String → Variable → Option String
last_list name (items ts) = some name
last_list name _ = none

abbrev last_dict : String → Variable → Option (Option String)
last_dict name (entries d) = some (some name)
last_dict name _ = some none

-- The local names behind the row of a variable with a new name.
abbrev after : String → Variable → Locals → Locals
after name v l = record l {
  variables = l.variables ++ ((name, v) ∷ []);
  list_var = last_list name v;
  dict_var = last_dict name v;
}

variable_row-write :
    (name : String) (v : Variable) (l : Locals)
    → lookup name l.variables ≡ none
    → IsPlain v
    → variable_row (tagged (sign v) name) (cells v) l ≡ (ok tt, after name v l)
unfolding variable_row row_as row_of starts_with
variable_row-write name (scalar t) l fresh h =
    rw (filter_kw-dollar name, put-fresh name (scalar t) l.variables fresh) refl
variable_row-write name (items ts) l fresh h =
    rw (filter_kw-at name, put-fresh name (items ts) l.variables fresh) refl
variable_row-write name (entries d) l fresh h =
    rw (filter_kw-and name, put-fresh name (entries []) l.variables fresh)
      (add_entries-write (after name (entries []) l) name l.variables [] d fresh h)

variable_rows-write :
    (vs : List (String × Variable)) (l : Locals)
    → IsTable l.variables vs
    → ((variable_rows (write_variables vs) l).0 ≡ ok tt)
      × ((variable_rows (write_variables vs) l).1.variables ≡ l.variables ++ vs)
unfolding variable_rows
variable_rows-write [] l h = (refl, sym (append-nil l.variables))
variable_rows-write ((name, v) ∷ vs) l (fresh, plain, rest) =
    let (done, same) = variable_rows-write vs (after name v l) rest in
    rw (variable_row-write name v l fresh plain)
      (done, same ∙ append_assoc l.variables ((name, v) ∷ []) vs)

-- A table of variables with different names, written row by row, is read back as those variables: the
-- text of a scalar, the items of a list, and the entries of a dictionary whose keys differ and hold no
-- "=", nor do its values.
pub read-write :
    (vs : List (String × Variable))
    → IsTable [] vs
    → ((read_tokens (table ("Variable" ∷ "Value" ∷ []) (write_variables vs) ∷ []) no_locals).0
        ≡ ok tt)
      × ((read_tokens
            (table ("Variable" ∷ "Value" ∷ []) (write_variables vs) ∷ [])
            no_locals).1.variables
          ≡ vs)
unfolding read_tokens read_token lower_eq
read-write vs h = let (done, same) = variable_rows-write vs no_locals h in rw done (refl, same)
