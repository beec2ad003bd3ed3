-- ===== src/Markdown/Typed.antt =====
-- The rows of a table of variables that go on with a list or a dictionary find a variable of that type:
-- the local names of `update_test_from_md` in webserver/task_runner/util/dbhelper.py.
pub mod Rows
use auto_test_system.Prelude.{
  ◌≡◌, ◌≢◌, refl, ap, subst, sym, ◌∙◌, Bool, not, ◌||◌, true, false, Option, none, some, List, [],
  ◌∷◌, String, str_eq, eq_iff, arith, Bool-cases, Option-cases, ◌⊎◌, inl, inr, if◌then◌else◌, ◌++◌,
}
use auto_test_system.Exec.{
  Exec, Result, ok, stop, raised, when, resume, Exn, or_raise, modify, index_error,
  unbound_local_error, value_error, type_error, key_error, attribute_error, ◌>>=◌, ◌>>◌,
}
use auto_test_system.Documents.{Variable, scalar, items, entries}
use auto_test_system.Text.{split_on}
use auto_test_system.Markdown.{
  Token, table, other, Locals, key_value, with_entry, add_entry, add_entries, extend, variable_row,
  Row, skipped, scalar_row, list_row, continued, dict_row, unknown_tag, row_of, row_as,
  set_variable, variable_rows, case_rows, read_token, read_tokens, lower_eq, extended, lookup, put,
  continue_dict, continue_with, truthy, filter_kw, no_locals,
}

pub data Kind : Type 0 where
  scalar_kind list_kind dict_kind : Kind

abbrev pub kind : Variable → Kind
kind (scalar s) = scalar_kind
kind (items l) = list_kind
kind (entries d) = dict_kind

abbrev pub kind_at : Option Variable → Option Kind
kind_at none = none
kind_at (some v) = some (kind v)

abbrev pub kind_of : String → List (String × Variable) → Option Kind
kind_of k d = kind_at (lookup k d)

pub kind_of-put :
    (j k : String) (v : Variable) (d : List (String × Variable))
    → kind_of k (put j v d) ≡ (if str_eq j k then some (kind v) else kind_of k d)
kind_of-put j k v [] = ground arith
kind_of-put j k v ((i, u) ∷ d) =
    ground (arith, kind_of-put j k v d, eq_iff i j, eq_iff i k, eq_iff j k)

-- The name of a list is that of a list, and the name of a dictionary that of a dictionary.
abbrev pub IsTyped : Locals → Type 0
IsTyped l =
    ((n : String) → l.list_var ≡ some n → kind_of n l.variables ≡ some list_kind)
    × ((n : String) → l.dict_var ≡ some (some n) → kind_of n l.variables ≡ some dict_kind)

-- The exceptions that malformed tables raise.
abbrev pub IsMalformed : Exn → Type 0
IsMalformed e = (e ≡ index_error) ⊎ (e ≡ unbound_local_error) ⊎ (e ≡ value_error)

abbrev pub IsSafe {ℓ} : {A : Type ℓ} → Result A → Type 0
IsSafe (ok a) = Unit {0}
IsSafe (stop c t) = Unit {0}
IsSafe (raised e) = IsMalformed e

-- A body that keeps a property of the local names and raises no other exception.
abbrev pub Runs : {A : Type 0} → (Locals → Type 0) → Exec Locals A → Type 0
Runs P m = (l : Locals) → P l → IsSafe (m l).0 × P (m l).1

pub resume-Runs :
    {A B : Type 0} (P : Locals → Type 0) (r : Result A) (f : A → Exec Locals B) (l : Locals)
    → IsSafe r
    → P l
    → ((a : A) → Runs P (f a))
    → IsSafe (resume r f l).0 × P (resume r f l).1
resume-Runs P (ok a) f l s p rest = rest a l p
resume-Runs P (stop c t) f l s p rest = (s, p)
resume-Runs P (raised e) f l s p rest = (s, p)

pub bind-Runs :
    {A B : Type 0} (P : Locals → Type 0) (m : Exec Locals A) (f : A → Exec Locals B)
    → Runs P m
    → ((a : A) → Runs P (f a))
    → Runs P (m >>= f)
bind-Runs P m f first rest l p = resume-Runs P (m l).0 f (m l).1 (first l p).0 (first l p).1 rest

pub when-Runs :
    (P : Locals → Type 0) (b : Bool) (m : Exec Locals (Unit {0})) → Runs P m → Runs P (when b m)
when-Runs P true m h l p = h l p
when-Runs P false m h l p = (tt, p)

-- What a continuation row leaves: the kinds of the variables and the two names.
abbrev pub IsAlike : Locals → Locals → Type 0
IsAlike o l =
    ((k : String) → kind_of k l.variables ≡ kind_of k o.variables)
    × (l.list_var ≡ o.list_var)
    × (l.dict_var ≡ o.dict_var)

pub IsAlike-IsTyped : (o l : Locals) → IsAlike o l → IsTyped o → IsTyped l
IsAlike-IsTyped o l (k, a, b) (lists, dicts) =
    (λ n e. k n ∙ lists n (sym a ∙ e), λ n e. k n ∙ dicts n (sym b ∙ e))

pub put-IsAlike :
    (o l : Locals) (name : String) (v : Variable)
    → kind_of name o.variables ≡ some (kind v)
    → IsAlike o l
    → IsAlike o (record l { variables = put name v l.variables })
put-IsAlike o l name v e (k, a, b) =
    (λ j. ground (arith, kind_of-put name j v l.variables, k j, eq_iff name j, e), a, b)

pub key_value-Runs : (P : Locals → Type 0) (p : List String) → Runs P (key_value p)
key_value-Runs P [] l h = (inr (inr refl), h)
key_value-Runs P (k ∷ []) l h = (inr (inr refl), h)
key_value-Runs P (k ∷ v ∷ []) l h = (tt, h)
key_value-Runs P (k ∷ v ∷ x ∷ xs) l h = (inr (inr refl), h)

pub with_entry-Runs :
    (base : Locals) (name k v : String) (o : Option Variable) (l : Locals)
    → kind_of name base.variables ≡ some dict_kind
    → kind_at o ≡ some dict_kind
    → IsAlike base l
    → IsSafe ((with_entry k v o >>= set_variable name) l).0
      × IsAlike base ((with_entry k v o >>= set_variable name) l).1
with_entry-Runs base name k v (some (entries d)) l e f h =
    (tt, put-IsAlike base l name (entries (put k v d)) e h)
with_entry-Runs base name k v none l e f h = absurd (cc)
with_entry-Runs base name k v (some (scalar s)) l e f h = absurd (cc)
with_entry-Runs base name k v (some (items s)) l e f h = absurd (cc)

pub add_entry-Runs :
    (base : Locals) (name item : String)
    → kind_of name base.variables ≡ some dict_kind
    → Runs (IsAlike base) (add_entry name item)
unfolding add_entry
add_entry-Runs base name item e =
    bind-Runs (IsAlike base) (key_value (split_on b'=' item))
      (λ kv l. (with_entry kv.0 kv.1 (lookup name l.variables) >>= set_variable name) l)
      (key_value-Runs (IsAlike base) (split_on b'=' item))
      (λ kv l h. with_entry-Runs base name kv.0 kv.1 (lookup name l.variables) l e (h.0 name ∙ e) h)

pub add_entries-Runs :
    (base : Locals) (name : String) (is : List String)
    → kind_of name base.variables ≡ some dict_kind
    → Runs (IsAlike base) (add_entries name is)
unfolding add_entries
add_entries-Runs base name [] e = λ l h. (tt, h)
add_entries-Runs base name (i ∷ is) e =
    bind-Runs (IsAlike base) (when (not (str_eq i "")) (add_entry name i))
      (λ _. add_entries name is)
      (when-Runs (IsAlike base) (not (str_eq i "")) (add_entry name i)
        (add_entry-Runs base name i e))
      (λ _. add_entries-Runs base name is e)

pub extended-Runs :
    (base : Locals) (name : String) (more : List String) (o : Option Variable) (l : Locals)
    → kind_of name base.variables ≡ some list_kind
    → kind_at o ≡ some list_kind
    → IsAlike base l
    → IsSafe ((extended more o >>= set_variable name) l).0
      × IsAlike base ((extended more o >>= set_variable name) l).1
extended-Runs base name more (some (items xs)) l e f h =
    (tt, put-IsAlike base l name (items (xs ++ more)) e h)
extended-Runs base name more none l e f h = absurd (cc)
extended-Runs base name more (some (scalar s)) l e f h = absurd (cc)
extended-Runs base name more (some (entries s)) l e f h = absurd (cc)
