-- ===== src/Markdown/Cases.antt =====
-- How many test cases `update_test_from_md` records.
use auto_test_system.Prelude.{
  ℕ, ◌+◌, ◌≤◌, ◌≡◌, refl, ◌∙◌, Bool, not, ◌||◌, true, false, Option, none, some, List, [], ◌∷◌,
  String, str_eq, length, length-append, arith, Bool-cases, inl, inr,
}
use auto_test_system.Exec.{
  Exec, Result, ok, stop, raised, when, resume, Exn, or_raise, modify, unbound_local_error, ◌>>=◌,
  ◌>>◌,
}
use auto_test_system.Documents.{Variable, scalar, items, entries}
use auto_test_system.Text.{split_on}
use auto_test_system.Markdown.{
  Token, table, other, Locals, key_value, with_entry, add_entry, add_entries, extend, variable_row,
  Row, skipped, scalar_row, list_row, continued, dict_row, unknown_tag, row_of, row_as,
  variable_rows, case_rows, read_token, read_tokens, lower_eq, extended, lookup, continue_dict,
  continue_with, truthy, filter_kw,
}

abbrev Keeps : {A : Type 0} → Exec Locals A → Type 0
Keeps m = (l : Locals) → (m l).1.test_cases ≡ l.test_cases

resume-Keeps :
    {A B : Type 0} (r : Result A) (f : A → Exec Locals B) (s : Locals)
    → ((a : A) → Keeps (f a))
    → (resume r f s).1.test_cases ≡ s.test_cases
resume-Keeps (ok a) f s h = h a s
resume-Keeps (stop c t) f s h = refl
resume-Keeps (raised e) f s h = refl

bind-Keeps :
    {A B : Type 0} (m : Exec Locals A) (f : A → Exec Locals B)
    → Keeps m
    → ((a : A) → Keeps (f a))
    → Keeps (m >>= f)
bind-Keeps m f first rest l = resume-Keeps (m l).0 f (m l).1 rest ∙ first l

when-Keeps : (b : Bool) (m : Exec Locals (Unit {0})) → Keeps m → Keeps (when b m)
when-Keeps true m h l = h l
when-Keeps false m h l = refl

key_value-Keeps : (p : List String) → Keeps (key_value p)
key_value-Keeps [] l = refl
key_value-Keeps (k ∷ []) l = refl
key_value-Keeps (k ∷ v ∷ []) l = refl
key_value-Keeps (k ∷ v ∷ x ∷ xs) l = refl

with_entry-Keeps : (k v : String) (o : Option Variable) → Keeps (with_entry k v o)
with_entry-Keeps k v none l = refl
with_entry-Keeps k v (some (entries d)) l = refl
with_entry-Keeps k v (some (scalar t)) l = refl
with_entry-Keeps k v (some (items t)) l = refl

extended-Keeps : (more : List String) (o : Option Variable) → Keeps (extended more o)
extended-Keeps more none l = refl
extended-Keeps more (some (items t)) l = refl
extended-Keeps more (some (scalar t)) l = refl
extended-Keeps more (some (entries t)) l = refl

add_entry-Keeps : (name i : String) → Keeps (add_entry name i)
unfolding add_entry
add_entry-Keeps name i =
    bind-Keeps (key_value (split_on b'=' i)) _ (key_value-Keeps (split_on b'=' i)) (λ kv l.
      bind-Keeps (with_entry kv.0 kv.1 (lookup name l.variables)) _
        (with_entry-Keeps kv.0 kv.1 (lookup name l.variables)) (λ new k. refl) l)

add_entries-Keeps : (name : String) (is : List String) → Keeps (add_entries name is)
unfolding add_entries
add_entries-Keeps name [] l = refl
add_entries-Keeps name (i ∷ is) l =
    bind-Keeps (when (not (str_eq i "")) (add_entry name i)) (λ _. add_entries name is)
      (when-Keeps _ (add_entry name i) (add_entry-Keeps name i)) (λ _. add_entries-Keeps name is) l

extend-Keeps : (name : String) (more : List String) → Keeps (extend name more)
unfolding extend
extend-Keeps name more l =
    bind-Keeps (extended more (lookup name l.variables)) _
      (extended-Keeps more (lookup name l.variables)) (λ new k. refl) l

continue_dict-Keeps : (name : Option String) (more : List String) → Keeps (continue_dict name more)
continue_dict-Keeps none more l = refl
continue_dict-Keeps (some name) more l = add_entries-Keeps name more l

or_raise-Keeps : {A : Type 0} (o : Option A) (e : Exn) → Keeps (or_raise o e)
or_raise-Keeps none e l = refl
or_raise-Keeps (some a) e l = refl

continue_with-Keeps : (name : Option String) (more : List String) → Keeps (continue_with name more)
continue_with-Keeps (some name) more l = extend-Keeps name more l
continue_with-Keeps none more l =
    bind-Keeps (or_raise l.dict_var unbound_local_error) _
      (or_raise-Keeps l.dict_var unbound_local_error)
      (λ dict. continue_dict-Keeps (truthy dict) more) l

row_as-Keeps : (r : Row) (name : String) (cs : List String) → Keeps (row_as r name cs)
unfolding row_as
row_as-Keeps skipped name cs l = refl
row_as-Keeps scalar_row name cs l = refl
row_as-Keeps list_row name cs l = refl
row_as-Keeps continued name cs l = continue_with-Keeps (truthy l.list_var) cs l
row_as-Keeps dict_row name cs l = add_entries-Keeps name cs _
row_as-Keeps unknown_tag name cs l = refl

variable_row-Keeps : (c : String) (cs : List String) → Keeps (variable_row c cs)
unfolding variable_row
variable_row-Keeps c cs = row_as-Keeps (row_of c) (filter_kw c) cs

variable_rows-Keeps : (rows : List (List String)) → Keeps (variable_rows rows)
unfolding variable_rows
variable_rows-Keeps [] l = refl
variable_rows-Keeps ([] ∷ rows) l = refl
variable_rows-Keeps ((c ∷ cs) ∷ rows) l =
    bind-Keeps (variable_row c cs) (λ _. variable_rows rows) (variable_row-Keeps c cs)
      (λ _. variable_rows-Keeps rows) l

case_rows_bound :
    (rows : List (List String)) (l : Locals)
    → length (case_rows rows l).1.test_cases ≤ 1 + length l.test_cases
unfolding case_rows
case_rows_bound [] l = omega arith
case_rows_bound ([] ∷ rows) l = omega arith
case_rows_bound ((c ∷ cs) ∷ rows) l = elim (Bool-cases (str_eq c "---")) [
  | inl ruler ↦ rw ruler (case_rows_bound rows l)
  | inr real ↦ rw real (rw (length-append l.test_cases (c ∷ [])) (omega arith))
]

-- How many of the tokens are tables.
abbrev tables_in : Token → ℕ
tables_in (table h rows) = 1
tables_in other = 0

abbrev pub tables : List Token → ℕ
tables [] = 0
tables (t ∷ ts) = tables_in t + tables ts

-- What follows adds at most `n` test cases.
abbrev AtMost : {A : Type 0} → ℕ → Exec Locals A → Type 0
AtMost n m = (l : Locals) → length (m l).1.test_cases ≤ n + length l.test_cases

resume-AtMost :
    {A B : Type 0} (n : ℕ) (r : Result A) (f : A → Exec Locals B) (s : Locals)
    → ((a : A) → AtMost n (f a))
    → length (resume r f s).1.test_cases ≤ n + length s.test_cases
resume-AtMost n (ok a) f s h = h a s
resume-AtMost n (stop c t) f s h = omega arith
resume-AtMost n (raised e) f s h = omega arith

bind-AtMost :
    {A B : Type 0} (n k : ℕ) (m : Exec Locals A) (f : A → Exec Locals B)
    → AtMost n m
    → ((a : A) → AtMost k (f a))
    → AtMost (n + k) (m >>= f)
bind-AtMost n k m f first rest l = omega (arith, resume-AtMost k (m l).0 f (m l).1 rest, first l)

when-AtMost : (n : ℕ) (b : Bool) (m : Exec Locals (Unit {0})) → AtMost n m → AtMost n (when b m)
when-AtMost n true m h l = h l
when-AtMost n false m h l = omega arith

Keeps-AtMost : (m : Exec Locals (Unit {0})) → Keeps m → AtMost 0 m
Keeps-AtMost m h l = rw (h l) (omega arith)

read_token_bound : (t : Token) → AtMost (tables_in t) (read_token t)
unfolding read_token
read_token_bound other l = omega arith
read_token_bound (table [] rows) l = omega arith
read_token_bound (table (h ∷ hs) rows) l =
    bind-AtMost 1 0 (when (lower_eq h "test case" || lower_eq h "test cases") (case_rows rows))
      (λ _.
        when (lower_eq h "variable" || lower_eq h "variables")
          (modify (λ l. record l { list_var = none }) >> variable_rows rows))
      (when-AtMost 1 _ (case_rows rows) (case_rows_bound rows))
      (λ _. when-AtMost 0 _ (modify (λ l. record l { list_var = none }) >> variable_rows rows) (
        Keeps-AtMost (modify (λ l. record l { list_var = none }) >> variable_rows rows)
          (λ l. variable_rows-Keeps rows (record l { list_var = none }))))
      l

-- No more test cases are recorded than the script has tables, however many rows they have and however
-- the run ends.
pub read_tokens_bound :
    (ts : List Token) (l : Locals)
    → length (read_tokens ts l).1.test_cases ≤ tables ts + length l.test_cases
unfolding read_tokens
read_tokens_bound [] l = omega arith
read_tokens_bound (t ∷ ts) l =
    bind-AtMost (tables_in t) (tables ts) (read_token t) (λ _. read_tokens ts) (read_token_bound t)
      (λ _. read_tokens_bound ts) l
