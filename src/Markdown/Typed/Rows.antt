-- ===== src/Markdown/Typed/Rows.antt =====
-- Every row and table of a script keeps the types of the local names of `update_test_from_md`
-- (webserver/task_runner/util/dbhelper.py).
use auto_test_system.Prelude.{
  ◌≡◌, refl, ap, subst, ◌∙◌, ◌||◌, Option, none, some, List, [], ◌∷◌, String, str_eq, eq_iff, arith,
  Bool-cases, inl, inr,
}
use auto_test_system.Exec.{
  Exec, Result, ok, stop, raised, when, Exn, or_raise, modify, unbound_local_error, ◌>>=◌, ◌>>◌,
}
use auto_test_system.Documents.{items, entries}
use auto_test_system.Markdown.{
  Token, table, other, Locals, add_entries, extend, variable_row, Row, skipped, scalar_row,
  list_row, continued, dict_row, unknown_tag, row_of, row_as, variable_rows, case_rows, read_token,
  read_tokens, lower_eq, lookup, put, continue_dict, continue_with, truthy, filter_kw, no_locals,
}
use auto_test_system.Markdown.Typed.{
  kind_of, kind_of-put, IsTyped, IsMalformed, IsSafe, Runs, bind-Runs, when-Runs, IsAlike,
  IsAlike-IsTyped, add_entries-Runs, extended-Runs, list_kind, dict_kind,
}

-- A body that leaves what it found alike keeps the types.
alike-Runs :
    (m : Exec Locals (Unit {0})) (l : Locals)
    → IsTyped l
    → IsSafe (m l).0 × IsAlike l (m l).1
    → IsSafe (m l).0 × IsTyped (m l).1
alike-Runs m l t (s, a) = (s, IsAlike-IsTyped l (m l).1 a t)

same : (l : Locals) → IsAlike l l
same l = (λ k. refl, refl, refl)

extend-Runs :
    (name : String) (more : List String) (l : Locals)
    → IsTyped l
    → kind_of name l.variables ≡ some list_kind
    → IsSafe (extend name more l).0 × IsTyped (extend name more l).1
unfolding extend
extend-Runs name more l t e =
    alike-Runs (extend name more) l t
      (extended-Runs l name more (lookup name l.variables) l e e (same l))

truthy-some : (o : Option String) (n : String) → truthy o ≡ some n → o ≡ some n
truthy-some none n e = absurd (cc)
truthy-some (some s) n e = ground (arith, e)

continue_dict-Runs :
    (o : Option String) (more : List String) (l : Locals)
    → IsTyped l
    → ((n : String) → o ≡ some n → kind_of n l.variables ≡ some dict_kind)
    → IsSafe (continue_dict o more l).0 × IsTyped (continue_dict o more l).1
continue_dict-Runs none more l t e = (tt, t)
continue_dict-Runs (some n) more l t e =
    alike-Runs (add_entries n more) l t (add_entries-Runs l n more (e n refl) l (same l))

resume_dict-Runs :
    (o : Option (Option String)) (more : List String) (l : Locals)
    → IsTyped l
    → l.dict_var ≡ o
    → IsSafe ((or_raise o unbound_local_error >>= λ dict. continue_dict (truthy dict) more) l).0
      × IsTyped ((or_raise o unbound_local_error >>= λ dict. continue_dict (truthy dict) more) l).1
resume_dict-Runs none more l t e = (inr (inl refl), t)
resume_dict-Runs (some o) more l t e =
    continue_dict-Runs (truthy o) more l t (λ n f. t.1 n (e ∙ ap (λ x. some x) (truthy-some o n f)))

continue_with-Runs :
    (o : Option String) (more : List String) (l : Locals)
    → IsTyped l
    → truthy l.list_var ≡ o
    → IsSafe (continue_with o more l).0 × IsTyped (continue_with o more l).1
continue_with-Runs none more l t e = resume_dict-Runs l.dict_var more l t refl
continue_with-Runs (some n) more l t e = extend-Runs n more l t (t.0 n (truthy-some l.list_var n e))

fresh_dict :
    (name : String) (l : Locals)
    → IsTyped (record l {
      variables = put name (entries []) l.variables;
      list_var = none;
      dict_var = some (some name);
    })
fresh_dict name l = (
  λ n e. absurd (cc),
  λ n e. ground (arith, kind_of-put name n (entries []) l.variables, eq_iff name n, e),
)

row_as-Runs : (r : Row) (name : String) (cs : List String) → Runs IsTyped (row_as r name cs)
unfolding row_as
row_as-Runs skipped name cs l t = (tt, t)
row_as-Runs unknown_tag name cs l t = (tt, t)
row_as-Runs scalar_row name cs l t = (tt, (λ n e. absurd (cc), λ n e. absurd (cc)))
row_as-Runs list_row name cs l t = (
  tt,
  (
    λ n e. ground (arith, kind_of-put name n (items cs) l.variables, eq_iff name n, e),
    λ n e. absurd (cc),
  ),
)
row_as-Runs continued name cs l t = continue_with-Runs (truthy l.list_var) cs l t refl
row_as-Runs dict_row name cs l t =
    let base : Locals = record l {
      variables = put name (entries []) l.variables;
      list_var = none;
      dict_var = some (some name);
    } in
    alike-Runs (add_entries name cs) base (fresh_dict name l)
      (add_entries-Runs base name cs ((fresh_dict name l).1 name refl) base (same base))

variable_row-Runs : (c : String) (cs : List String) → Runs IsTyped (variable_row c cs)
unfolding variable_row
variable_row-Runs c cs = row_as-Runs (row_of c) (filter_kw c) cs

variable_rows-Runs : (rows : List (List String)) → Runs IsTyped (variable_rows rows)
unfolding variable_rows
variable_rows-Runs [] = λ l t. (tt, t)
variable_rows-Runs ([] ∷ rows) = λ l t. (inl refl, t)
variable_rows-Runs ((c ∷ cs) ∷ rows) =
    bind-Runs IsTyped (variable_row c cs) (λ _. variable_rows rows) (variable_row-Runs c cs)
      (λ _. variable_rows-Runs rows)

case_rows-Runs : (rows : List (List String)) → Runs IsTyped (case_rows rows)
unfolding case_rows
case_rows-Runs [] l t = (tt, t)
case_rows-Runs ([] ∷ rows) l t = (inl refl, t)
case_rows-Runs ((c ∷ cs) ∷ rows) l t = elim (Bool-cases (str_eq c "---")) [
  | inl ruler ↦ rw ruler (case_rows-Runs rows l t)
  | inr real ↦ rw real (tt, t)
]

read_token-Runs : (t : Token) → Runs IsTyped (read_token t)
unfolding read_token
read_token-Runs other = λ l t. (tt, t)
read_token-Runs (table [] rows) = λ l t. (inl refl, t)
read_token-Runs (table (h ∷ hs) rows) =
    let rest : Exec Locals (Unit {0}) =
      modify (λ l. record l { list_var = none }) >> variable_rows rows in
    bind-Runs IsTyped (when (lower_eq h "test case" || lower_eq h "test cases") (case_rows rows))
      (λ _. when (lower_eq h "variable" || lower_eq h "variables") rest)
      (when-Runs IsTyped (lower_eq h "test case" || lower_eq h "test cases") (case_rows rows)
        (case_rows-Runs rows))
      (λ _.
        when-Runs IsTyped (lower_eq h "variable" || lower_eq h "variables") rest (λ l t.
          variable_rows-Runs rows (record l { list_var = none }) ((λ n e. absurd (cc)), t.1)))

read_tokens-Runs : (ts : List Token) → Runs IsTyped (read_tokens ts)
unfolding read_tokens
read_tokens-Runs [] = λ l t. (tt, t)
read_tokens-Runs (t ∷ ts) =
    bind-Runs IsTyped (read_token t) (λ _. read_tokens ts) (read_token-Runs t)
      (λ _. read_tokens-Runs ts)

raised-IsMalformed : {A : Type 0} (r : Result A) (e : Exn) → r ≡ raised e → IsSafe r → IsMalformed e
raised-IsMalformed (ok a) e h s = absurd (cc)
raised-IsMalformed (stop c t) e h s = absurd (cc)
raised-IsMalformed (raised x) e h s = subst IsMalformed (cc) s

-- The reading of a script never takes a variable of one type for one of another, nor a name for a
-- variable that is not there: what it raises is IndexError, UnboundLocalError or ValueError.
pub read_tokens_raises :
    (ts : List Token) (e : Exn) → (read_tokens ts no_locals).0 ≡ raised e → IsMalformed e
read_tokens_raises ts e h =
    raised-IsMalformed (read_tokens ts no_locals).0 e h
      (read_tokens-Runs ts no_locals ((λ n e. absurd (cc)), (λ n e. absurd (cc)))).0
