-- ===== src/Runner/Variables/Scanned.antt =====
-- What `convert_json_to_robot_variable` of webserver/task_runner/runner.py writes for one value.
use Prim.Native.Char.{Char, code}
use Prim.Native.String.{String}
use Prim.Native.String.append
use auto_test_system.Prelude.{
  ◌≡◌, refl, sym, ap, ◌∙◌, true, List, [], ◌∷◌, ◌++◌, ◌<>◌, ◌==◌, ==_iff, Bool-cases, inl, inr,
  some,
}
use text.Mathlib.TextEquality.{Char-path}
use text.Mathlib.TextLemmas.{append_assoc, append-nil}
use auto_test_system.Runner.Variables.{
  Piece, literal, reference, Mode, outside, dollar, inside, single, step, scan, Numbers,
  substituted, sub_type, sub_variable, SubType, plain, constant_of, type_with, replace_with,
}

-- The text of pieces.
abbrev pub text_of : List Piece → String
text_of [] = ""
text_of (literal s ∷ ps) = s <> text_of ps
text_of (reference s ∷ ps) = "${" <> (s <> ("}" <> text_of ps))

-- What has been read in a mode.
abbrev read : Mode → String
read outside = ""
read dollar = "$"
read (inside acc) = "${" <> acc

text_of-append : (ps qs : List Piece) → text_of (ps ++ qs) ≡ text_of ps <> text_of qs
text_of-append [] qs = sym (append.nil (text_of qs))
text_of-append (literal s ∷ ps) qs =
    ap (λ t. s <> t) (text_of-append ps qs) ∙ sym (append_assoc s (text_of ps) (text_of qs))
text_of-append (reference s ∷ ps) qs = rw (text_of-append ps qs) (simp (append_assoc))

single-of : (c d : Char) → (code c == code d) ≡ true → single c ≡ single d
single-of c d e = ap single (Char-path c d ((==_iff (code c) (code d)).0 e))

step-read :
    (mode : Mode) (c : Char)
    → text_of (step mode c).0 <> read (step mode c).1 ≡ read mode <> single c
step-read outside c = elim (Bool-cases (code c == b'$')) [
  | inl e ↦ rw (e, single-of c "$" e) refl
  | inr e ↦ rw e (simp (append-nil, append.nil))
]
step-read dollar c = elim (Bool-cases (code c == b'{')) [
  | inl e ↦ rw (e, single-of c "{" e) refl
  | inr e ↦ elim (Bool-cases (code c == b'$')) [
    | inl f ↦ rw (e, f, single-of c "$" f) refl
    | inr f ↦ rw (e, f) (simp (append-nil))
  ]
]
step-read (inside acc) c = elim (Bool-cases (code c == b'}')) [
  | inl e ↦ rw (e, single-of c "}" e) (simp (append-nil, append_assoc))
  | inr e ↦ elim (Bool-cases (code c == 10)) [
    | inl f ↦ rw (e, f) (simp (append-nil, append_assoc))
    | inr f ↦ rw (e, f) (simp (append_assoc, append.nil))
  ]
]

-- The pieces are the text: a scan loses nothing.
scan-read : (mode : Mode) (s : String) → text_of (scan mode s) ≡ read mode <> s
unfolding scan
scan-read outside String.[] = refl
scan-read dollar String.[] = refl
scan-read (inside acc) String.[] = refl
scan-read mode (String.◌∷◌ c s) =
    let (ps, next) = step mode c in
    text_of-append ps (scan next s)
    ∙ ap (λ t. text_of ps <> t) (scan-read next s)
    ∙ sym (append_assoc (text_of ps) (read next) s)
    ∙ ap (λ t. t <> s) (step-read mode c)
    ∙ append_assoc (read mode) (single c) s
    ∙ ap (λ t. read mode <> t) (append.cons c "" s ∙ ap (λ t. String.◌∷◌ c t) (append.nil s))

-- Pieces without a reference.
abbrev pub AreLiteral : List Piece → Type 0
AreLiteral [] = Unit {0}
AreLiteral (literal s ∷ ps) = AreLiteral ps
AreLiteral (reference s ∷ ps) = ⊥

module _ (n : Numbers) where
  substituted-literal : (ps : List Piece) → AreLiteral ps → substituted n ps ≡ text_of ps
  unfolding substituted
  substituted-literal [] h = refl
  substituted-literal (literal s ∷ ps) h = ap (λ t. s <> t) (substituted-literal ps h)
  substituted-literal (reference s ∷ ps) h = absurd h

  sub_type-literal : (t : SubType) (ps : List Piece) → AreLiteral ps → sub_type n t ps ≡ t
  unfolding sub_type
  sub_type-literal t [] h = refl
  sub_type-literal t (literal s ∷ ps) h = sub_type-literal t ps h
  sub_type-literal t (reference s ∷ ps) h = absurd h

  -- A value without a reference is written between single quotes as it is, quotes of its own included.
  pub sub_variable-plain :
      (v : String) → AreLiteral (scan outside v) → sub_variable n v ≡ "'" <> v <> "'"
  unfolding sub_variable
  sub_variable-plain v h =
      rw
        (
          sub_type-literal plain (scan outside v) h,
          substituted-literal (scan outside v) h,
          scan-read outside v,
          append.nil v,
        )
        refl

  substituted-append :
      (ps qs : List Piece) → substituted n (ps ++ qs) ≡ substituted n ps <> substituted n qs
  unfolding substituted
  substituted-append [] qs = sym (append.nil (substituted n qs))
  substituted-append (literal s ∷ ps) qs =
      rw (substituted-append ps qs) (sym (append_assoc s (substituted n ps) (substituted n qs)))
  substituted-append (reference s ∷ ps) qs = rw (substituted-append ps qs) (
      sym (append_assoc (replace_with n s (constant_of n s)) (substituted n ps) (substituted n qs)))

  sub_type-last :
      (t : SubType) (ps qs : List Piece) (c : String)
      → AreLiteral qs
      → sub_type n t (ps ++ (reference c ∷ qs)) ≡ type_with n (constant_of n c)
  unfolding sub_type
  sub_type-last t [] qs c h = sub_type-literal (type_with n (constant_of n c)) qs h
  sub_type-last t (literal s ∷ ps) qs c h = sub_type-last t ps qs c h
  sub_type-last t (reference s ∷ ps) qs c h =
      sub_type-last (type_with n (constant_of n s)) ps qs c h

  -- A value whose last reference is a constant is written without quotes, whatever stands before and
  -- behind that reference.
  pub sub_variable-constant :
      (v c t : String) (ps qs : List Piece)
      → scan outside v ≡ ps ++ (reference c ∷ qs)
      → AreLiteral qs
      → constant_of n c ≡ some t
      → sub_variable n v ≡ substituted n ps <> (t <> text_of qs)
  unfolding sub_variable substituted
  sub_variable-constant v c t ps qs e h k =
      rw (e, sub_type-last plain ps qs c h, k, substituted-append ps (reference c ∷ qs))
        (rw (k, substituted-literal qs h) refl)
