-- ===== src/Exec.antt =====
-- Coroutines that change a shared state, may return a response early, and may raise. What was
-- written before a raise stays written, so the state comes back on every path.
use auto_test_system.Prelude.{
  Bool, true, false, Option, none, some, if◌then◌else◌, String, ◌≡◌, refl, sym, subst, arith,
}

-- The exceptions that the modelled code can raise and that no clause of it catches there.
pub data Exn : Type 0 where
  -- `list.remove` of an absent item, a malformed number
  value_error : Exn
  -- an attribute of `None`, a missing key of a dict
  attribute_error key_error : Exn
  -- `assert` of a false condition
  assertion_error : Exn
  -- an operation on a value of another type
  type_error : Exn
  -- `failed to acquire queue lock`
  runtime_error : Exn
  -- an item past the end of a list, a local name before its first assignment
  index_error unbound_local_error : Exn
  -- the listing of a directory that is not there
  file_not_found : Exn
  -- a `commit`, `fetch` or `reload` of a document that is no longer stored
  document_missing : Exn
  -- `ObjectId` or `UUID` of a malformed text
  invalid_id : Exn
  -- a field that does not take a value
  validation_error : Exn
  -- a request that does not reach the other side
  connection_error : Exn
  -- an error status of a download, a failed read or write, a directory that is already there
  http_error os_error file_exists : Exn

pub data Code : Type 0 where
  success user_not_exist user_already_exist password_incorrect admin_token_required : Code
  token_illegal token_required unknown_error : Code
  eperm enoent eagain eacces eexist einval erange eio git_error : Code

-- `stop` is the early return of an error response, with its code and message.
pub data Result {ℓ} (A : Type ℓ) : Type ℓ where
  ok : A → Result A
  stop : Code → String → Result A
  raised : Exn → Result A

abbrev pub Exec {ℓ} : Type ℓ → Type ℓ → Type ℓ
Exec S A = S → Result A × S

module _ {ℓ} {S A : Type ℓ} where
  abbrev pub pure : A → Exec S A
  pure a s = (ok a, s)

  abbrev pub respond : Code → String → Exec S A
  respond c m s = (stop c m, s)

  abbrev pub raise : Exn → Exec S A
  raise e s = (raised e, s)

  abbrev pub gets : (S → A) → Exec S A
  gets f s = (ok (f s), s)

  -- `if x is None: return ...` for a value that is used afterwards.
  abbrev pub or_respond : Option A → Code → String → Exec S A
  or_respond none c m = respond c m
  or_respond (some a) c m = pure a

  abbrev pub or_raise : Option A → Exn → Exec S A
  or_raise none e = raise e
  or_raise (some a) e = pure a

-- What follows a call that ended in `r`: the rest of the body, unless the call has ended the body too.
abbrev pub resume {ℓ} : {S A B : Type ℓ} → Result A → (A → Exec S B) → Exec S B
resume (ok a) f s = f a s
resume (stop c t) f s = (stop c t, s)
resume (raised e) f s = (raised e, s)

infixl 5 ◌>>=◌ ◌>>◌
abbrev pub ◌>>=◌ {ℓ} : {S A B : Type ℓ} → Exec S A → (A → Exec S B) → Exec S B
◌>>=◌ m f s = resume (m s).0 f (m s).1

abbrev pub ◌>>◌ {ℓ} : {S A B : Type ℓ} → Exec S A → Exec S B → Exec S B
m >> k = m >>= λ _. k

abbrev pub modify : {S : Type 0} → (S → S) → Exec S (Unit {0})
modify f s = (ok tt, f s)

-- `if test: return json(response_message(code, message))`
abbrev pub stop_if : {S : Type 0} → Bool → Code → String → Exec S (Unit {0})
stop_if true c m = respond c m
stop_if false c m = pure tt

abbrev pub raise_if : {S : Type 0} → Bool → Exn → Exec S (Unit {0})
raise_if true e = raise e
raise_if false e = pure tt

abbrev pub when : {S : Type 0} → Bool → Exec S (Unit {0}) → Exec S (Unit {0})
when b m s = if b then m s else (ok tt, s)

resume-eq-ok {ℓ} :
    {S A B : Type ℓ} (r : Result A) (f : A → Exec S B) (s : S) (b : B)
    → (resume r f s).0 ≡ ok b
    → (a : A) × (r ≡ ok a) × (resume r f s ≡ f a s)
resume-eq-ok (ok a) f s b h = (a, refl, refl)
resume-eq-ok (stop c t) f s b h = cc
resume-eq-ok (raised e) f s b h = cc

-- A body that returns has gone on from a call that returned.
pub >>=-eq-ok {ℓ} :
    {S A B : Type ℓ} (m : Exec S A) (f : A → Exec S B) (s : S) (b : B)
    → ((m >>= f) s).0 ≡ ok b
    → (a : A) × ((m s).0 ≡ ok a) × ((m >>= f) s ≡ f a (m s).1)
>>=-eq-ok m f s b h = resume-eq-ok (m s).0 f (m s).1 b h

-- A postcondition of the runs that return.
abbrev pub Post {ℓ κ} : {S A : Type ℓ} → (A → S → Type κ) → Result A × S → Type (ℓ ⊔ κ)
Post P p = (a : _) → p.0 ≡ ok a → P a p.1

module _ {ℓ κ} {S A B : Type ℓ} (P : B → S → Type κ) (m : Exec S A) (f : A → Exec S B) (s : S) where
  pub Post-bind_with :
      (Q : A → S → Type κ)
      → Post Q (m s)
      → ((a : A) (t : S) → Q a t → Post P (f a t))
      → Post P ((m >>= f) s)
  Post-bind_with Q first rest b done =
      let (a, returned, same) = >>=-eq-ok m f s b done in
      subst (λ p. P b p.1) (sym same)
        (rest a (m s).1 (first a returned) b (subst (λ p. p.0 ≡ ok b) same done))

  pub Post-bind : ((a : A) (t : S) → Post P (f a t)) → Post P ((m >>= f) s)
  Post-bind rest b done =
      let (a, returned, same) = >>=-eq-ok m f s b done in
      subst (λ p. P b p.1) (sym same) (rest a (m s).1 b (subst (λ p. p.0 ≡ ok b) same done))

pub Post-pure {ℓ κ} :
    {S A : Type ℓ} (P : A → S → Type κ) (a : A) (s : S) → P a s → Post P (pure a s)
Post-pure P a s h b e = ground (arith, h)

-- A call that leaves the state as it is, however it ends.
abbrev pub IsStill : {S A : Type 0} → Exec S A → Type 0
IsStill {S = S} m = (s : S) → (m s).1 ≡ s

pub resume-IsStill :
    {S A B : Type 0} (r : Result A) (f : A → Exec S B) (s : S)
    → ((a : A) → IsStill (f a))
    → (resume r f s).1 ≡ s
resume-IsStill (ok a) f s h = h a s
resume-IsStill (stop c t) f s h = refl
resume-IsStill (raised e) f s h = refl

pub bind-IsStill :
    {S A B : Type 0} (m : Exec S A) (f : A → Exec S B)
    → IsStill m
    → ((a : A) → IsStill (f a))
    → IsStill (m >>= f)
bind-IsStill m f first rest s =
    subst (λ t. (resume (m s).0 f t).1 ≡ s) (sym (first s)) (resume-IsStill (m s).0 f s rest)

pub or_raise-IsStill : {S A : Type 0} (o : Option A) (e : Exn) → IsStill {S = S} (or_raise o e)
or_raise-IsStill none e s = refl
or_raise-IsStill (some a) e s = refl

-- What comes behind a call that leaves the state as it is runs from the same state.
pub Post-bind_still :
    {S A B : Type 0} (P : B → S → Type 0) (m : Exec S A) (f : A → Exec S B) (s : S)
    → IsStill m
    → ((a : A) → Post P (f a s))
    → Post P ((m >>= f) s)
Post-bind_still P m f s still rest =
    Post-bind_with P m f s (λ a t. t ≡ s) (λ a e. still s)
      (λ a t same. subst (λ u. Post P (f a u)) (sym same) (rest a))

resume-agree :
    {S A B : Type 0} (r : Result A) (f g : A → Exec S B) (s : S)
    → ((a : A) → r ≡ ok a → f a s ≡ g a s)
    → resume r f s ≡ resume r g s
resume-agree (ok a) f g s h = h a refl
resume-agree (stop c t) f g s h = refl
resume-agree (raised e) f g s h = refl

-- Two bodies that agree on what a call returns agree behind the call.
pub bind-agree :
    {S A B : Type 0} (m : Exec S A) (f g : A → Exec S B) (s : S)
    → ((a : A) → (m s).0 ≡ ok a → f a (m s).1 ≡ g a (m s).1)
    → (m >>= f) s ≡ (m >>= g) s
bind-agree m f g s = resume-agree (m s).0 f g (m s).1

resume-keeps :
    {S A B : Type 0} (P : S → Type 0) (r : Result A) (f : A → Exec S B) (s : S)
    → P s
    → ((a : A) → r ≡ ok a → P (f a s).1)
    → P (resume r f s).1
resume-keeps P (ok a) f s h rest = rest a refl
resume-keeps P (stop c t) f s h rest = h
resume-keeps P (raised e) f s h rest = h

-- A property of the states that a body and its rest both keep, where the rest may rely on the call.
pub bind-keeps :
    {S A B : Type 0} (P : S → Type 0) (m : Exec S A) (f : A → Exec S B) (s : S)
    → P (m s).1
    → ((a : A) → (m s).0 ≡ ok a → P (f a (m s).1).1)
    → P ((m >>= f) s).1
bind-keeps P m f s = resume-keeps P (m s).0 f (m s).1

-- A call that keeps a property of the states, however it ends.
abbrev pub Keeps : {S A : Type 0} → (S → Type 0) → Exec S A → Type 0
Keeps {S = S} P m = (s : S) → P s → P (m s).1

pub bind-Keeps :
    {S A B : Type 0} (P : S → Type 0) (m : Exec S A) (f : A → Exec S B)
    → Keeps P m
    → ((a : A) → Keeps P (f a))
    → Keeps P (m >>= f)
bind-Keeps P m f first rest s h = bind-keeps P m f s (first s h) (λ a e. rest a (m s).1 (first s h))
