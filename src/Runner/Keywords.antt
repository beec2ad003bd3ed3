-- ===== src/Runner/Keywords.antt =====
-- webserver/task_runner/util/xmlrpcserver.py: the calls of a robot process that go on to an endpoint. The
-- remote call is a parameter: it is given the number of calls before it, and `none` is an exception.
use auto_test_system.Prelude.{
  ℕ, zero, suc, ◌+◌, ◌<◌, ◌≡◌, Bool, true, false, Option, none, some, List, [], String, str_eq,
  if◌then◌else◌, arith, Option-cases, inl, inr,
}

-- `None` for a path without an endpoint, the endpoint's own answer, or a failure: of the call itself, or
-- because the endpoint has not connected in time.
pub data Answer (A : Type 0) : Type 0 where
  absent : Answer A
  answered : A → Answer A
  call_failed timed_out : Answer A

abbrev pub keyword_tries : ℕ
keyword_tries = 10

module _ {A : Type 0} (call : ℕ → Option A) where
  -- The tries left and the calls made; the answer comes with the calls made.
  unfoldable pub try_keyword : String → ℕ → ℕ → Answer A × ℕ
  try_keyword name zero made = (timed_out, made)
  try_keyword name (suc left) made =
      let rest = try_keyword name left (suc made) in
      elim (call made) [
        | some a ↦ (answered a, suc made)
        | none ↦ if str_eq name "start_test" then rest else (call_failed, suc made)
      ]

  unfoldable pub run_keyword : Bool → String → Answer A × ℕ
  unfolding try_keyword
  run_keyword false name = (absent, 0)
  run_keyword true name = try_keyword name keyword_tries 0

-- `get_keyword_names`: no names without an endpoint; otherwise one call, and what it raises goes on.
unfoldable pub get_keyword_names : {A : Type 0} → Bool → Option (List A) → Option (List A)
get_keyword_names false reply = some []
get_keyword_names true reply = reply

-- `get_keyword_arguments`, `get_keyword_documentation` and `get_keyword_tags`: the answer to
-- `stop_remote_server` is the server's own.
unfoldable pub about_keyword : {A : Type 0} → Bool → A → String → Option A → Option (Option A)
about_keyword false own name reply = some none
about_keyword true own name reply =
    if str_eq name "stop_remote_server"
    then some (some own)
    else elim reply [ none ↦ none | some a ↦ some (some a) ]

module _ {A : Type 0} (call : ℕ → Option A) where
  try_connects :
      (left made k : ℕ) (a : A)
      → k < left
      → ((i : ℕ) → i < k → call (made + i) ≡ none)
      → call (made + k) ≡ some a
      → try_keyword call "start_test" left made ≡ (answered a, suc (made + k))
  unfolding try_keyword
  try_connects zero made k a bound before e = ground (arith, bound)
  try_connects (suc left) made zero a bound before e = ground (arith, e)
  try_connects (suc left) made (suc k) a bound before e = ground (
    arith,
    before 0 (omega arith),
    e,
    try_connects left (suc made) k a (omega (arith, bound))
        (λ i h. ground (arith, before (suc i) (omega (arith, h)))) (ground (arith, e)),
  )

  -- A start of a test whose call first succeeds at its k-th try, counted from 0 and below ten, is answered by that try,
  -- and no further call is made.
  pub start_test_connects :
      (k : ℕ) (a : A)
      → k < keyword_tries
      → ((i : ℕ) → i < k → call i ≡ none)
      → call k ≡ some a
      → run_keyword call true "start_test" ≡ (answered a, suc k)
  unfolding run_keyword
  start_test_connects k a bound before e = ground (
    arith,
    try_connects keyword_tries 0 k a bound (λ i h. ground (arith, before i h)) (ground (arith, e)),
  )

  -- Any other keyword is called once.
  pub called_once :
      (name : String) → str_eq name "start_test" ≡ false → (run_keyword call true name).1 ≡ 1
  unfolding run_keyword try_keyword
  called_once name e = elim (Option-cases (call 0)) [
    | inl f ↦ ground (arith, f, e)
    | inr (a, f) ↦ ground (arith, f)
  ]
