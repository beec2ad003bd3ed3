-- ===== src/Util.antt =====
-- webserver/app/main/util/__init__.py: values from JavaScript, and the rooms of the notifications.
use auto_test_system.Prelude.{
  ℕ, Bool, false, ◌||◌, Option, none, some, String, ◌<>◌, str_eq, ◌==◌, if◌then◌else◌,
}

-- A value of a request's JSON body or query string.
pub data Value : Type 0 where
  null : Value
  flag : Bool → Value
  num : ℕ → Value
  text : String → Value
  -- a list or an object; the flag says whether it is empty
  container : Bool → Value

-- `bool(value) == value and value` holds for `True`, for `1`, and for no text or container.
unfoldable pub js2python_bool : Value → Bool
js2python_bool (text s) = str_eq s "True" || str_eq s "true"
js2python_bool (flag b) = b
js2python_bool (num n) = n == 1
js2python_bool _ = false

unfoldable pub js2python_variable : Option String → Option String
js2python_variable none = none
js2python_variable (some s) =
    if str_eq s "" || str_eq s "undefined" || str_eq s "null" then none else some s

-- `data.get(field, None)` followed by `if not value`
abbrev pub nonempty : Option String → Option String
nonempty none = none
nonempty (some s) = if str_eq s "" then none else some s

pub get_room_id : String → Option String → String
get_room_id organization none = organization <> ":" <> ""
get_room_id organization (some team) = organization <> ":" <> team
