-- ===== src/Auth/Session.antt =====
-- A session: what logging in, using the token and logging out have to do with each other.
use auto_test_system.Prelude.{ℕ, ◌≡◌, true, false, some, String, str_eq, eq_iff, arith}
use auto_test_system.Exec.{ok, stop, token_illegal}
use auto_test_system.Mongo.Defs.{Mongo, IsLawful}
use auto_test_system.Mongo.Find.{find_one-present}
use auto_test_system.World.{World}
use auto_test_system.Access.{get_logged_in_user, decode_auth_token, check_blacklist}
use auto_test_system.Auth.{Tokens, logout_user, save_token}

module _ (m : Mongo) (L : IsLawful m) (tk : Tokens) where
  -- A token that is stored on the list is found there.
  check_blacklist-stored :
      (token : String) (k : ℕ) (w : World m)
      → m.get w.blacklist k ≡ some token
      → check_blacklist m tk.decode token w ≡ true
  unfolding check_blacklist
  check_blacklist-stored token k w e =
      find_one-present m (λ t. str_eq t token) w.blacklist L k
        (ground (arith, e, eq_iff token token))

  abbrev listed : String → World m → World m
  listed token w = record w { blacklist = m.insert w.blacklist (m.new_id w.blacklist) token }

  check_blacklist-listed :
      (token : String) (w : World m) → check_blacklist m tk.decode token (listed token w) ≡ true
  check_blacklist-listed token w =
      check_blacklist-stored token (m.new_id w.blacklist) (listed token w) (
        ground (
          arith,
          L.get-insert String w.blacklist (m.new_id w.blacklist) (m.new_id w.blacklist) token,
        ))

  logout_run :
      (token : String) (w : World m)
      → (logout_user m tk (some token) w).0 ≡ ok tt
      → logout_user m tk (some token) w ≡ (ok tt, listed token w)
  unfolding logout_user save_token
  logout_run token w h = ground arith

  -- A token with which a user has logged out is refused from then on.
  pub logged_out_refused :
      (token : String) (w : World m)
      → str_eq token "" ≡ false
      → (logout_user m tk (some token) w).0 ≡ ok tt
      → let w' = (logout_user m tk (some token) w).1 in
        get_logged_in_user m tk.decode (some token) w' ≡ (stop token_illegal "", w')
  unfolding get_logged_in_user decode_auth_token
  logged_out_refused token w full done =
      rw (logout_run token w done) (ground (arith, full, check_blacklist-listed token w))
