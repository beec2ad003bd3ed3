-- ===== src/Endpoint/Forbidden.antt =====
-- What forbidding an endpoint does, and to whose endpoints.
use auto_test_system.Prelude.{ℕ, ◌≡◌, ◌≢◌, refl, Option, some, String, ◌==◌, ==_refl, arith}
use auto_test_system.Exec.{ok}
use auto_test_system.Mongo.Defs.{Mongo, IsLawful, find_one}
use auto_test_system.Mongo.Find.{find_one-Sound}
use auto_test_system.Documents.{Endpoint, EndpointStatus}
use auto_test_system.World.{World}
use auto_test_system.Access.{Context}
use auto_test_system.Store.{commit_endpoint_ok, set_endpoint}
use auto_test_system.Endpoint.{forbid}

module _ (m : Mongo) (L : IsLawful m) (uuid : String → Option ℕ) where
  -- Forbidding a known endpoint stores it as forbidden and changes nothing else of it or of another
  -- endpoint, whichever organization and team the request is for.
  pub forbid_lem :
      (s : String) (u k : ℕ) (d : Endpoint) (ctx : Context) (w : World m)
      → uuid s ≡ some u
      → find_one m (λ e. e.uid == u) w.endpoints ≡ some (k, d)
      → let (r, w') = forbid m uuid (some s) ctx w in
        (r ≡ ok tt)
        × (m.get w'.endpoints k ≡ some (record d { status = EndpointStatus.forbidden }))
        × ((j : ℕ) → k ≢ j → m.get w'.endpoints j ≡ m.get w.endpoints j)
  unfolding forbid
  forbid_lem s u k d ctx w parsed found =
      let e = (find_one-Sound m (λ x. x.uid == u) w.endpoints k d found).0 in
      let run : forbid m uuid (some s) ctx w
          ≡ (ok tt, set_endpoint m k (λ x. record x { status = EndpointStatus.forbidden }) w) =
        ground (
          arith,
          parsed,
          found,
          commit_endpoint_ok m k (λ x. record x { status = EndpointStatus.forbidden }) w e,
        ) in
      rw run (refl, simp (L.get-update, ==_refl, e), λ j h. simp L.get-update (ground arith))
