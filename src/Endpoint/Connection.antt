-- ===== src/Endpoint/Connection.antt =====
-- An endpoint's connection: the admission at the start of `rpc_proxy`, and `check_endpoint`, both of
-- webserver/task_runner/runner.py.
pub mod Admitted
use auto_test_system.Prelude.{
  ℕ, Bool, true, false, not, ◌||◌, Option, none, some, String, ◌==◌, if◌then◌else◌, opt_eq,
}
use auto_test_system.Exec.{
  Exec, pure, gets, or_raise, raise_if, when, invalid_id, attribute_error, assertion_error, ◌>>=◌,
  ◌>>◌,
}
use auto_test_system.Mongo.Defs.{Mongo, find_one}
use auto_test_system.Documents.{Endpoint, EndpointStatus, online, offline, forbidden, unauthorized}
use auto_test_system.World.{World}
use auto_test_system.Queue.{Handle}
use auto_test_system.Access.{Context, pk_of, by_id}
use auto_test_system.Store.{commit_endpoint}
use auto_test_system.Organization.{fetch}
use auto_test_system.Endpoint.{by_uid, new_endpoint}
use auto_test_system.Runner.Cancel.{endpoint_query}

abbrev pub is_forbidden : EndpointStatus → Bool
is_forbidden forbidden = true
is_forbidden _ = false

abbrev pub is_unauthorized : EndpointStatus → Bool
is_unauthorized unauthorized = true
is_unauthorized _ = false

abbrev pub is_offline : EndpointStatus → Bool
is_offline offline = true
is_offline _ = false

abbrev pub is_online : EndpointStatus → Bool
is_online online = true
is_online _ = false

-- What the endpoint is told; nothing where it has just been registered.
pub data Admission : Type 0 where
  forbidden_sent not_found_sent registered unauthorized_sent : Admission
  admitted : Handle Endpoint → Context → Admission

module _ (m : Mongo) (uuid : String → Option ℕ) where
  -- The organization and the team that `join_id` names
  unfoldable pub joined_by : String → Exec (World m) (Option Context)
  joined_by join_id = do
    organization ← by_id m (λ w. w.organizations) join_id
    team ← by_id m (λ w. w.teams) join_id
    elim organization [
      | some o ↦ pure (some (record { organization = o; team = team }))
      | none ↦ elim team [
        | none ↦ pure none
        | some t ↦ (do
          o ← fetch m (λ w. w.organizations) t.doc.organization
          pure (some (record { organization = o; team = some t })))
      ]
    ]

  -- An endpoint that joins elsewhere moves there, unauthorized.
  unfoldable pub rejoin : Handle Endpoint → Context → Exec (World m) (Handle Endpoint)
  rejoin e ctx =
      if not (opt_eq e.doc.organization (some ctx.organization.pk))
        || not (opt_eq e.doc.team (pk_of ctx.team))
      then (do
        commit_endpoint m e.pk (λ d. record d {
          organization = some ctx.organization.pk;
          team = pk_of ctx.team;
          status = unauthorized;
        })
        pure (record e {
          doc = record e.doc {
            organization = some ctx.organization.pk;
            team = pk_of ctx.team;
            status = unauthorized;
          };
        }))
      else pure e

  unfoldable pub admit_known : Handle Endpoint → Context → Exec (World m) Admission
  unfolding rejoin
  admit_known e ctx = do
    e' ← rejoin e ctx
    pure (if is_unauthorized e'.doc.status then unauthorized_sent else admitted e' ctx)

  -- What follows the search for the organization and the team
  unfoldable pub admit_joined :
      ℕ → Option (Handle Endpoint) → Option Context → Exec (World m) Admission
  unfolding admit_known
  admit_joined u endpoint none = pure not_found_sent
  admit_joined u none (some ctx) = new_endpoint m uuid u "" unauthorized ctx >> pure registered
  admit_joined u (some e) (some ctx) = admit_known e ctx

  unfoldable pub admit_found : ℕ → String → Option (Handle Endpoint) → Exec (World m) Admission
  unfolding joined_by admit_joined
  admit_found u join_id endpoint =
      if elim endpoint [ none ↦ false | some e ↦ is_forbidden e.doc.status ]
      then pure forbidden_sent
      else joined_by join_id >>= admit_joined u endpoint

  unfoldable pub admit : String → String → Exec (World m) Admission
  unfolding admit_found
  admit uid join_id = do
    u ← or_raise (uuid uid) invalid_id
    endpoint ← by_uid m uuid uid
    admit_found u join_id endpoint

  -- `answer` is the endpoint's list of keywords as a test, or `none` where the call has raised. The
  -- message of a failure names the endpoint, which raises where there is none.
  unfoldable pub check_endpoint : Option Bool → ℕ → Context → Exec (World m) Bool
  check_endpoint answer uid ctx = do
    raise_if
        (elim ctx.team [ none ↦ false | some t ↦ not (t.doc.organization == ctx.organization.pk) ])
        assertion_error
    found ←
        gets (λ w. find_one m (endpoint_query uid ctx.organization.pk (pk_of ctx.team)) w.endpoints)
    elim answer [
      | some true ↦ (do
        elim found [
          | none ↦ pure tt
          | some (k, e) ↦
              when (is_offline e.status) (commit_endpoint m k (λ d. record d { status = online }))
        ]
        pure true)
      | _ ↦ (do
        (k, e) ← or_raise found attribute_error
        when (is_online e.status) (commit_endpoint m k (λ d. record d { status = offline }))
        pure false)
    ]
