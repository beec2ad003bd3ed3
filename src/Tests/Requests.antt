-- ===== src/Tests/Requests.antt =====
-- The theorems on requests at a small installation: a member with a token, and a task to run.
use auto_test_system.Prelude.{
  arith, contains, ◌≡◌, ◌≢◌, refl, true, false, Option, none, some, [], ◌∷◌, String, str_eq,
}
use auto_test_system.Exec.{Post, ok, stop, token_illegal}
use auto_test_system.Mongo.Assoc.{assoc, assoc_with-IsLawful}
use auto_test_system.Documents.{Team, EventStatus, User, Organization}
use auto_test_system.World.{World}
use auto_test_system.Queue.{Handle}
use auto_test_system.Util.{flag, js2python_bool}
use auto_test_system.Access.{Context, get_logged_in_user, organization_team_required, task_required}
use auto_test_system.Access.Guards.{Joined, organization_team_required-Joined}
use auto_test_system.Auth.{Tokens, logout_user, save_token}
use auto_test_system.Auth.Session.{logged_out_refused}
use auto_test_system.Tasks.{RunRequest, post_task}
use auto_test_system.Tasks.Schedule.{parallel_never_succeeds}
use auto_test_system.Store.{organizations_of, members_of, commit_user}
use auto_test_system.Organization.{join_organization, delete_tests}
use auto_test_system.Organization.Member.{IsMutual, Names, join-IsMutual}
use auto_test_system.Endpoint.Connection.{admit}
use auto_test_system.Endpoint.Connection.Admitted.{IsMember, admit-IsMember}
use auto_test_system.Mongo.Defs.{find_one, find}
use auto_test_system.Account.{delete_owned_organization, delete_contents}
use auto_test_system.Account.Deletion.{delete_owned_organization-contains}
use auto_test_system.Tests.Data.{quiet, site}

abbrev member : Handle User
member = record {
  pk = 1;
  doc = record { email = "a@b"; name = "a"; roles = []; organizations = 1 ∷ []; teams = [] };
}

abbrev company : Handle Organization
company = record {
  pk = 1;
  doc = record {
    name = "company";
    owner = 1;
    members = 1 ∷ [];
    teams = [];
    personal = false;
    editors = [];
  };
}

abbrev office : World assoc
office = record site {
  users = (1, member.doc) ∷ [];
  organizations = (1, company.doc) ∷ [];
  tests =
      (
        1,
        record {
          test_suite = "demo";
          path = "d";
          test_cases = [];
          variables = [];
          test_package = none;
          package_version = none;
          organization = some 1;
          team = none;
        },
      )
      ∷ [];
}

-- Every token stands for itself.
abbrev valid : String → Option String
valid t = some t

abbrev ctx : Context
ctx = record { organization = company; team = none }

abbrev crew : Handle Team
crew = record {
  pk = 2;
  doc = record { name = "crew"; owner = 1; members = 1 ∷ []; organization = 1; editors = [] };
}

abbrev crew_member : Handle User
crew_member = record member { doc = record member.doc { teams = 2 ∷ [] } }

abbrev crew_office : World assoc
crew_office = record office { users = (1, crew_member.doc) ∷ []; teams = (2, crew.doc) ∷ [] }

-- The user has joined the team that the request names.
organization_team_required-Joined_example :
    let (r, w') =
      organization_team_required assoc valid (some "1") (some "2") crew_member crew_office in
    (w' ≡ crew_office)
    × ((c : Context)
        → r ≡ ok c
        → Joined assoc valid (some "1") (some "2") crew_member crew_office c)
organization_team_required-Joined_example =
    organization_team_required-Joined assoc valid (some "1") (some "2") crew_member crew_office

abbrev tokens : Tokens
tokens = record {
  encode = λ s. some s;
  decode = valid;
  check_password_hash = str_eq;
  generate_password_hash = λ s. s;
  id_text = λ _. "1";
}

logged_out : (logout_user assoc tokens (some "t") office).0 ≡ ok tt
unfolding logout_user save_token auto_test_system.Access.decode_auth_token
    auto_test_system.Mongo.Defs.find_one
logged_out = refl

logged_out_refused_example :
    let w' = (logout_user assoc tokens (some "t") office).1 in
    get_logged_in_user assoc valid (some "t") w' ≡ (stop token_illegal "", w')
logged_out_refused_example =
    logged_out_refused assoc (assoc_with-IsLawful true) tokens "t" office refl logged_out

abbrev request : RunRequest
request = record {
  test_suite = some "demo";
  path = some "d";
  endpoint_list = some (some ("7" ∷ []));
  priority = none;
  parallelization = flag true;
  variables_is_dict = true;
  test_cases_is_list = true;
}

parallel_never_succeeds_example :
    (post_task assoc (λ _. some 7) quiet request ctx office).0
    ≢ ok (record { failed = []; succeeded = 12 ∷ []; running = [] })
parallel_never_succeeds_example =
    parallel_never_succeeds assoc (λ _. some 7) quiet request ctx office
      (record { failed = []; succeeded = 12 ∷ []; running = [] }) (unfold js2python_bool in refl)

-- A second organization that nobody has joined
abbrev club : Handle Organization
club = record {
  pk = 2;
  doc = record {
    name = "club";
    owner = 9;
    members = [];
    teams = [];
    personal = false;
    editors = [];
  };
}

abbrev town : World assoc
town = record office { organizations = (1, company.doc) ∷ (2, club.doc) ∷ [] }

town-IsMutual : IsMutual assoc town
town-IsMutual u o = ground (arith)

club-Names : Names assoc (some "2") town club
club-Names = record { key = "2"; given = refl; parsed = refl; stored = refl }

join-IsMutual_example :
    let (r, w') = join_organization assoc (some "2") member town in
    (r ≡ ok tt)
    × IsMutual assoc w'
    × (contains 1 (members_of assoc w' 2) ≡ true)
    × (contains 2 (organizations_of assoc w' 1) ≡ true)
join-IsMutual_example =
    join-IsMutual assoc (some "2") club member town club-Names refl (assoc_with-IsLawful true)
      town-IsMutual

admit-IsMember_example :
    Post (IsMember assoc (λ _. some 7)) (admit assoc (λ _. some 7) "7" "1" office)
admit-IsMember_example = admit-IsMember assoc (λ _. some 7) "7" "1" office

-- An event with the code 500, which no handler has
abbrev stray : World assoc
stray = record office {
  events =
      (
        20,
        record {
          code = 500;
          message = record { endpoint_uid = none; priority = 2; task_id = 11; to_delete = false };
          organization = 1;
          team = none;
          status = EventStatus.triggered;
        },
      )
      ∷ [];
}

-- A request for another organization than the endpoint's
abbrev foreign : Context
foreign = record { organization = club; team = none }

-- An organization with queues is never deleted this way.
abbrev bare_office : World assoc
bare_office = record office { task_queues = [] }

delete_owned_organization-contains_example : contains 1 member.doc.organizations ≡ true
unfolding delete_owned_organization find commit_user delete_tests delete_contents
delete_owned_organization-contains_example =
    delete_owned_organization-contains assoc (assoc_with-IsLawful true) 1 bare_office refl 1
      member.doc refl
