-- ===== src/Results.antt =====
-- webserver/app/main/controller/testresult_controller.py: a running test tells the server that a test
-- case begins and how it ends. The payload of an update is taken to be an object of texts.
pub mod Last
pub mod Reported
use Prim.Native.String.{String}
use auto_test_system.Prelude.{
  ℕ, suc, Bool, true, false, not, ◌&&◌, ◌||◌, Option, none, some, List, [], ◌∷◌, ◌++◌, str_eq,
  if◌then◌else◌, is_empty, ltb,
}
use auto_test_system.Exec.{
  Exec, Result, Exn, ok, stop, raised, pure, gets, or_respond, or_raise, stop_if, modify, einval,
  enoent, attribute_error, index_error, key_error, validation_error, ◌>>=◌, ◌>>◌,
}
use auto_test_system.Mongo.Defs.{Mongo}
use auto_test_system.Documents.{Task, TestResult, Endpoint}
use auto_test_system.World.{World}
use auto_test_system.Queue.{Handle, commit_task}
use auto_test_system.Store.{commit_result}
use auto_test_system.Util.{nonempty}
use auto_test_system.Text.{fits}
use auto_test_system.Access.{by_id}
use auto_test_system.Organization.{fetch}
use auto_test_system.Markdown.{put}

abbrev pub last : List ℕ → Option ℕ
last [] = none
last (x ∷ []) = some x
last (x ∷ (y ∷ r)) = last (y ∷ r)

-- A new result fails until it is updated.
abbrev pub new_result : ℕ → String → String → TestResult
new_result task test_case site = record {
  test_case = test_case;
  test_site = some site;
  task = some task;
  summary = none;
  status = "FAIL";
  more_result = [];
}

-- The class of documents, as umongo makes it.
pub record ResultClass : Type 0 where
  -- whether `getattr(TestResult, name, None)` is not `None`
  pub has_attribute : String → Bool
  -- whether a field that the model leaves out takes a text; `none` where there is no such field
  pub other_field : String → String → Option Bool

abbrev checked : Bool → TestResult → Result TestResult
checked true r = ok r
checked false r = raised validation_error

abbrev pub with_other : Option Bool → TestResult → Result TestResult
with_other none r = raised key_error
with_other (some b) r = checked b r

abbrev with_task : Option ℕ → TestResult → Result TestResult
with_task none r = raised validation_error
with_task (some t) r = ok (record r { task = some t })

abbrev pub and_then : Result TestResult → (TestResult → Result TestResult) → Result TestResult
and_then (ok r) f = f r
and_then (stop c t) f = stop c t
and_then (raised e) f = raised e

module _ (m : Mongo) (class : ResultClass) where
  -- `cur_test_result[k] = v`
  abbrev pub set_field : String → String → TestResult → Result TestResult
  set_field k v r =
      if str_eq k "status"
      then checked (fits 10 v) (record r { status = v })
      else if str_eq k "test_case"
      then checked (fits 100 v) (record r { test_case = v })
      else if str_eq k "test_site"
      then checked (fits 50 v) (record r { test_site = some v })
      else if str_eq k "summary"
      then checked (fits 200 v) (record r { summary = some v })
      else if str_eq k "task"
      then with_task (m.object_id v) r
      else with_other (class.other_field k v) r

  abbrev pub set_item : String → String → TestResult → Result TestResult
  set_item k v r =
      if not (str_eq k "more_result") && class.has_attribute k
      then set_field k v r
      else ok (record r { more_result = put k v r.more_result })

  unfoldable pub set_items : List (String × String) → TestResult → Result TestResult
  set_items [] r = ok r
  set_items ((k, v) ∷ items) r = and_then (set_item k v r) (set_items items)

  -- The coroutine goes on with a computed value, or raises what the computation raised.
  abbrev pub lift : {A : Type 0} → Result A → Exec (World m) A
  lift r w = (r, w)

  unfoldable pub update_result : String → List (String × String) → Exec (World m) (Unit {0})
  update_result task_id items = do
    found ← by_id m (λ w. w.tasks) task_id
    task ← or_respond found enoent "Task not found"
    current ←
        or_respond (last task.doc.test_results) enoent
          "The tasks's test result has not been created"
    result ← fetch m (λ w. w.test_results) current
    changed ← lift (set_items items result.doc)
    commit_result m current (λ d. changed)

module _ (m : Mongo) where
  unfoldable pub create_result : Option String → Option String → Exec (World m) (Unit {0})
  create_result task_id test_case = do
    id ← or_respond (nonempty task_id) einval "Field task_id is required"
    found ← by_id m (λ w. w.tasks) id
    task ← or_respond found enoent "Task not found"
    case ← or_respond test_case einval "Field test_case is required"
    site ← or_raise task.doc.endpoint_run attribute_error
    endpoint ← fetch m (λ w. w.endpoints) site
    stop_if (not (fits 100 case) || not (fits 50 endpoint.doc.name)) einval
        "Test result validation failed"
    rid ← gets (λ w. m.new_id w.test_results)
    modify (λ w. record w {
      test_results = m.insert w.test_results rid (new_result task.pk case endpoint.doc.name);
    })
    commit_task m task.pk (λ d. record d { test_results = task.doc.test_results ++ (rid ∷ []) })
