-- ===== src/Documents.antt =====
-- The documents of webserver/app/main/model/database.py. A reference field holds the `_id` of its
-- target; `None` and a missing field are `none`. Times, avatars and free texts that no modelled
-- operation reads are left out.
use auto_test_system.Prelude.{ℕ, Bool, Option, List, [], ◌∷◌, String}

abbrev pub queue_priority_min : ℕ
queue_priority_min = 1

abbrev pub queue_priority_default : ℕ
queue_priority_default = 2

abbrev pub queue_priority_max : ℕ
queue_priority_max = 3

-- `QUEUE_PRIORITY`, highest first
abbrev pub queue_priority : List ℕ
queue_priority = queue_priority_max ∷ queue_priority_default ∷ queue_priority_min ∷ []

abbrev pub lock_timeout : ℕ
lock_timeout = 20

pub data TaskStatus : Type 0 where
  waiting running successful failed cancelled : TaskStatus

pub record Task : Type 0 where
  pub test : Option ℕ
  pub test_suite : String
  pub status : TaskStatus
  pub kickedoff : ℕ
  pub endpoint_list : List ℕ
  pub parallelization : Bool
  pub endpoint_run : Option ℕ
  pub test_results : List ℕ
  pub priority : ℕ
  pub organization : Option ℕ
  pub team : Option ℕ

pub record TaskQueue : Type 0 where
  pub priority : ℕ
  pub tasks : List ℕ
  pub endpoint : ℕ
  pub running_task : Option ℕ
  pub rw_lock : Bool
  pub organization : Option ℕ
  pub team : Option ℕ
  pub to_delete : Bool

pub data EndpointStatus : Type 0 where
  online offline forbidden unauthorized : EndpointStatus

pub record Endpoint : Type 0 where
  pub uid : ℕ
  pub name : String
  pub status : EndpointStatus
  pub enable : Bool
  pub tests : List ℕ
  pub organization : Option ℕ
  pub team : Option ℕ

abbrev pub event_code_start_task : ℕ
event_code_start_task = 200

abbrev pub event_code_cancel_task : ℕ
event_code_cancel_task = 201

abbrev pub event_code_update_user_script : ℕ
event_code_update_user_script = 202

abbrev pub event_code_get_endpoint_config : ℕ
event_code_get_endpoint_config = 208

-- The dictionary that travels with an event. An empty `endpoint_uid` is `none`.
pub record Message : Type 0 where
  pub endpoint_uid : Option ℕ
  pub priority : ℕ
  pub task_id : ℕ
  pub to_delete : Bool

pub data EventStatus : Type 0 where
  triggered processed cancelled : EventStatus

pub record Event : Type 0 where
  pub code : ℕ
  pub message : Message
  pub organization : ℕ
  pub team : Option ℕ
  pub status : EventStatus

pub record EventQueue : Type 0 where
  pub events : List ℕ
  pub rw_lock : Bool

pub record User : Type 0 where
  pub email : String
  pub name : String
  pub roles : List String
  pub organizations : List ℕ
  pub teams : List ℕ

pub record Organization : Type 0 where
  pub name : String
  pub owner : ℕ
  pub members : List ℕ
  pub teams : List ℕ
  pub personal : Bool
  pub editors : List ℕ

pub record Team : Type 0 where
  pub name : String
  pub owner : ℕ
  pub members : List ℕ
  pub organization : ℕ
  pub editors : List ℕ

-- A Robot Framework variable: a text, a list or a dictionary, by the sign before its name.
pub data Variable : Type 0 where
  scalar : String → Variable
  items : List String → Variable
  entries : List (String × String) → Variable

pub record Test : Type 0 where
  pub test_suite : String
  pub path : String
  pub test_cases : List String
  pub variables : List (String × Variable)
  pub test_package : Option ℕ
  pub package_version : Option String
  pub organization : Option ℕ
  pub team : Option ℕ

pub record TestResult : Type 0 where
  pub test_case : String
  pub test_site : Option String
  pub task : Option ℕ
  pub summary : Option String
  pub status : String
  pub more_result : List (String × String)

pub record PackageFile : Type 0 where
  pub filename : String
  pub name : String
  pub version : String
  pub uploader : Option ℕ
  pub download_times : ℕ

pub record Package : Type 0 where
  pub package_type : String
  pub name : String
  pub files : List ℕ
  pub proprietary : Bool
  pub download_times : ℕ
  pub organization : Option ℕ
  pub team : Option ℕ
  pub uploader : Option ℕ
  pub py_packages : List String
  pub modified : Bool

-- A page of the documentation.
pub record Documentation : Type 0 where
  pub filename : String
  pub path : String
  pub uploader : Option ℕ
  pub last_modifier : Option ℕ
  pub organization : Option ℕ
  pub team : Option ℕ
  pub view_times : ℕ
  pub proprietary : Bool
  pub locked : Bool
  pub language : String
