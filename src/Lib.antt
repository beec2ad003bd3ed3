-- ===== src/Lib.antt =====
-- Auto-Test-System: a distributed test automation server over Robot Framework. A web server takes
-- requests, a task runner in the same process starts robot processes for the tasks that wait in the
-- queues of each test endpoint, and the endpoints connect back over websockets.
--
-- Prelude.antt and Exec.antt hold the shared names and the monad of coroutines that change the shared
-- state, return a response early or raise. Mongo/Defs.antt is the document database (MongoDB through
-- umongo and Motor): an interface with laws, which every model takes as a parameter; Mongo/Find.antt
-- has what a query returns, and Mongo/Assoc.antt is a concrete database at which the models run.
-- Documents.antt has the documents of webserver/app/main/model/database.py, World.antt the collections
-- with the module-level tables of webserver/task_runner/runner.py.
--
-- Queue.antt is TaskQueue of database.py (acquire_lock, release_lock, pop, push, flush);
-- EventQueue.antt is EventQueue and push_event of webserver/app/main/util/eventqueue.py.
-- Runner/Cancel.antt is event_handler_cancel_task of runner.py, Runner/Start.antt
-- event_handler_start_task, Runner/Reset.antt reset_task_queue_status, Runner/Variables.antt
-- convert_json_to_robot_variable, Runner/Keywords.antt the calls of a robot process to an endpoint in
-- webserver/task_runner/util/xmlrpcserver.py, Runner/Events.antt a round of event_loop with
-- prepare_to_run, and Runner/Loop.antt process_task_per_endpoint, one round of its loop at a time.
--
-- The requests of webserver/app/main. Access.antt has the decorators of util/decorator.py as guards
-- that run before a handler, Auth.antt logging in and out and registering (service/),
-- Organization.antt, Team.antt, Endpoint.antt, Tasks.antt and Account.antt (user_controller.py) the
-- handlers of the controllers of the same name (controller/organization_controller.py and so on), each
-- with its listings in a child. A handler pushes tasks to a queue and events to the event queue, from
-- which the runner takes them. Endpoint/Connection.antt is the admission of rpc_proxy and
-- check_endpoint of runner.py. Store.antt is the commit of documents, and Util.antt the conversion of
-- request values.
--
-- Text.antt has Python's operations on texts. Paths.antt is util/get_path.py, Markdown.antt the
-- reading of a test script's tables in webserver/task_runner/util/dbhelper.py (update_test_from_md,
-- and db_update_test in its child Update), and Packages.antt the packages of tests: the methods of
-- Package in database.py, and in its children Requires and Resolve the requirements,
-- install_test_suite and find_pkg_dependencies of dbhelper.py; its child Store has two handlers of
-- controller/teststore_controller.py.
--
-- Scripts.antt is controller/script_controller.py: the deletion and the upload of scripts, and in its
-- child Edit their change. Doc.antt is controller/document_controller.py: the pages of the
-- documentation, with the git steps behind a change in its child Publish. Results.antt is
-- controller/testresult_controller.py, to which the daemon of an endpoint reports its tests.
--
-- Agent.antt has the program of an endpoint: Agent/Daemon.antt is endpoint/test_endpoint/daemon.py,
-- the downloads and the processes of test libraries, with its state in Agent/State.antt, and
-- Agent/Update.antt the installation of a release in endpoint/test_endpoint/update.py.
--
-- Tests.antt has test data, runs on it, and the theorems at concrete inputs.
--
-- Bounds. The lock loop makes LOCK_TIMEOUT = 20 tries, the cancel handler polls 20 times, a keyword is
-- tried at most 10 times, and all are recursions on the rounds left, so they end by themselves; what
-- the rest of the program does during the sleep of a round is the parameter `others`. A coroutine is
-- otherwise run without interruption, but for the two step relations, Queue/Exclusion.antt and
-- Runner/Loop/Claim.antt, where the awaits of several clients interleave.
--
-- The recursions over requirements run on fuel: for install_test_suite two levels are enough, and
-- find_pkg_dependencies_nested reports where the fuel is spent.
--
-- Parameters. The lexer of markdown is a parameter as the tokens that it yields, the metadata of an
-- archive as a function from its path, and the comparison of versions with the constraint solver
-- (webserver/app/main/util/semver) as the interface Versions. The robot process is a function from a
-- task and a state to a return code and the state when its output has ended. `forwards` of the
-- database says whether an umongo reference that was not fetched has the members of its document, on
-- which the program relies in places. Of the file system the handlers of scripts know what stands at a
-- path and whether it can be removed, the pages which exit code each git command has. The daemon of an
-- endpoint is given the server's responses. The token library, the password hashes and `uuid.UUID` are
-- functions that are passed in. The update of an endpoint is given the release server, how far an
-- archive unpacks, and for each removal and copy of a directory whether and how it fails; class
-- attributes of umongo documents are a function from their names.
--
-- Not modelled: the formats of archives, the connection loop and the installer of the endpoint, files
-- and logs, the relay of a process's output to the browser, the vendored semver package
-- (webserver/app/main/util/semver) and patch tool, the installers that are templates of other
-- projects' installers, and configuration.
pub mod Prelude
pub mod Exec
pub mod Mongo
pub mod Documents
pub mod World
pub mod Store
pub mod Util
pub mod Text
pub mod Account
pub mod Markdown
pub mod Packages
pub mod Scripts
pub mod Paths
pub mod Access
pub mod Auth
pub mod Organization
pub mod Team
pub mod Runner
pub mod Queue
pub mod EventQueue
pub mod Endpoint
pub mod Tasks
pub mod Agent
pub mod Doc
pub mod Results
pub mod Tests
