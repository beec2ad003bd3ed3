-- ===== src/Agent.antt =====
-- The program of a test endpoint (endpoint/test_endpoint): its daemon, which starts one process
-- for each test library.
pub mod State
pub mod Daemon
pub mod Requests
pub mod Live
pub mod Leak
pub mod Update
