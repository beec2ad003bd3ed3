-- ===== src/Runner.antt =====
-- webserver/task_runner/runner.py, a child for each part.
pub mod Reset
pub mod Events
pub mod Cancel
pub mod Variables
pub mod Keywords
pub mod Start
pub mod Loop
