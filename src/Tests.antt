-- ===== src/Tests.antt =====
-- Tests of the models on concrete data, and the theorems at concrete inputs.
pub mod Data
mod Queues
mod Runs
mod Requests
mod Shelf
mod Packages
mod Scripts
mod Agents
mod Docs
mod Results
