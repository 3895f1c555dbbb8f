-- ===== src/Http.antt =====
-- The client of one node over HTTP (package `http`), one module for each part of it.
pub mod Service
pub mod Get
pub mod Static
pub mod Spec
pub mod Forks
pub mod Chunks
pub mod Blocks
pub mod Blinded
pub mod Queries
pub mod Duties
pub mod Answers
pub mod Events
pub mod New
pub mod Plain
pub mod Submit
pub mod Runs
pub mod Tests
