-- ===== src/Server.antt =====
-- The part of the API that the run controls of the web client call.
pub mod States
pub mod Store
pub mod Runs
pub mod Tables
pub mod Scope
pub mod Reply
pub mod Plan
pub mod Worker
