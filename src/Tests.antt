-- ===== src/Tests.antt =====
-- Concrete inputs of the theorems of the other modules.
mod Server
mod Agreement
mod Client
mod Components
mod Worker
mod Executor
mod Pages
