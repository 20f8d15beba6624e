-- ===== src/Security.antt =====
-- The security layer, src/findociq/security: document ownership, document sets, service tokens.
pub mod Record
pub mod Registry
pub mod Replay
pub mod Auth
mod Examples
mod SetExamples
pub mod Postgres
pub mod Local
pub mod DocumentSets
