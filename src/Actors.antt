-- ===== src/Actors.antt =====
-- crates/sutegi-actors: supervision.
pub mod Supervisor
mod Examples
