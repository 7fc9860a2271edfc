-- ===== src/Runner/Recovery.antt =====
-- A job over several attempts: runs in which anything may fail, and what happens to its row between
-- them (server/src/services/exportRunner.service.ts).
pub mod Attempt
pub mod Terms
pub mod Rows
pub mod Chain
pub mod Refines
