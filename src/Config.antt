-- ===== src/Config.antt =====
-- server/src/config/env.ts: the settings of a process, from its environment. The package zod checks
-- one variable after another and gives every issue that it finds.
pub mod Checked
pub mod Fields
pub mod Load
