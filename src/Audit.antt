-- ===== src/Audit.antt =====
-- scripts/auditLiveExport.mjs: the script that downloads a finished export and audits it with a parser
-- of its own.
pub mod Parser
pub mod Agrees
pub mod Report
pub mod Passes
pub mod Live
