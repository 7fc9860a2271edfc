-- ===== src/Runner/Exact.antt =====
-- That a run of a job exports exactly the first rows of its snapshot, from wherever an earlier run
-- stopped (server/src/services/exportRunner.service.ts).
pub mod Open
pub mod Batch
pub mod Rounds
pub mod File
pub mod Assembly
pub mod Verdict
pub mod Finish
pub mod Claim
pub mod Run
