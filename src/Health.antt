-- ===== src/Health.antt =====
-- The probes of a process and its start: server/src/controllers/health.controller.ts,
-- workers/health.server.ts, config/prisma.ts, config/redis.ts, and `assertStorageReady` and
-- `objectExists` of services/storage.service.ts.
pub mod Probes
pub mod Honest
