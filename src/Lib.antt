-- ===== src/Lib.antt =====
-- ExportVault exports rows of a table that is written to at the same time into one CSV file, batch by
-- batch, and marks an export COMPLETED only when the finished file has been read back and audited.
-- This library models the server (server/src), the client's session and requests (client/src) and the
-- script that audits a live export (scripts), and states what these parts promise.
--
-- How the parts interact. The API (services/export.service.ts) creates a job at a snapshot boundary
-- (services/recordSource.service.ts) and enqueues it (queues). A worker runs it
-- (services/exportRunner.service.ts): it claims the row, reads the checkpoint log
-- (services/exportResume.service.ts), and for each batch queries rows, writes them by the CSV writer
-- (utils/csv.ts) as a chunk into the object store (services/storage.service.ts) and records a
-- checkpoint in one transaction; then it joins the chunks to the final file, has it audited
-- (services/exportVerification.service.ts), completes the job and removes the chunks. A sweeper
-- (services/stalledJobs.service.ts) interrupts jobs whose worker went silent. Accounts and tokens
-- (services/auth.service.ts) and the error handler (middleware/error.middleware.ts) stand in front. The
-- client keeps the token of a session and sends it along; the audit reads the finished file again.
--
-- Which file models which part:
--   Csv            server/src/utils/csv.ts; Csv/Rfc is an independent reader of RFC 4180
--   Text           the operations of JavaScript on strings that the server uses: decimals, BigInt,
--                  ISO dates and UTF-8, with an independent reader of UTF-8
--   Model          server/prisma/schema.prisma and server/src/utils/errors.ts
--   World          the state that a process acts on, as a record (tables, object store, queue,
--                  counters), and the monad of its calls
--   Query, Jobs    what Prisma's statements do to lists of rows
--   Records        server/src/services/recordSource.service.ts
--   Resume         server/src/services/exportResume.service.ts
--   Verification   server/src/services/exportVerification.service.ts (`verifyExportFile`)
--   Storage        server/src/services/storage.service.ts
--   Runner         server/src/services/exportRunner.service.ts and exportFailure.service.ts:
--                  Runner/Steps the steps, Runner/Loop the loop over the batches, Runner/Durable
--                  what is durable, Runner/Exact and Runner/Crash whole runs, Runner/Recovery
--                  any number of interrupted runs and the one behind them, Runner/Completion what
--                  a COMPLETED row rests on (Runner/Honest)
--   ExportService  server/src/services/export.service.ts; ExportService/Recheck is
--                  `verifyExportJobById` and the verify endpoint of controllers/export.controller.ts
--   Queue          server/src/queues/export.queue.ts and workerWake.ts
--   Sweeper        server/src/services/stalledJobs.service.ts
--   Auth           server/src/services/auth.service.ts, middleware/auth.middleware.ts and `me` of
--                  controllers/auth.controller.ts
--   ErrorHandler   server/src/middleware/error.middleware.ts
--   Config         server/src/config/env.ts: the kinds of fields, the schema, the settings
--   Http           server/src/routes/export.routes.ts, controllers/export.controller.ts,
--                  middleware/validate.middleware.ts, requestId.middleware.ts, and the CORS check of
--                  app.ts; Http/Bounds joins the schema, the service and the settings. Http/Accounts
--                  is routes/auth.routes.ts and controllers/auth.controller.ts
--   Health         server/src/controllers/health.controller.ts, workers/health.server.ts and the
--                  checks of a process's start (config/prisma.ts, config/redis.ts, server.ts)
--   Worker         server/src/workers/export.worker.ts and worker.ts
--   Client         client/src/api/client.ts and auth.ts, contexts/AuthContext.tsx, and the actions
--                  that pages/ExportDetailPage.tsx offers
--   Audit          scripts/auditLiveExport.mjs: its CSV parser and its tests of a file
--   Tests          runs and witnesses on a small installation
--
-- The names are those of the source in snake case: `runExportJob` is `run_export_job`. Where a
-- function of the source awaits several calls, its model binds them in the same order; an early
-- return is a branch, a thrown error an outcome, a `catch` the rule `try_catch`.
--
-- A call is one step: first the other processes act on the tables (`others`), then the call succeeds,
-- is refused, takes effect and loses its reply, or finds the process dead (`fault`), so that a run
-- stands for every interleaving with the other processes and every crash between two calls. The
-- object store, BullMQ, csv-parse, the hash, the uuid generator and the signer of URLs are fields of
-- `Env`, bcryptjs and jsonwebtoken of `Crypto`, the probes' calls of `Dependencies`; JavaScript's
-- `Number` is a parameter of the settings and, with `>` and a Set's equality, of the audit (`Numbers`),
-- JSON.parse of the client (`Payloads`). What is relied on of them is in World/Laws, Auth/Laws and
-- Audit/Passes, as their documentation states it.
--
-- Bounds and fuel. The loop over the batches runs on fuel of one more than the requested number of
-- rows (`enough_rounds`), since each round that goes on exports a row or more. The loop over the
-- pages of a listing runs on `max_pages`; a store that gives continuation tokens for ever is as a
-- process that never returns. Ids and counters are natural numbers: the source keeps ids as bigint
-- and counts no further than the cap of 50,000 rows. A time is its number of milliseconds.
--
-- Not modelled: Express and the wiring of processes, signals and timers, logging, what the rate limiter
-- decides, the serialisation to JSON (its percentage is computed in floating point), the presigner's
-- options, DNS settings, the test data generator, BullMQ's retries and the concurrency within one
-- worker, the requests and the waiting of the audit script, and the views of the client. The streams of
-- the assembly are bytes: the upload is one call with the whole body, and a chunk whose fetch fails is
-- an error of the run. The queries of one Promise.all are one after another. Message texts are
-- constructors.
pub mod Prelude
pub mod Text
pub mod Csv
pub mod Model
pub mod Result
pub mod Query
pub mod Records
pub mod Verification
pub mod Resume
pub mod World
pub mod Jobs
pub mod Storage
pub mod Runner
pub mod Queue
pub mod ExportService
pub mod Sweeper
pub mod Tests
pub mod Auth
pub mod ErrorHandler
pub mod Audit
pub mod Config
pub mod Http
pub mod Client
pub mod Health
pub mod Worker
