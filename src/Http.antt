-- ===== src/Http.antt =====
-- What stands between a request and the services: server/src/app.ts, middleware and routes. Express
-- calls the functions of a route one after another; an error ends it in the error handler.
pub mod Middleware
pub mod Exports
pub mod Accounts
pub mod Registered
pub mod Guarded
pub mod Bounds
