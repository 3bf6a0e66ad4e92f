-- ===== src/Api/Routes.antt =====
-- api/src/routes/blobs.ts, api/src/routes/events.ts and the error handler of api/src/index.ts.
-- express, multer and the clock are arguments: a request is what the handler reads of it.
pub mod Blobs
pub mod Laws
