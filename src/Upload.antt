-- ===== src/Upload.antt =====
-- upload/handler.go: the upload request handler.
pub mod Task
pub mod Parse
pub mod Metrics
pub mod Multipart
pub mod Samples
pub mod Handler
pub mod Serve
pub mod Json
pub mod Concurrent
pub mod Clients
pub mod Logs
