-- ===== src/Admission.antt =====
-- What decides whether a connection may go on before it is served.
pub mod Serve
pub mod PendingHandshakes
pub mod LogThrottle
pub mod AcceptRetry
mod Runs
