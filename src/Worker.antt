-- ===== src/Worker.antt =====
-- src/core/worker.c: what the HTTP and database workers do with their tasks.
pub mod Buffer
pub mod Headers
pub mod Curl
pub mod Http
mod Witnesses
