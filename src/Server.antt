-- ===== src/Server.antt =====
-- The REST server of pkg/chbackup/server.go.
pub mod Response
pub mod Status
pub mod Api
pub mod Handlers
pub mod Integration
pub mod Auth
pub mod Jobs
pub mod Routes
pub mod Threads
pub mod Loop
