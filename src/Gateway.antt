-- ===== src/Gateway.antt =====
-- internal/gateway: the runner gateway's HTTP server.
mod Tests
pub mod Receipt
pub mod Http
pub mod Authentication
pub mod BoundedReader
pub mod Commands
pub mod Uploads
pub mod Configuration
pub mod Transport
pub mod Deliveries
pub mod Consumers
pub mod Backend
pub mod Keys
