-- ===== src/GatewayApi.antt =====
-- internal/gatewayapi: the agent's side of the runner gateway protocol.
pub mod Token
pub mod Client
pub mod Outbox
