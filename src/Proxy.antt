-- ===== src/Proxy.antt =====
-- The package proxy: one module for each part of it.
pub mod Match
pub mod Allowlist
pub mod Approver
pub mod Dns
pub mod Usage
pub mod Header
pub mod Bedrock
pub mod Server
pub mod Ca
pub mod Handlers
mod Tests
