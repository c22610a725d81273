-- ===== src/Creds.antt =====
-- The package creds: tokens, their refresh, and the sources of credentials.
pub mod TokenSource
pub mod Transport
pub mod File
pub mod Load
pub mod Aws
mod Tests
