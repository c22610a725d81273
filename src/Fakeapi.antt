-- ===== src/Fakeapi.antt =====
-- The package fakeapi: the test server's side of the wire.
pub mod EventStream
pub mod Server
mod Tests
