-- ===== src/Launch.antt =====
-- main.go, `mainErr`: what a start of runclaude decides before the namespaces are made.
pub mod Auth
pub mod Domains
pub mod Binds
pub mod Environment
pub mod Exclusive
pub mod Exclude
pub mod Settings
pub mod Plan
pub mod Mounts
pub mod Init
mod Tests
