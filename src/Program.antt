-- ===== src/Program.antt =====
pub mod Errors
pub mod Words
pub mod Roles
pub mod State
pub mod Space
pub mod Runtime
pub mod Checks
pub mod Tokens
