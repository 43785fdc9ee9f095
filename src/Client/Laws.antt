-- ===== src/Client/Laws.antt =====
-- What the commands of src/client.rs guarantee.
pub mod Guards
pub mod Requests
pub mod Answered
pub mod Casting
pub mod Sessions
pub mod Launch
