-- ===== src/Router/Parse.antt =====
-- The parsers of src/client/router.rs.
pub mod Fields
pub mod Metadata
pub mod Media
pub mod Receiver
