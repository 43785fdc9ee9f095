-- ===== src/Client.antt =====
-- src/client.rs: the client's state, the commands and the connection's life.
pub mod State
pub mod Request
pub mod Device
pub mod Receiver
pub mod Playback
pub mod Casting
pub mod Queue
pub mod Raw
pub mod Laws
pub mod Backoff
pub mod Life
pub mod Lifecycle
pub mod Loops
pub mod Calls
pub mod Builder
pub mod Connection
