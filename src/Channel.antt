-- ===== src/Channel.antt =====
-- src/channel: the messages that the client sends.
pub mod Media
pub mod Receiver
pub mod Connection
pub mod Metadata
