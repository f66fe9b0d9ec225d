-- ===== src/Inner.antt =====
-- The protocol between the gateway and its clients, atgateway/protocols/inner_v1.
pub mod Wire
pub mod Reader
pub mod Frames
pub mod Stream
mod Examples
pub mod Sender
pub mod Conversation
pub mod Crypt
