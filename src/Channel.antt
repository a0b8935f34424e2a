-- ===== src/Channel.antt =====
-- src/cast_channel.rs: the Cast v2 control channel.
pub mod Error
pub mod Varint
pub mod Utf8
pub mod Message
pub mod Frame
pub mod Dispatcher
pub mod Handle
pub mod Connect
mod Tests
