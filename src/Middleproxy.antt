-- ===== src/Middleproxy.antt =====
-- mtglib/internal/middleproxy: the client side of Telegram's middle-proxy protocol.
pub mod Crc
pub mod Tags
pub mod Frame
pub mod Stream
pub mod Handshake
pub mod Cbc
pub mod Exchange
pub mod Manager
