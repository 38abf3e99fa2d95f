-- ===== src/Connection.antt =====
-- src/connection: packets, their wire form, and the connection between master and backup.
pub mod Cursor
pub mod Packet
pub mod PacketParser
pub mod Receive
pub mod Send
pub mod Events
