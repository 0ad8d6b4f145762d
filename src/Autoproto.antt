-- ===== src/Autoproto.antt =====
-- The protocol generator, autoproto/autoprotocol.cc.
pub mod Streams
pub mod Lines
pub mod Replace
pub mod Build
pub mod Types
pub mod Load
pub mod Main
