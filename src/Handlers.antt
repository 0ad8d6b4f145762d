-- ===== src/Handlers.antt =====
-- The handlers of messages in the directory handler that are modelled, and how RecvTask.cpp finds them.
pub mod Types
pub mod Relays
pub mod Table
pub mod Dispatch
