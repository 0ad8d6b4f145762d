-- ===== src/Tests.antt =====
-- Runs of the models on concrete inputs.
pub mod Autoproto
pub mod Records
pub mod Login
pub mod Adding
pub mod Pool
pub mod Queue
pub mod Picture
pub mod Socket
pub mod House
pub mod Grouping
pub mod Room
pub mod Messages
pub mod Departure
pub mod Handlers
pub mod GroupMessages
pub mod BuildHouse
pub mod ClassRoom
pub mod PuzzleGame
