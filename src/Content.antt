-- ===== src/Content.antt =====
-- The classes of content/: what a class room holds.
pub mod Picture
pub mod House
pub mod Group
pub mod Grouping
pub mod Room
pub mod Puzzle
