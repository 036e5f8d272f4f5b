-- ===== src/Market/Matching.antt =====
-- What a matching loop does to its book, for every kind of round.
pub mod Front
pub mod Fills
pub mod Frames
pub mod Rounds
pub mod Limits
