-- ===== src/Checkers.antt =====
-- The checkers game (checkers/src/checkers.rs).
pub mod Piece
pub mod Board
pub mod Play
pub mod Rulebook
