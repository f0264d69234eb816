-- ===== src/Rules.antt =====
-- Rules that a mutation of a block has to keep (core/src/record_keeper/rules).
pub mod Shares
pub mod Merkle
pub mod Ruling
pub mod Checks
pub mod Duplicates
