-- ===== src/Puzzle.antt =====
-- domains/timelock/puzzle_service.rs and puzzle_material.rs: the repeated-squaring puzzle.
pub mod Service
pub mod Generate
pub mod Draws
pub mod Powers
pub mod Shortcut
