-- ===== src/Board.antt =====
-- src/board: what the boards share.
pub mod Ring
pub mod Button
pub mod Metrics
