-- ===== src/Cc.antt =====
-- Congestion control of the slow path: user/cc.c.
pub mod State
pub mod Dctcp
pub mod Timely
pub mod ConnList
pub mod Poll
mod WinBounds
mod WinMoves
mod RateMoves
mod Reach
mod WinPolls
mod Conns
mod Tests
