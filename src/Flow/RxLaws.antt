-- ===== src/Flow/RxLaws.antt =====
-- The receive side of the handlers in firmware/flows.c.
pub mod Trim
pub mod CatchUp
pub mod Seg
pub mod Ack
