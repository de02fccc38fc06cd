-- ===== src/Flow/TxLaws.antt =====
-- The send side of the handlers in firmware/flows.c.
pub mod Ack
pub mod Seg
pub mod Host
