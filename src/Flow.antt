-- ===== src/Flow.antt =====
-- The TCP state machine of one established connection: firmware/flows.c.
pub mod State
pub mod Checks
pub mod Send
pub mod Ack
pub mod Seg
pub mod Inv
pub mod TxLaws
pub mod RxLaws
pub mod Placement
pub mod Limits
pub mod Tests
