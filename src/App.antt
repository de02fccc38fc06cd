-- ===== src/App.antt =====
-- The application library, lib/tas: buffers of a connection, its events, and the context's queues.
pub mod State
pub mod Buffers
pub mod Space
pub mod Events
pub mod Received
pub mod Acked
pub mod Delivery
pub mod Bumps
pub mod Requests
pub mod Pending
pub mod Marks
pub mod Flush
pub mod News
pub mod Refill
pub mod Unlink
pub mod Close
pub mod Stale
pub mod Probe
pub mod Full
pub mod Confirm
pub mod Early
pub mod Wait
pub mod Grace
pub mod Poll
pub mod Room
pub mod Entries
pub mod SpPoll
pub mod Polls
mod Tests
