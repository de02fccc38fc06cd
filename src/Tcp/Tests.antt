-- ===== src/Tcp/Tests.antt =====
-- Runs of user/tcp.c on a small host.
pub mod Data
mod Tables
mod Conns
mod Listeners
