-- ===== src/Tcp.antt =====
-- The slow path of TCP, user/tcp.c: options, ports, the table of connections, listeners and the
-- state machine of a connection.
pub mod State
pub mod Options
pub mod Ports
pub mod Table
pub mod Conn
pub mod Handshake
pub mod Life
pub mod ConnInv
pub mod Segments
pub mod Open
pub mod Setup
pub mod Control
pub mod Echo
pub mod Steps
pub mod End
pub mod Backlog
pub mod Queue
pub mod Parse
pub mod Alloc
pub mod Lookup
mod Tests
