-- ===== src/Lib.antt =====
-- FlexTOE, a TCP offload engine: a model of its data path and of the slow path's algorithms.
--
-- The program. Firmware on the network card (firmware/) takes packets, transmission requests and
-- updates from the host as work items; a worker (process.c) brings the TCP state of the item's
-- connection into local memory and runs one of five handlers (flows.c); the result tells the later
-- stages what to copy, what to send and what to report.
--
-- Files and what they model:
-- - Flow/State: the records of include/flow_state.h, firmware/pipeline.h and
--   firmware/packet_defs.h. Flow/Checks, Flow/Send, Flow/Ack, Flow/Seg: firmware/flows.c, one
--   definition for each function (flows_tx, flows_ac, flows_retx, flows_ack, flows_seg and their
--   helpers) and one for each stage of the two long handlers. A `goto finalize` is a branch that
--   returns its variables (the record Run) to `finish`. The configuration is that of
--   firmware/config.h: out-of-order reception, acknowledgements of unsent bytes and forced window
--   updates on, skipped acknowledgements off.
-- - Flow/Inv states the invariants; Flow/TxLaws, Flow/RxLaws, Flow/Placement and Flow/Limits are about
--   what the handlers do to the send side, to the receive side and to the buffers.
-- - Process: firmware/process.c, with `process_work` (one round of its loop) and `handle_miss`.
--   Process/Miss, Process/Transparent and Process/Reach are about its caches, Process/FlowInv is
--   about the invariant.
-- - Qman: firmware/qman.c, which decides when a flow may send. Each loop is a function for one round;
--   Qman/Local is about the queue of flows without a rate, Qman/Slots about the wheel of time slots.
-- - Dma: the payload commands of firmware/postprocess.c (`prepare_dma_cmd`) and the transfers that
--   firmware/dma.h makes of them. Dma/Copies is about where each byte goes.
-- - PacketMem: user/packetmem.c, the slow path's allocator of packet buffers. PacketMem/Owners counts
--   the owners of a byte, PacketMem/Reach takes any sequence of calls, PacketMem/Zones looks at more
--   than one page, PacketMem/Order at the order of the free list.
-- - Cc: user/cc.c, congestion control. Cc/State has its records (user/internal.h, user/config.h),
--   Cc/Dctcp window-based and rate-based DCTCP, Cc/Timely TIMELY and the constant rate, Cc/ConnList
--   and Cc/Poll the list of connections and the control loop. Cc/WinBounds, Cc/WinMoves and
--   Cc/RateMoves are about single updates, Cc/Conns and Cc/Reach about the list, Cc/WinPolls about
--   both together.
-- - Timeout: util/timeout.c, with the time given by the caller. Timeout/Time is about its wrapping
--   time, Timeout/Order and Timeout/Disarm about the list of pending timeouts.
-- - Tcp: user/tcp.c, the slow path's side of a connection. Tcp/State has its packets
--   (user/packet_defs.h), Tcp/Options `parse_options`, Tcp/Ports the table of ports, Tcp/Table the hash
--   table of connections, Tcp/Conn the structure of a connection (user/internal.h) and its timeouts,
--   Tcp/Handshake and Tcp/Life the handlers by status, Tcp/Open `tcp_open` and `tcp_packet`,
--   Tcp/Backlog the listeners, Tcp/Control the segments that are sent. A handler of Tcp takes one
--   connection with the tables and gives them back with the calls of other files (the data type
--   Effect), whose answers are arguments. Tcp/ConnInv, Tcp/Segments and Tcp/Steps are about what
--   a status means, Tcp/Setup and Tcp/End about the life of a connection, Tcp/Queue about the
--   backlog, Tcp/Parse and Tcp/Echo about options, Tcp/Alloc and Tcp/Lookup about the two tables.
-- - Arp: user/arp.c, the table of addresses. Arp/Answers is about the completions that wait in it,
--   Arp/Exchange about two hosts and about timeouts.
-- - Routing: user/routing.c, whose request to user/arp.c is its result. Routing/Hops is about its loop.
-- - App: lib/tas, the library in an application. App/State has its records (lib/tas/include/tas_ll.h,
--   lib/tas/internal.h, include/sp_app_if.h, include/fp_app_if.h), App/Buffers the buffers of a
--   connection and App/Bumps, App/Requests the calls of lib/tas/conn.c; App/Events, App/Confirm,
--   App/Bumps, App/Probe, App/Poll and App/Wait are lib/tas/init.c. App/Space is about the send buffer;
--   App/Received, App/Acked and App/Delivery are about updates from the NIC, App/Early about those that
--   come early; App/Pending says what the list of connections with news is, App/Marks, App/Flush,
--   App/News, App/Refill, App/Unlink, App/Close and App/Stale are about it; App/Full is about the
--   queue to the NIC, App/Grace about waiting, App/Room, App/Entries, App/SpPoll and App/Polls about
--   flextcp_context_poll.
-- - Sockets: lib/sockets/manage_fd.c, the table of file descriptors, whose size is an argument.
--   Sockets/Refs and Sockets/Runs are about its reference counts.
--
-- Conventions. A machine word is a native number; additions and subtractions of words are taken
-- modulo 2 ^ 32 (Prelude/Words). A word of flags is the record of its bits. An instruction in an
-- `__asm` block is read as the C statement in the comment beside it. Transfer registers that a
-- handler does not write keep their contents, so a handler is given the old result.
--
-- Fuel: `poll_loop` and `run_due` count down, from the 128 rounds to which cc_poll limits itself and
-- from the 64 of util_timeout_poll_ts; the walk over options has a round for each byte and one
-- more, which is enough as each option has a byte at least; the search for a port has the fuel it is
-- given, of which a round for each ephemeral port is enough from a hint among them; the search of
-- `connection_close` has the fuel it is given, of which a round for each connection of the list is
-- enough; `flextcp_context_poll` has a round for each event asked for, one for each entry of the queue from
-- the NIC, and one more for each; conns_bump has a round for each entry that it can write, and `txq_probe` the rounds that the
-- code allows it; the packet handlers have no loops, and all else goes by recursion on a list. The endless loop of
-- routing_resolve has fuel, of which two rounds are enough where the next hops lie in the local network. In the slow path a failed assertion, a
-- call of abort and a division by 0 are `none`, a pointer to a connection is its id, and the calls
-- into user/nicif.c are the parameter `Nic` of Cc/Poll, whose answers are fixed during one call.
--
-- Not modelled: the locks and signals between the threads of one processing engine (the model runs
-- one work item at a time, and one round of a loop of the queue manager); rings, DMA engines and the content-addressable memory, of which the
-- last is a parameter (Process.Cam) with the behaviour that its manual gives, whose choice of an
-- entry to replace may depend on all lookups before; a timeout that is armed while it is pending, which
-- the callers never do; routes with a prefix longer than 32 bits, an undefined shift in C; the
-- hardware address that routing_resolve writes into a connection of tcp_open; the function
-- tcp_valid_rxseq, which the configuration leaves out; what the memory of a new connection holds
-- (an argument); the allocations of user/tcp.c, the checksums of its segments, and crc32c, which is
-- the parameter `hash`; the clock of firmware/qman.c and the time-stamp counter behind
-- util/timeout.c; the other parts of the slow path, of the firmware and of the application
-- library, of which its connection to the service and the calls that wait in the operating system are
-- left out; the other files of lib/sockets.
pub mod Prelude
pub mod Flow
pub mod Process
pub mod PacketMem
pub mod Cc
pub mod Timeout
pub mod Routing
pub mod Tcp
pub mod Arp
pub mod Qman
pub mod Dma
pub mod App
pub mod Sockets
