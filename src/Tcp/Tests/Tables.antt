-- ===== src/Tcp/Tests/Tables.antt =====
-- Options, ports and the table of a small host.
use flex_toe.Prelude.{ℕ, ◌-◌, ◌^◌, ◌∷◌, ◌≡◌, [], arith, false, inl, inr, none, refl, some, update}
use flex_toe.Tcp.Alloc.{Found, ephemeral, port_alloc-finds, port_alloc-never_ends}
use flex_toe.Tcp.Conn.{Connection, Status, Timer, control_flags}
use flex_toe.Tcp.Control.{Sent, control_segment}
use flex_toe.Tcp.Echo.{control_segment-parse_options}
use flex_toe.Tcp.Lookup.{conn_lookup-register, conn_lookup-unregister}
use flex_toe.Tcp.Options.{Parsed, parse_options}
use flex_toe.Tcp.Parse.{Opt, parse_options-Encodes}
use flex_toe.Tcp.Ports.{Port, PortSearch, Ports, port_alloc}
use flex_toe.Tcp.State.{Packet, be32}
use flex_toe.Tcp.Table.{Endpoint, Table, conn_lookup, conn_register, conn_unregister}
use flex_toe.Tcp.Tests.Data.{
  connection, endpoint, from_peer, no_ports, nobody, one_conn, sum, syn_flags,
}

parse_options-Encodes_example :
    parse_options (from_peer syn_flags) 66 ≡ Parsed.parsed (record { mss = none; ts = some 2 })
parse_options-Encodes_example =
    parse_options-Encodes (from_peer syn_flags) 66 (Opt.no_op ∷ Opt.no_op ∷ Opt.timestamp ∷ [])
      (omega arith) (omega arith) (omega arith) (omega arith) (omega arith)
      (refl, (refl, ((refl, refl), tt))) (inl refl)

-- The last port is in use, so the first is taken.
abbrev last_used : Ports
last_used = record {
  ports = update no_ports (2 ^ 16 - 1) (Port.connected 3);
  port_eph_hint = 2 ^ 16 - 1;
}

port_alloc-finds_example :
    (p : ℕ) × (hint : ℕ) × (port_alloc ephemeral last_used ≡ PortSearch.port p hint)
    × Found last_used.ports p hint
port_alloc-finds_example =
    port_alloc-finds last_used 9000 (omega arith) (omega arith) (omega arith) (omega arith) refl

abbrev all_used : Ports
all_used = record { ports = λ i. Port.connected i; port_eph_hint = 80 }

port_alloc-never_ends_example : port_alloc 1000000 all_used ≡ PortSearch.searching
port_alloc-never_ends_example =
    port_alloc-never_ends all_used 1000000 (omega arith) refl λ i lo hi. refl

conn_lookup-register_example :
    conn_lookup sum (from_peer syn_flags) (conn_register sum endpoint nobody) ≡ some endpoint
conn_lookup-register_example = conn_lookup-register sum (from_peer syn_flags) endpoint nobody refl

abbrev from_other : Packet
from_other = record (from_peer syn_flags) { src_ip = 21; src_port = 79 }

abbrev other : Endpoint
other = record endpoint { conn_id = 2; remote_ip = 21; remote_port = 79 }

abbrev two_conns : Table
two_conns = conn_register sum other one_conn

conn_lookup-unregister_example :
    (t' : Table) × (conn_unregister sum endpoint two_conns ≡ some t')
    × (conn_lookup sum from_other t' ≡ conn_lookup sum from_other two_conns)
unfolding conn_register
conn_lookup-unregister_example =
    conn_lookup-unregister sum from_other endpoint two_conns (inr (omega arith, inl refl)) refl

abbrev stale : ℕ → ℕ
stale i = 255

abbrev opened : Connection
opened = connection Status.opened false Timer.handshake

control_segment-parse_options_example :
    (m : Sent) × (control_segment 6 10 (some stale) opened control_flags (some 1234567) ≡ some m)
    × (parse_options m.packet m.len ≡ Parsed.parsed (record { mss = none; ts = some 2 }))
    × (be32 m.packet.after 8 ≡ 1234567)
control_segment-parse_options_example =
    control_segment-parse_options 6 10 stale opened control_flags 1234567 (omega arith)
