-- ===== src/Tcp/Tests/Conns.antt =====
-- A connection of a small host, from its set-up to its end.
use flex_toe.Prelude.{◌∷◌, ◌≡◌, [], arith, false, inl, none, refl, some, true, update}
use flex_toe.Tcp.Conn.{Connection, Effect, Status, Tcp, Timer}
use flex_toe.Tcp.ConnInv.{ConnKnown}
use flex_toe.Tcp.End.{open_packet-still_controlled}
use flex_toe.Tcp.Life.{conn_packet}
use flex_toe.Tcp.Open.{Resolved, Verdict, opening, tcp_open, tcp_packet}
use flex_toe.Tcp.Options.{Parsed, no_opts, parse_options}
use flex_toe.Tcp.Parse.{Opt, parse_options-Encodes}
use flex_toe.Tcp.Ports.{Port, PortSearch, Ports}
use flex_toe.Tcp.Setup.{tcp_open-delivers}
use flex_toe.Tcp.State.{TcpOpts}
use flex_toe.Tcp.Steps.{Event, Settles, step, step-ConnOk}
use flex_toe.Tcp.Tests.Data.{
  connection, from_peer, host, no_ports, nobody, one_conn, small_config, sum, syn_ack_flags,
  syn_flags,
}

abbrev with_ts : TcpOpts
with_ts = record { mss = none; ts = some 2 }

syn_ack-reads : parse_options (from_peer syn_ack_flags) 66 ≡ Parsed.parsed with_ts
syn_ack-reads =
    parse_options-Encodes (from_peer syn_ack_flags) 66 (Opt.no_op ∷ Opt.no_op ∷ Opt.timestamp ∷ [])
      (omega arith) (omega arith) (omega arith) (omega arith) (omega arith)
      (refl, (refl, ((refl, refl), tt))) (inl refl)

abbrev fresh : Connection
fresh = connection Status.syn_wait false Timer.handshake

abbrev empty_host : Tcp
empty_host = host fresh nobody no_ports

abbrev unused_ports : Ports
unused_ports = record { ports = no_ports; port_eph_hint = 8192 }

tcp_open-delivers_example :
    (s' : Tcp) × (tcp_open sum small_config 3 20 80 fresh
        (PortSearch.port 9000 9001)
        Resolved.at_once
        empty_host
      ≡ some (s', true))
    × ConnKnown sum small_config s'
    × (s'.ports 9000 ≡ Port.connected 1)
    × (tcp_packet sum small_config (from_peer syn_ack_flags) 66 s'.table unused_ports
        ≡ Verdict.to_conn s'.conn.entry with_ts)
unfolding opening
tcp_open-delivers_example =
    tcp_open-delivers sum small_config 3 20 80 9000 9001 fresh false empty_host
      (from_peer syn_ack_flags) 66 with_ts unused_ports (omega arith, omega arith) (omega arith)
      refl
      (record {
        to_us = refl;
        from_peer = refl;
        peer_port = refl;
        our_port = refl;
        has_header = omega arith;
        readable = syn_ack-reads;
      })

abbrev waits_for_peer : Tcp
waits_for_peer = host (connection Status.syn_sent true Timer.handshake) one_conn no_ports

-- The SYN-ACK of the peer.
abbrev synack : Event
synack = Event.segment (from_peer syn_ack_flags) with_ts 1 (some 4) none

step-ConnOk_example :
    Settles sum small_config waits_for_peer (step sum small_config synack waits_for_peer)
step-ConnOk_example =
    step-ConnOk sum small_config synack waits_for_peer (omega arith, omega arith)
      (inl (refl, tt), (refl, refl), (omega arith, omega arith, omega arith)) tt

abbrev closing : Tcp
closing =
    host (connection Status.closed true Timer.close_wait) one_conn
      (update no_ports 9000 (Port.connected 1))

abbrev open_host : Tcp
open_host = host (connection Status.opened false Timer.handshake) one_conn no_ports

open_packet-still_controlled_example :
    (s' : Tcp) × (conn_packet sum (from_peer syn_flags) no_opts 0 none none open_host ≡ some s')
    × (s'.conn.status ≡ Status.failed)
    × (s'.calls ≡ Effect.appif_conn_opened false ∷ [])
open_packet-still_controlled_example =
    open_packet-still_controlled sum small_config (from_peer syn_flags) no_opts 0 none none
      open_host refl (inl refl) refl refl refl
