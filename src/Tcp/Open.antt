-- ===== src/Tcp/Open.antt =====
-- `tcp_open` and `tcp_packet` of user/tcp.c, which put the parts together.
use flex_toe.Prelude.{
  if◌then◌else◌, ℕ, ◌==◌, ◌||◌, Bool, Option, false, ltb, none, not, some, true, update,
}
use flex_toe.Tcp.Conn.{Connection, Effect, Status, Tcp, TcpConfig, call}
use flex_toe.Tcp.Handshake.{conn_arp_done}
use flex_toe.Tcp.Options.{Parsed, parse_options}
use flex_toe.Tcp.Ports.{Port, PortSearch, Ports, listener_lookup}
use flex_toe.Tcp.State.{Packet, TcpOpts, header_size}
use flex_toe.Tcp.Table.{Endpoint, Table, conn_lookup, conn_register}

-- The answer of `routing_resolve`: an error, the address at once, or later by a completion.
pub data Resolved : Type 0 where
  unreachable at_once later : Resolved

-- The fields of a new connection that `tcp_open` sets.
unfoldable pub opening : TcpConfig → ℕ → ℕ → ℕ → Connection → Connection
opening config remote_ip remote_port local_port c = record c {
  status = Status.arp_pending;
  entry = record c.entry {
    remote_ip = remote_ip;
    local_ip = config.ip;
    remote_port = remote_port;
    local_port = local_port;
  };
  local_seq = 0;
  remote_seq = 0;
  ecn = false;
}

-- `tcp_open` with the connection `c` that `conn_alloc` gives and the result `search` of `port_alloc`.
-- The Boolean says whether it succeeded; `none`: the search does not end, or the program aborts.
unfoldable pub tcp_open :
    (ℕ → ℕ → ℕ → ℕ → ℕ)
    → TcpConfig
    → ℕ
    → ℕ
    → ℕ
    → Connection
    → PortSearch
    → Resolved
    → Tcp
    → Option (Tcp × Bool)
tcp_open hash config random remote_ip remote_port c search answer s = elim search [
  | PortSearch.searching ↦ none
  | PortSearch.exhausted ↦ some (call Effect.free_conn s, false)
  | PortSearch.port p hint ↦
      let c' = opening config remote_ip remote_port p c in
      let known' = record s { conn = c'; table = conn_register hash c'.entry s.table } in
      let own =
        λ (t : Tcp). record t { ports = update t.ports p (Port.connected c.entry.conn_id) } in
      if p == 0 then some (call Effect.free_conn s, false) else elim answer [
        | Resolved.unreachable ↦ some (call Effect.free_conn (record s { conn = c' }), false)
        | Resolved.later ↦ some (own known', true)
        | Resolved.at_once ↦ elim (conn_arp_done config random known') [
          | none ↦ none
          | some t ↦ some (own t, true)
        ]
      ]
]

-- What `tcp_packet` does with a packet: an error, the connection or the listener that gets it, or a
-- reset.
pub data Verdict : Type 0 where
  bad unmatched reset : Verdict
  to_conn : Endpoint → TcpOpts → Verdict
  to_listener : ℕ → TcpOpts → Verdict

unfoldable pub tcp_packet : (ℕ → ℕ → ℕ → ℕ → ℕ) → TcpConfig → Packet → ℕ → Table → Ports → Verdict
tcp_packet hash config p len t ports =
    let verdict = λ (opts : TcpOpts). elim (conn_lookup hash p t) as (λ x. Verdict) [
      | some c ↦ Verdict.to_conn c opts
      | none ↦ elim (listener_lookup p ports) [
        | some l ↦ Verdict.to_listener l opts
        | none ↦ if p.flags.rst then Verdict.unmatched else Verdict.reset
      ]
    ] in
    if ltb len header_size || not (p.dest_ip == config.ip)
    then Verdict.bad
    else elim (parse_options p len) [ Parsed.parsed opts ↦ verdict opts | _ ↦ Verdict.bad ]
