-- ===== src/Tcp/Setup.antt =====
-- The set-up of a connection in user/tcp.c across its parts: `tcp_open`, `listener_accept` and the
-- table, and the segments of the peer.
use flex_toe.Prelude.{
  if◌then◌else◌, ℕ, ◌<◌, ◌∙◌, ◌∷◌, ◌≡◌, ◌≤◌, Bool, ap, arith, false, inl, refl, some, subst, sym,
  true, update, update_self,
}
use flex_toe.Tcp.Conn.{Connection, Tcp, TcpConfig}
use flex_toe.Tcp.ConnInv.{ConfigOk, ConnKnown, StatusWith, arp_done-keeps, in_chain-moved}
use flex_toe.Tcp.Lookup.{Holds, conn_lookup-register}
use flex_toe.Tcp.Open.{Resolved, Verdict, opening, tcp_open, tcp_packet}
use flex_toe.Tcp.Options.{Parsed, parse_options}
use flex_toe.Tcp.Ports.{Port, PortSearch, Ports}
use flex_toe.Tcp.State.{Packet, TcpOpts, header_size}
use flex_toe.Tcp.Table.{Endpoint, Table, bucket, conn_register}

-- A readable segment of a connection's peer.
pub record FromPeer (config : TcpConfig) (p : Packet) (len : ℕ) (c : Endpoint) (opts : TcpOpts)
    : Type 0 where
  pub to_us : p.dest_ip ≡ config.ip
  pub from_peer : p.src_ip ≡ c.remote_ip
  pub peer_port : p.src_port ≡ c.remote_port
  pub our_port : p.dest_port ≡ c.local_port
  pub has_header : header_size ≤ len
  pub readable : parse_options p len ≡ Parsed.parsed opts

module _ (hash : ℕ → ℕ → ℕ → ℕ → ℕ) (config : TcpConfig) where
  register-delivers :
      (p : Packet) (len : ℕ) (c : Endpoint) (opts : TcpOpts) (t : Table) (ports : Ports)
      → c.local_ip ≡ config.ip
      → FromPeer config p len c opts
      → tcp_packet hash config p len (conn_register hash c t) ports ≡ Verdict.to_conn c opts
  unfolding tcp_packet
  register-delivers p len c opts t ports i f =
      let record {
        to_us = a;
        from_peer = b;
        peer_port = d;
        our_port = e;
        has_header = h;
        readable = k;
      } =
        f in
      let same : p.dest_ip ≡ c.local_ip = ground arith in
      let found = conn_lookup-register hash p c t same in ground (arith, a, b, d, e, h, k, found)

  -- A new connection, once it is in the table.
  abbrev pub entered : ℕ → ℕ → ℕ → Connection → Tcp → Tcp
  entered remote_ip remote_port port c s =
      let c' = opening config remote_ip remote_port port c in
      record s { conn = c'; table = conn_register hash c'.entry s.table }

  entered-Holds :
      (remote_ip remote_port port : ℕ) (c : Connection) (s : Tcp)
      → let t = entered remote_ip remote_port port c s in
        Holds t.conn.entry (t.table (bucket hash t.conn.entry))
  unfolding opening conn_register
  entered-Holds remote_ip remote_port port c s =
      let e = opening config remote_ip remote_port port c in
      let b = bucket hash e.entry in
      subst (Holds e.entry) (sym (update_self s.table b (e.entry ∷ s.table b))) (inl refl)

  abbrev InTable : Tcp → Type 0
  InTable s = Holds s.conn.entry (s.table (bucket hash s.conn.entry))

  delivers-entered :
      (remote_ip remote_port port : ℕ) (c : Connection) (s t : Tcp)
      → t.conn.entry ≡ (entered remote_ip remote_port port c s).conn.entry
      → t.table ≡ (entered remote_ip remote_port port c s).table
      → (p : Packet) (len : ℕ) (opts : TcpOpts) (ports : Ports)
      → FromPeer config p len (opening config remote_ip remote_port port c).entry opts
      → tcp_packet hash config p len t.table ports ≡ Verdict.to_conn t.conn.entry opts
  unfolding opening
  delivers-entered remote_ip remote_port port c s t same table p len opts ports f =
      let e = entered remote_ip remote_port port c s in
      let there = register-delivers p len e.conn.entry opts s.table ports refl f in
      let here = ap (λ x. tcp_packet hash config p len x ports) table in
      here ∙ (there ∙ ap (λ x. Verdict.to_conn x opts) (sym same))

  -- With a port that was found, and with the peer's address known or on its way, `tcp_open` succeeds:
  -- the connection is in order for its status and owns its port, and from then on a readable segment
  -- of its peer goes to it.
  pub tcp_open-delivers :
      (random remote_ip remote_port port hint : ℕ) (c : Connection) (later : Bool) (s : Tcp)
      (p : Packet) (len : ℕ) (opts : TcpOpts) (ports : Ports)
      → ConfigOk hash config
      → 0 < port
      → c.to_armed ≡ false
      → FromPeer config p len (opening config remote_ip remote_port port c).entry opts
      → (s' : Tcp) × (tcp_open hash config random remote_ip remote_port c
            (PortSearch.port port hint)
            (if later then Resolved.later else Resolved.at_once)
            s
          ≡ some (s', true))
        × ConnKnown hash config s'
        × (s'.ports port ≡ Port.connected c.entry.conn_id)
        × (tcp_packet hash config p len s'.table ports ≡ Verdict.to_conn s'.conn.entry opts)
  unfolding tcp_open opening
  tcp_open-delivers random remote_ip remote_port port hint c true s p len opts ports ok pos off f =
      let e = entered remote_ip remote_port port c s in
      let owned = Port.connected c.entry.conn_id in
      (
        record e { ports = update s.ports port owned },
        ground arith,
        (entered-Holds remote_ip remote_port port c s, off),
        update_self s.ports port owned,
        delivers-entered remote_ip remote_port port c s e refl refl p len opts ports f,
      )
  tcp_open-delivers random remote_ip remote_port port hint c false s p len opts ports ok pos off f =
      let e = entered remote_ip remote_port port c s in
      let r = entered-Holds remote_ip remote_port port c s in
      let (t, k, st, h, same, table) = arp_done-keeps hash config random e ok off in
      let there = in_chain-moved hash config Holds e t same table r in
      let owned = Port.connected c.entry.conn_id in
      let own = update t.ports port owned in
      (
        record t { ports = own },
        ground (arith, k),
        subst (λ x. StatusWith hash config (InTable t) (Unit {0}) x t.conn) (sym st)
            (there, h.0, h.1),
        update_self t.ports port owned,
        delivers-entered remote_ip remote_port port c s t same table p len opts ports f,
      )
