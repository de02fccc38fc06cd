-- ===== src/Tcp/End.antt =====
-- The end of a connection of user/tcp.c, by its last timeout or by a failure.
use flex_toe.Prelude.{
  ℕ, ◌∷◌, ◌≡◌, Option, arith, false, none, refl, some, true, update, update_self,
}
use flex_toe.Tcp.Conn.{Effect, Status, Tcp, TcpConfig, Timer, call, conn_failed}
use flex_toe.Tcp.ConnInv.{Armed}
use flex_toe.Tcp.Life.{
  Disabled, conn_close_timeout, conn_packet, only_syn, open_packet, tcp_timeout,
}
use flex_toe.Tcp.Lookup.{Holds, conn_lookup-unregister, unregister-total}
use flex_toe.Tcp.Ports.{Port}
use flex_toe.Tcp.State.{Packet, TcpOpts}
use flex_toe.Tcp.Table.{bucket, conn_lookup, matches}

module _ (hash : ℕ → ℕ → ℕ → ℕ → ℕ) (config : TcpConfig) where
  -- The timeout of a closed connection takes it out of the table, where the packets of other peers
  -- find what they found before, frees its port if a connection had it, and ends with the
  -- application told and the structure freed.
  pub tcp_timeout-closed :
      (random : ℕ) (p : Packet) (s : Tcp) (owner : ℕ)
      → s.conn.status ≡ Status.closed
      → Holds s.conn.entry (s.table (bucket hash s.conn.entry))
      → Armed Timer.close_wait s.conn
      → s.ports s.conn.entry.local_port ≡ Port.connected owner
      → matches p s.conn.entry ≡ false
      → (s' : Tcp) × (tcp_timeout hash config random s.conn.to_timer s ≡ some s')
        × (conn_lookup hash p s'.table ≡ conn_lookup hash p s.table)
        × (s'.ports s.conn.entry.local_port ≡ Port.unused)
        × (s'.calls
            ≡ Effect.free_conn ∷ Effect.appif_conn_closed ∷ Effect.nicif_connection_free ∷ s.calls)
  unfolding tcp_timeout conn_close_timeout
  tcp_timeout-closed random p s owner e h a q m =
      let (t, k, same) = conn_lookup-unregister hash p s.conn.entry s.table h m in
      let port = s.conn.entry.local_port in
      let end = call Effect.free_conn (
        call Effect.appif_conn_closed (
          call Effect.nicif_connection_free (record s {
            conn = record s.conn { to_armed = false };
            table = t;
            ports = update s.ports port Port.unused;
          }))) in
      (end, ground (arith, a.0, a.1, k, q), same, update_self s.ports port Port.unused, refl)

  -- A SYN without a timestamp makes an open connection fail. The application is told, but the
  -- connection is not taken from congestion control, and the NIC keeps it.
  pub open_packet-still_controlled :
      (p : Packet) (opts : TcpOpts) (flow_group : ℕ) (flow : Option ℕ) (answer : Option Disabled)
      (s : Tcp)
      → s.conn.status ≡ Status.opened
      → Holds s.conn.entry (s.table (bucket hash s.conn.entry))
      → s.conn.to_armed ≡ false
      → only_syn p.flags ≡ true
      → opts.ts ≡ none
      → (s' : Tcp) × (conn_packet hash p opts flow_group flow answer s ≡ some s')
        × (s'.conn.status ≡ Status.failed)
        × (s'.calls ≡ Effect.appif_conn_opened false ∷ s.calls)
  unfolding conn_packet open_packet conn_failed
  open_packet-still_controlled p opts flow_group flow answer s e h off x y =
      let (t, k) = unregister-total hash s.conn.entry s.table h in
      (
        call (Effect.appif_conn_opened false)
            (record s { conn = record s.conn { status = Status.failed }; table = t }),
        ground (arith, e, x, y, k, off),
        refl,
        refl,
      )
