-- ===== src/Tcp/Life.antt =====
-- The handlers of user/tcp.c for a connection that has left its set-up: segments, timeouts, closing.
use flex_toe.Prelude.{
  if◌then◌else◌, ℕ, ◌&&◌, ◌+◌, ◌||◌, Bool, Option, false, ltb, none, not, some, true, update,
}
use flex_toe.Prelude.Words.{mul32}
use flex_toe.Tcp.Conn.{
  Effect, Status, Tcp, TcpConfig, Timer, call, conn_failed, conn_timeout_arm, control_flags,
  send_control,
}
use flex_toe.Tcp.Handshake.{conn_syn_sent_packet, syn_ecn}
use flex_toe.Tcp.Ports.{Port}
use flex_toe.Tcp.State.{Flags, Packet, TcpOpts, ts_val}
use flex_toe.Tcp.Table.{conn_unregister}

-- The answer of `nicif_connection_disable`: the two sequence numbers and whether both sides are done.
pub record Disabled : Type 0 where
  pub tx_seq : ℕ
  pub rx_seq : ℕ
  pub tx_c : Bool
  pub rx_c : Bool

-- `tcp_close`; the Boolean says whether it succeeded.
unfoldable pub tcp_close : Option Disabled → Tcp → Option (Tcp × Bool)
tcp_close answer s = elim s.conn.status [
  | Status.opened ↦ elim answer [
    | none ↦ some (call Effect.nicif_connection_disable s, false)
    | some d ↦
        let c = record s.conn { remote_seq = d.rx_seq; local_seq = d.tx_seq } in
        let off = call Effect.nicif_connection_disable (record s { conn = c }) in
        let reset =
          if not d.tx_c || not d.rx_c
          then send_control (record control_flags { rst = true }) none off
          else off in
        let gone = call Effect.control_remove reset in
        let c' = record c {
          status = Status.closed;
          to_armed = true;
          to_timer = Timer.close_wait;
        } in
        if c.to_armed
        then none
        else some
            (call (Effect.timeout_arm 10000 Timer.close_wait) (record gone { conn = c' }), true)
  ]
  | _ ↦ some (s, false)
]

-- The segments that an open connection reacts to. The comparison is with TCP_SYN alone, since
-- `ecn_flags` is still 0.
abbrev pub only_syn : Flags → Bool
only_syn f =
    f.syn && not (f.fin || (f.rst || (f.psh || (f.ack || (f.urg || (f.ece || (f.cwr || f.ns)))))))

module _ (hash : ℕ → ℕ → ℕ → ℕ → ℕ) where
  unfoldable pub open_packet : Packet → TcpOpts → Option Disabled → Tcp → Option Tcp
  open_packet p opts answer s =
      if only_syn p.flags
      then elim opts.ts [
        | none ↦ conn_failed hash s
        | some ts ↦ some (
            send_control (record control_flags { syn = true; ack = true; ece = s.conn.ecn })
              (some (ts_val p ts)) s)
      ]
      else if p.flags.syn
      then some s
      else if p.flags.rst
      then elim (tcp_close answer s) [ none ↦ none | some (s', done) ↦ some s' ]
      else some s

  -- `conn_packet`.
  unfoldable pub conn_packet : Packet → TcpOpts → ℕ → Option ℕ → Option Disabled → Tcp → Option Tcp
  conn_packet p opts flow_group flow answer s = elim s.conn.status [
    | Status.syn_sent ↦
        elim (conn_syn_sent_packet p opts flow
          (record s { conn = record s.conn { flow_group = flow_group } })) [
            | none ↦ none
            | some (s', done) ↦ if done then some s' else conn_failed hash s'
          ]
    | Status.opened ↦ open_packet p opts answer s
    | Status.closed ↦
        some
          (if p.flags.fin then send_control (record control_flags { ack = true }) (some 0) s else s)
    | _ ↦ some s
  ]

  -- `conn_close_timeout`, up to the point where the structure is freed.
  unfoldable pub conn_close_timeout : Tcp → Option Tcp
  conn_close_timeout s =
      let port = s.conn.entry.local_port in
      let free : Port = elim (s.ports port) [ Port.connected _ ↦ Port.unused | e ↦ e ] in
      elim (conn_unregister hash s.conn.entry s.table) [
        | none ↦ none
        | some t ↦ some (
            call Effect.free_conn (
              call Effect.appif_conn_closed (
                call Effect.nicif_connection_free
                  (record s { table = t; ports = update s.ports port free }))))
      ]

  -- `tcp_timeout`.
  unfoldable pub tcp_timeout : TcpConfig → ℕ → Timer → Tcp → Option Tcp
  tcp_timeout config random type s =
      let c = s.conn in
      let fired = record s { conn = record c { to_armed = false } } in
      let again = record fired {
        conn = record fired.conn { to_attempts = c.to_attempts + 1; timeout = mul32 c.timeout 2 };
      } in
      let over =
        conn_failed hash
          (record fired { conn = record fired.conn { to_attempts = c.to_attempts + 1 } }) in
      let resend : Option Tcp = elim (conn_timeout_arm random again) [
        | none ↦ none
        | some s' ↦ some (send_control syn_ecn (some 0) s')
      ] in
      if not c.to_armed then none else elim type [
        | Timer.close_wait ↦ conn_close_timeout fired
        | Timer.handshake ↦ elim c.status [
          | Status.syn_sent ↦
              if ltb config.tcp_handshake_retries (c.to_attempts + 1) then over else resend
          | _ ↦ none
        ]
      ]

-- `tcp_destroy`.
unfoldable pub tcp_destroy : Tcp → Option Tcp
tcp_destroy s = elim s.conn.status [ Status.failed ↦ some (call Effect.free_conn s) | _ ↦ none ]
