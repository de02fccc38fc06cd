-- ===== src/Tcp/Handshake.antt =====
-- The handlers of user/tcp.c while a connection is set up.
use flex_toe.Prelude.{if◌then◌else◌, ℕ, ◌&&◌, ◌||◌, Bool, Option, false, none, not, some, true}
use flex_toe.Prelude.Words.{add32}
use flex_toe.Tcp.Conn.{
  Effect, Status, Tcp, TcpConfig, call, conn_failed, conn_timeout_arm, conn_timeout_disarm,
  control_flags, send_control,
}
use flex_toe.Tcp.State.{Flags, Packet, TcpOpts, ts_val}

-- The flags of a SYN that offers ECN.
abbrev pub syn_ecn : Flags
syn_ecn = record control_flags { syn = true; ece = true; cwr = true }

-- `conn_arp_done`; `random` is the next random word, as in the rest.
unfoldable pub conn_arp_done : TcpConfig → ℕ → Tcp → Option Tcp
conn_arp_done config random s =
    let c = record s.conn {
      status = Status.syn_sent;
      to_attempts = 0;
      timeout = config.tcp_handshake_to;
    } in
    elim (conn_timeout_arm random (record s { conn = c })) [
      | none ↦ none
      | some s' ↦ some (send_control syn_ecn (some 0) s')
    ]

-- What `conn_syn_sent_packet` does with a good SYN-ACK once its timeout is off; `flow` is the answer of
-- `nicif_connection_add`. `false`: the result -1.
unfoldable pub synack_received : Packet → ℕ → Option ℕ → Tcp → Tcp × Bool
synack_received p ts flow s =
    let c = record s.conn {
      remote_seq = add32 p.seqno 1;
      local_seq = p.ackno;
      syn_ts = ts_val p ts;
      ecn = s.conn.ecn || (p.flags.ece && not p.flags.cwr);
    } in
    let added =
      call Effect.nicif_connection_add (call Effect.control_add (record s { conn = c })) in
    elim flow [
      | none ↦ (added, false)
      | some id ↦
          let open' = record added { conn = record c { status = Status.opened; flow_id = id } } in
          (
            call (Effect.appif_conn_opened true)
                (send_control (record control_flags { ack = true }) (some c.syn_ts) open'),
            true,
          )
    ]

unfoldable pub conn_syn_sent_packet : Packet → TcpOpts → Option ℕ → Tcp → Option (Tcp × Bool)
conn_syn_sent_packet p opts flow s = elim (conn_timeout_disarm s) [
  | none ↦ none
  | some s' ↦
      if p.flags.syn && p.flags.ack
      then elim opts.ts [ none ↦ some (s', false) | some ts ↦ some (synack_received p ts flow s') ]
      else some (s', false)
]

-- `conn_reg_synack`.
unfoldable pub conn_reg_synack : Tcp → Tcp
conn_reg_synack s =
    let open' = record s { conn = record s.conn { status = Status.opened } } in
    let flags = record control_flags { syn = true; ack = true; ece = s.conn.ecn } in
    call Effect.appif_accept_conn (send_control flags (some s.conn.syn_ts) open')

-- The step of `tcp_poll` for a completion with status `comp`; `true` stands for 0.
unfoldable pub tcp_poll : (ℕ → ℕ → ℕ → ℕ → ℕ) → TcpConfig → ℕ → Bool → Tcp → Option Tcp
tcp_poll hash config random comp s = elim s.conn.status [
  | Status.arp_pending ↦ if comp then conn_arp_done config random s else conn_failed hash s
  | Status.reg_synack ↦ if comp then some (conn_reg_synack s) else conn_failed hash s
  | _ ↦ some s
]
