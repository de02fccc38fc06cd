-- ===== src/Tcp/Conn.antt =====
-- A connection of user/tcp.c: its fields, and what its handlers call in other files. The handlers
-- work on one connection and on the tables; a failed assertion, a call of `abort` and a division by
-- 0 are `none`.
use flex_toe.Prelude.{
  if◌then◌else◌, ℕ, ◌%◌, ◌/◌, ◌==◌, ◌||◌, ◌∷◌, Bool, List, Option, false, leb, none, some, true,
}
use flex_toe.Prelude.Words.{add32}
use flex_toe.Tcp.Ports.{Port}
use flex_toe.Tcp.State.{Flags}
use flex_toe.Tcp.Table.{Endpoint, Table, conn_unregister}
use flex_toe.Timeout.{middle}

-- `enum connection_status`.
pub data Status : Type 0 where
  syn_wait arp_pending syn_sent reg_synack opened closed failed : Status

-- TO_TCP_HANDSHAKE and TO_TCP_CLOSED.
pub data Timer : Type 0 where
  handshake close_wait : Timer

-- The fields of `struct connection` that user/tcp.c works on. `to_timer` is the type in the timeout
-- `to`; `ecn` the flag NICIF_CONN_ECN.
pub record Connection : Type 0 where
  pub entry : Endpoint
  pub status : Status
  pub remote_mac : ℕ
  pub remote_seq : ℕ
  pub local_seq : ℕ
  pub syn_ts : ℕ
  pub timeout : ℕ
  pub to_attempts : ℕ
  pub to_armed : Bool
  pub to_timer : Timer
  pub ecn : Bool
  pub flow_group : ℕ
  pub flow_id : ℕ

-- A call of another file: a segment sent (flags, sequence and acknowledgement numbers, the echo of the
-- timestamp option if it has one), a timeout, congestion control, the NIC, the application, and the
-- buffers.
pub data Effect : Type 0 where
  send : Flags → ℕ → ℕ → Option ℕ → Effect
  timeout_arm : ℕ → Timer → Effect
  timeout_disarm control_add control_remove : Effect
  nicif_connection_add nicif_connection_disable nicif_connection_free : Effect
  appif_conn_opened : Bool → Effect
  appif_accept_conn appif_conn_closed free_conn : Effect

-- A connection, the tables, and the calls made so far, the latest first.
pub record Tcp : Type 0 where
  pub conn : Connection
  pub table : Table
  pub ports : ℕ → Port
  pub calls : List Effect

-- `config`.
pub record TcpConfig : Type 0 where
  pub ip : ℕ
  pub tcp_handshake_to : ℕ
  pub tcp_handshake_retries : ℕ

abbrev pub control_flags : Flags
control_flags = record {
  fin = false;
  syn = false;
  rst = false;
  psh = false;
  ack = false;
  urg = false;
  ece = false;
  cwr = false;
  ns = false;
}

abbrev pub call : Effect → Tcp → Tcp
call c s = record s { calls = c ∷ s.calls }

-- `send_control`: the option for the segment size is never sent.
unfoldable pub send_control : Flags → Option ℕ → Tcp → Tcp
send_control flags ts s = call (Effect.send flags s.conn.local_seq s.conn.remote_seq ts) s

-- `conn_timeout_arm` with a random word. `util_timeout_arm` aborts from 2 ^ 27 microseconds on.
unfoldable pub conn_timeout_arm : ℕ → Tcp → Option Tcp
conn_timeout_arm random s =
    let to = add32 (s.conn.timeout / 2) (random % s.conn.timeout) in
    if s.conn.to_armed || (s.conn.timeout == 0)
    then none
    else if leb middle to
    then none
    else some (
        call (Effect.timeout_arm to Timer.handshake)
          (record s { conn = record s.conn { to_armed = true; to_timer = Timer.handshake } }))

unfoldable pub conn_timeout_disarm : Tcp → Option Tcp
conn_timeout_disarm s =
    if s.conn.to_armed
    then some (call Effect.timeout_disarm (record s { conn = record s.conn { to_armed = false } }))
    else none

module _ (hash : ℕ → ℕ → ℕ → ℕ → ℕ) where
  -- `conn_failed`; the application is told that the connection is not open.
  unfoldable pub conn_failed : Tcp → Option Tcp
  conn_failed s = elim (conn_unregister hash s.conn.entry s.table) [
    | none ↦ none
    | some t ↦
        let out = record s { table = t } in
        let told = λ (s' : Tcp). some (
          call (Effect.appif_conn_opened false)
            (record s' { conn = record s'.conn { status = Status.failed } })) in
        if s.conn.to_armed
        then elim (conn_timeout_disarm out) [ none ↦ none | some s' ↦ told s' ]
        else told out
  ]
