-- ===== src/Tcp/Tests/Data.antt =====
-- A host, a connection of it, and the segments of its peer.
use flex_toe.Prelude.{ℕ, ◌+◌, ◌-◌, ◌∷◌, Bool, [], false, true, update}
use flex_toe.Tcp.Conn.{Connection, Status, Tcp, TcpConfig, Timer, control_flags}
use flex_toe.Tcp.Ports.{Port}
use flex_toe.Tcp.State.{Flags, Packet}
use flex_toe.Tcp.Table.{Endpoint, Table}
use flex_toe.Timeout.Disarm.{armed}

-- The sum in place of crc32c.
abbrev pub sum : ℕ → ℕ → ℕ → ℕ → ℕ
sum a b c d = a + b + c + d

abbrev pub small_config : TcpConfig
small_config = record { ip = 10; tcp_handshake_to = 1000; tcp_handshake_retries = 2 }

abbrev pub endpoint : Endpoint
endpoint = record {
  conn_id = 1;
  local_ip = 10;
  remote_ip = 20;
  local_port = 9000;
  remote_port = 80;
}

abbrev pub connection : Status → Bool → Timer → Connection
connection st armed timer = record {
  entry = endpoint;
  status = st;
  remote_mac = 7;
  remote_seq = 0;
  local_seq = 0;
  syn_ts = 0;
  timeout = 1000;
  to_attempts = 0;
  to_armed = armed;
  to_timer = timer;
  ecn = false;
  flow_group = 0;
  flow_id = 0;
}

abbrev pub nobody : Table
nobody i = []

abbrev pub one_conn : Table
one_conn = update nobody (10 + 20 + 9000 + 80 - 4096 - 4096) (endpoint ∷ [])

abbrev pub no_ports : ℕ → Port
no_ports i = Port.unused

abbrev pub host : Connection → Table → (ℕ → Port) → Tcp
host c t ports = record { conn = c; table = t; ports = ports; calls = [] }

-- Two bytes 1 and a timestamp's option with the value 5.
abbrev pub options : ℕ → ℕ
options i = update (update (update (update (update (λ j. 0) 0 1) 1 1) 2 8) 3 10) 7 5 i

abbrev pub from_peer : Flags → Packet
from_peer f = record {
  eth_src = 7;
  ip_len = 52;
  src_ip = 20;
  dest_ip = 10;
  src_port = 80;
  dest_port = 9000;
  seqno = 100;
  ackno = 1;
  hdrlen = 8;
  flags = f;
  after = options;
}

abbrev pub syn_flags : Flags
syn_flags = record control_flags { syn = true }

abbrev pub syn_ack_flags : Flags
syn_ack_flags = record control_flags { syn = true; ack = true }
