-- ===== src/Tcp/State.antt =====
-- The packets and options that user/tcp.c reads (user/packet_defs.h).
-- A word of flags is the record of its bits.
use flex_toe.Prelude.{ℕ, ◌*◌, ◌+◌, ◌^◌, Bool, Option}

-- The bits TCP_FIN to TCP_NS.
pub record Flags : Type 0 where
  pub fin : Bool
  pub syn : Bool
  pub rst : Bool
  pub psh : Bool
  pub ack : Bool
  pub urg : Bool
  pub ece : Bool
  pub cwr : Bool
  pub ns : Bool

-- `struct pkt_tcp` in host byte order; `after` are the bytes behind the header.
pub record Packet : Type 0 where
  pub eth_src : ℕ
  pub ip_len : ℕ
  pub src_ip : ℕ
  pub dest_ip : ℕ
  pub src_port : ℕ
  pub dest_port : ℕ
  pub seqno : ℕ
  pub ackno : ℕ
  pub hdrlen : ℕ
  pub flags : Flags
  pub after : ℕ → ℕ

-- `struct tcp_opts`, with offsets into the options for pointers.
pub record TcpOpts : Type 0 where
  pub mss : Option ℕ
  pub ts : Option ℕ

-- `sizeof(struct pkt_tcp)`.
abbrev pub header_size : ℕ
header_size = 54

abbrev pub mss_opt_size : ℕ
mss_opt_size = 4

abbrev pub timestamp_opt_size : ℕ
timestamp_opt_size = 10

-- A `beui32_t` at an offset, and the field `ts_val` of an option there.
abbrev pub be32 : (ℕ → ℕ) → ℕ → ℕ
be32 b i = b i * 2 ^ 24 + b (i + 1) * 2 ^ 16 + b (i + 2) * 2 ^ 8 + b (i + 3)

abbrev pub ts_val : Packet → ℕ → ℕ
ts_val p off = be32 p.after (off + 2)
