-- ===== src/Tcp/Control.antt =====
-- The control segments that user/tcp.c sends: `send_control_raw` and its callers. The checksums, of
-- include/rte, a library, and the constant fields of the IP header are left out.
use flex_toe.Prelude.{
  if◌then◌else◌, ℕ, ◌%◌, ◌&&◌, ◌*◌, ◌+◌, ◌-◌, ◌/◌, ◌==◌, ◌^◌, Bool, Option, false, leb, ltb, none,
  some, true, update,
}
use flex_toe.Prelude.Words.{add32}
use flex_toe.Tcp.Conn.{Connection, control_flags}
use flex_toe.Tcp.State.{
  Flags, Packet, TcpOpts, header_size, mss_opt_size, timestamp_opt_size, ts_val,
}

-- `memset` with 0, and stores in network byte order.
abbrev pub zeroed : ℕ → ℕ → (ℕ → ℕ) → ℕ → ℕ
zeroed off n b i = if leb off i && ltb i (off + n) then 0 else b i

abbrev pub put16 : ℕ → ℕ → (ℕ → ℕ) → ℕ → ℕ
put16 v off b = update (update b off (v / 2 ^ 8 % 2 ^ 8)) (off + 1) (v % 2 ^ 8)

abbrev pub put32 : ℕ → ℕ → (ℕ → ℕ) → ℕ → ℕ
put32 v off b = put16 (v % 2 ^ 16) (off + 2) (put16 (v / 2 ^ 16) off b)

-- The offsets of the options, behind two options of one byte, and the length of all in words of 4.
abbrev pub off_ts : ℕ
off_ts = 2

abbrev pub off_mss : Option ℕ → ℕ
off_mss none = off_ts
off_mss (some echo) = off_ts + timestamp_opt_size

abbrev pub optlen : Option ℕ → ℕ → ℕ
optlen ts mss_opt = (off_mss ts + (if mss_opt == 0 then 0 else mss_opt_size) + 3) / 4 * 4

-- The bytes behind the header in the buffer `b`. `ts` is the echoed timestamp with `ts_opt`; the
-- timestamp's option is cleared with the length of all options.
unfoldable pub control_options : Option ℕ → ℕ → (ℕ → ℕ) → ℕ → ℕ
control_options ts mss_opt b =
    let noops = update (update b 0 1) 1 1 in
    let off = off_mss ts in
    let mss = put16 mss_opt (off + 2) (update (update noops off 2) (off + 1) mss_opt_size) in
    let sized : ℕ → ℕ = if mss_opt == 0 then noops else mss in
    elim ts [
      | none ↦ sized
      | some echo ↦
          let clear = zeroed off_ts (optlen (some echo) mss_opt) sized in
          let head = update (update clear off_ts 8) (off_ts + 1) timestamp_opt_size in
          put32 echo (off_ts + 6) (put32 0 (off_ts + 2) head)
    ]

-- A segment in the transmit buffer, with its length and the arguments of `nicif_tx_send`.
pub record Sent : Type 0 where
  pub eth_dest : ℕ
  pub packet : Packet
  pub len : ℕ
  pub no_ts : Bool
  pub ts_pos : ℕ

abbrev pub is_none {ℓ} : {A : Type ℓ} → Option A → Bool
is_none none = true
is_none (some a) = false

-- `eth_addr`, the address of the host, and the buffer that `nicif_tx_alloc` gives; `none`: it has
-- none, and the result is -1.
module _ (eth_addr ip : ℕ) (buffer : Option (ℕ → ℕ)) where
  unfoldable pub send_control_raw : ℕ → ℕ → ℕ → ℕ → ℕ → ℕ → Flags → Option ℕ → ℕ → Option Sent
  send_control_raw remote_mac remote_ip remote_port local_port local_seq remote_seq flags ts
        mss_opt =
      elim buffer [
        | none ↦ none
        | some b ↦
            let words = optlen ts mss_opt in
            some (record {
              eth_dest = remote_mac;
              packet = record {
                eth_src = eth_addr;
                ip_len = header_size + words - 14;
                src_ip = ip;
                dest_ip = remote_ip;
                src_port = local_port;
                dest_port = remote_port;
                seqno = local_seq;
                ackno = remote_seq;
                hdrlen = 5 + words / 4;
                flags = flags;
                after = control_options ts mss_opt b;
              };
              len = header_size + words;
              no_ts = is_none ts;
              ts_pos = header_size + off_ts + 2;
            })
      ]

  -- `send_control` as a segment.
  unfoldable pub control_segment : Connection → Flags → Option ℕ → Option Sent
  control_segment c flags ts =
      let e = c.entry in
      send_control_raw c.remote_mac e.remote_ip e.remote_port e.local_port c.local_seq c.remote_seq
        flags ts 0

  unfoldable pub send_reset : Packet → TcpOpts → Option Sent
  send_reset p opts =
      let echo : Option ℕ = elim opts.ts [ none ↦ none | some off ↦ some (ts_val p off) ] in
      send_control_raw p.eth_src p.src_ip p.src_port p.dest_port p.ackno (add32 p.seqno 1)
        (record control_flags { rst = true; ack = true }) echo 0
