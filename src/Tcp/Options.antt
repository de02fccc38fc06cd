-- ===== src/Tcp/Options.antt =====
-- `parse_options` of user/tcp.c.
use flex_toe.Prelude.{
  if◌then◌else◌, ℕ, ◌%◌, ◌*◌, ◌+◌, ◌-◌, ◌==◌, ◌^◌, ◌||◌, false, ltb, none, some, suc, true, zero,
}
use flex_toe.Prelude.Words.{sub64}
use flex_toe.Tcp.State.{Packet, TcpOpts, header_size, mss_opt_size, timestamp_opt_size}

-- What one round of the loop comes to: the end of the list, an error, or the next offset.
pub data Round : Type 0 where
  stop malformed : Round
  next : ℕ → TcpOpts → Round

unfoldable pub option_at : (ℕ → ℕ) → ℕ → ℕ → TcpOpts → Round
option_at opt opts_len off opts =
    let opt_kind = opt off in
    let opt_avail = (opts_len - off) % 2 ^ 8 in
    let opt_len = opt (off + 1) in
    if opt_kind == 0
    then Round.stop
    else if opt_kind == 1
    then Round.next (off + 1) opts
    else if ltb opt_avail 2
    then Round.malformed
    else if opt_kind == 2
    then if opt_len == mss_opt_size
      then Round.next (off + opt_len) (record opts { mss = some off })
      else Round.malformed
    else if opt_kind == 8
    then if opt_len == timestamp_opt_size
      then Round.next (off + opt_len) (record opts { ts = some off })
      else Round.malformed
    else Round.malformed

-- `looking`: the fuel is used up.
pub data Parsed : Type 0 where
  looking failed : Parsed
  parsed : TcpOpts → Parsed

-- The loop, with fuel.
unfoldable pub parse_loop : (ℕ → ℕ) → ℕ → ℕ → ℕ → TcpOpts → Parsed
parse_loop opt opts_len zero off opts = Parsed.looking
parse_loop opt opts_len (suc fuel) off opts = elim (ltb off opts_len) [
  | false ↦ Parsed.parsed opts
  | true ↦ elim (option_at opt opts_len off opts) [
    | Round.stop ↦ Parsed.parsed opts
    | Round.malformed ↦ Parsed.failed
    | Round.next off' opts' ↦ parse_loop opt opts_len fuel off' opts'
  ]
]

abbrev pub no_opts : TcpOpts
no_opts = record { mss = none; ts = none }

-- The length of the options in 16 bits, and what the buffer holds behind the header in 64.
abbrev pub options_length : Packet → ℕ
options_length p = (p.hdrlen * 4 + 2 ^ 16 - 20) % 2 ^ 16

unfoldable pub parse_options : Packet → ℕ → Parsed
parse_options p len =
    if ltb p.hdrlen 5 || ltb (sub64 len header_size) (options_length p)
    then Parsed.failed
    else parse_loop p.after (options_length p) (suc (options_length p)) 0 no_opts
