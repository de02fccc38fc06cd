-- ===== src/Tcp/Parse.antt =====
-- The options of a segment as `parse_options` of user/tcp.c reads them.
use flex_toe.Prelude.{
  ℕ, ◌+◌, ◌<◌, ◌^◌, ◌∙◌, ◌∷◌, ◌≡◌, ◌≢◌, ◌≤◌, ◌⊎◌, List, [], arith, inl, inr, refl, some, subst, suc,
  zero,
}
use flex_toe.Tcp.Options.{
  Parsed, Round, no_opts, option_at, options_length, parse_loop, parse_options,
}
use flex_toe.Tcp.State.{Packet, TcpOpts, header_size, mss_opt_size, timestamp_opt_size}

-- The options that are read.
pub data Opt : Type 0 where
  no_op mss_opt timestamp : Opt

abbrev pub opt_size : Opt → ℕ
opt_size Opt.no_op = 1
opt_size Opt.mss_opt = mss_opt_size
opt_size Opt.timestamp = timestamp_opt_size

abbrev pub options_size : List Opt → ℕ
options_size [] = 0
options_size (o ∷ os) = opt_size o + options_size os

-- The kind and the length byte of an option stand at an offset.
abbrev pub Stands : (ℕ → ℕ) → ℕ → Opt → Type 0
Stands b off Opt.no_op = b off ≡ 1
Stands b off Opt.mss_opt = (b off ≡ 2) × (b (off + 1) ≡ mss_opt_size)
Stands b off Opt.timestamp = (b off ≡ 8) × (b (off + 1) ≡ timestamp_opt_size)

-- The options stand one behind the other.
abbrev pub Encodes : (ℕ → ℕ) → ℕ → List Opt → Type 0
Encodes b off [] = Unit {0}
Encodes b off (o ∷ os) = Stands b off o × Encodes b (off + opt_size o) os

-- Where the last option of each kind stands.
abbrev pub noted : ℕ → Opt → TcpOpts → TcpOpts
noted off Opt.no_op opts = opts
noted off Opt.mss_opt opts = record opts { mss = some off }
noted off Opt.timestamp opts = record opts { ts = some off }

abbrev pub last_of : ℕ → List Opt → TcpOpts → TcpOpts
last_of off [] opts = opts
last_of off (o ∷ os) opts = last_of (off + opt_size o) os (noted off o opts)

-- A round moves on by at least one byte.
option_at-progress :
    (opt : ℕ → ℕ) (opts_len off : ℕ) (opts : TcpOpts) (off' : ℕ) (opts' : TcpOpts)
    → option_at opt opts_len off opts ≡ Round.next off' opts'
    → off < off'
unfolding option_at
option_at-progress opt opts_len off opts off' opts' e = ground arith

module _ (opt : ℕ → ℕ) (opts_len fuel off : ℕ) (opts : TcpOpts) where
  -- One round, by what it comes to.
  parse_loop-round :
      (r : Round)
      → option_at opt opts_len off opts ≡ r
      → ((off' : ℕ) (opts' : TcpOpts)
          → off < off'
          → parse_loop opt opts_len fuel off' opts' ≢ Parsed.looking)
      → parse_loop opt opts_len (suc fuel) off opts ≢ Parsed.looking
  unfolding parse_loop
  parse_loop-round Round.stop e h = ground arith
  parse_loop-round Round.malformed e h = ground arith
  parse_loop-round (Round.next off' opts') e h =
      ground (arith, h off' opts', option_at-progress opt opts_len off opts off' opts' e)

parse_loop-next :
    (opt : ℕ → ℕ) (opts_len fuel off : ℕ) (opts : TcpOpts) (off' : ℕ) (opts' : TcpOpts)
    → off < opts_len
    → option_at opt opts_len off opts ≡ Round.next off' opts'
    → parse_loop opt opts_len (suc fuel) off opts ≡ parse_loop opt opts_len fuel off' opts'
unfolding parse_loop
parse_loop-next opt opts_len fuel off opts off' opts' h e = ground arith

parse_loop-total :
    (opt : ℕ → ℕ) (opts_len fuel off : ℕ) (opts : TcpOpts)
    → opts_len < fuel + off
    → 0 < fuel
    → parse_loop opt opts_len fuel off opts ≢ Parsed.looking
unfolding parse_loop
parse_loop-total opt opts_len zero off opts h z = absurd (omega arith)
parse_loop-total opt opts_len (suc zero) off opts h z = ground arith
parse_loop-total opt opts_len (suc (suc fuel)) off opts h z =
    parse_loop-round opt opts_len (suc fuel) off opts (option_at opt opts_len off opts) refl
      λ off' opts' l.
        parse_loop-total opt opts_len (suc fuel) off' opts' (omega arith) (omega arith)

-- Whatever the bytes are, the walk over the options ends within its fuel of one round for each byte
-- and one more.
pub parse_options-total : (p : Packet) (len : ℕ) → parse_options p len ≢ Parsed.looking
unfolding parse_options
parse_options-total p len =
    let h =
      parse_loop-total p.after (options_length p) (suc (options_length p)) 0 no_opts (omega arith)
        (omega arith) in
    ground (arith, h)

-- Behind the options either nothing is left or a byte 0 stands.
abbrev pub Ends : (ℕ → ℕ) → ℕ → ℕ → Type 0
Ends b opts_len off = (off ≡ opts_len) ⊎ (b off ≡ 0)

option_at-Stands :
    (b : ℕ → ℕ) (opts_len off : ℕ) (o : Opt) (opts : TcpOpts)
    → off + opt_size o ≤ opts_len
    → opts_len < 2 ^ 8
    → Stands b off o
    → option_at b opts_len off opts ≡ Round.next (off + opt_size o) (noted off o opts)
unfolding option_at
option_at-Stands b opts_len off Opt.no_op opts h k s = ground arith
option_at-Stands b opts_len off Opt.mss_opt opts h k s = ground arith
option_at-Stands b opts_len off Opt.timestamp opts h k s = ground arith

opt_size-pos : (o : Opt) → 0 < opt_size o
opt_size-pos Opt.no_op = omega arith
opt_size-pos Opt.mss_opt = omega arith
opt_size-pos Opt.timestamp = omega arith

parse_loop-Ends :
    (b : ℕ → ℕ) (opts_len fuel off : ℕ) (opts : TcpOpts)
    → Ends b opts_len off
    → parse_loop b opts_len (suc fuel) off opts ≡ Parsed.parsed opts
unfolding parse_loop option_at
parse_loop-Ends b opts_len fuel off opts (inl e) = ground arith
parse_loop-Ends b opts_len fuel off opts (inr e) = ground arith

parse_loop-Encodes :
    (b : ℕ → ℕ) (opts_len fuel off end : ℕ) (os : List Opt) (opts : TcpOpts)
    → opts_len < fuel + off
    → opts_len < 2 ^ 8
    → off + options_size os ≡ end
    → end ≤ opts_len
    → Encodes b off os
    → Ends b opts_len end
    → parse_loop b opts_len fuel off opts ≡ Parsed.parsed (last_of off os opts)
parse_loop-Encodes b opts_len zero off end os opts h k q l e z = absurd (omega arith)
parse_loop-Encodes b opts_len (suc fuel) off end [] opts h k q l e z =
    let same : end ≡ off = omega arith in
    parse_loop-Ends b opts_len fuel off opts (subst (Ends b opts_len) same z)
parse_loop-Encodes b opts_len (suc fuel) off end (o ∷ os) opts h k q l e z =
    let pos = opt_size-pos o in
    let r = option_at-Stands b opts_len off o opts (omega arith) k e.0 in
    let rest =
      parse_loop-Encodes b opts_len fuel (off + opt_size o) end os (noted off o opts)
        (omega (arith, pos)) k (omega arith) l e.1 z in
    parse_loop-next b opts_len fuel off opts (off + opt_size o) (noted off o opts)
      (omega (arith, pos)) r
    ∙ rest

-- A header with room for its options, which stand one behind the other and fill it, or have a byte 0
-- behind them, is read to the end: the result has the offsets of the last MSS option and of the last
-- timestamp.
pub parse_options-Encodes :
    (p : Packet) (len : ℕ) (os : List Opt)
    → 5 ≤ p.hdrlen
    → p.hdrlen < 16
    → header_size + options_length p ≤ len
    → len < 2 ^ 16
    → options_size os ≤ options_length p
    → Encodes p.after 0 os
    → Ends p.after (options_length p) (options_size os)
    → parse_options p len ≡ Parsed.parsed (last_of 0 os no_opts)
unfolding parse_options
parse_options-Encodes p len os lo hi room w l e z =
    let n = options_length p in
    let walk =
      parse_loop-Encodes p.after n (suc n) 0 (options_size os) os no_opts (omega arith)
        (omega arith) (omega arith) l e z in
    ground (arith, walk)
