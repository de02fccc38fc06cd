-- ===== src/Tcp/Echo.antt =====
-- The control segments of user/tcp.c, read by the parser of the peer.
use flex_toe.Prelude.{ℕ, ◌+◌, ◌<◌, ◌^◌, ◌∷◌, ◌≡◌, [], arith, inl, none, refl, some}
use flex_toe.Tcp.Conn.{Connection}
use flex_toe.Tcp.Control.{Sent, control_options, control_segment, send_control_raw}
use flex_toe.Tcp.Options.{Parsed, option_at, parse_loop, parse_options}
use flex_toe.Tcp.Parse.{Opt, parse_options-Encodes}
use flex_toe.Tcp.State.{Flags, be32, header_size}

module _ (eth_addr ip : ℕ) (b : ℕ → ℕ) (c : Connection) (flags : Flags) where
  -- A control segment with a timestamp is read by `parse_options`: it has the timestamp's option, and
  -- no other, and the option has the value to echo.
  pub control_segment-parse_options :
      (echo : ℕ)
      → echo < 2 ^ 32
      → (m : Sent) × (control_segment eth_addr ip (some b) c flags (some echo) ≡ some m)
        × (parse_options m.packet m.len ≡ Parsed.parsed (record { mss = none; ts = some 2 }))
        × (be32 m.packet.after 8 ≡ echo)
  unfolding control_segment send_control_raw control_options
  control_segment-parse_options echo small = (
    _,
    refl,
    parse_options-Encodes _ 66 (Opt.no_op ∷ Opt.no_op ∷ Opt.timestamp ∷ []) (omega arith)
        (omega arith) (omega arith) (omega arith) (omega arith) (refl, (refl, ((refl, refl), tt)))
        (inl refl),
    omega (arith, small),
  )

  -- Clearing the timestamp's option runs over the end of the segment: the two bytes behind it are
  -- 0, whatever stood there. The bytes behind those stay.
  pub control_segment-overrun :
      (echo i : ℕ)
      → (m : Sent) × (control_segment eth_addr ip (some b) c flags (some echo) ≡ some m)
        × (header_size + 12 ≡ m.len)
        × (m.packet.after 12 ≡ 0)
        × (m.packet.after 13 ≡ 0)
        × (m.packet.after (14 + i) ≡ b (14 + i))
  unfolding control_segment send_control_raw control_options
  control_segment-overrun echo i = (_, refl, refl, refl, refl, ground arith)

  -- A control segment without a timestamp has two bytes of its options from the buffer. When the
  -- first of them is no option, `parse_options` does not read the segment.
  pub control_segment-stale :
      8 < b 2
      → (m : Sent) × (control_segment eth_addr ip (some b) c flags none ≡ some m)
        × (parse_options m.packet m.len ≡ Parsed.failed)
  unfolding control_segment send_control_raw control_options parse_options parse_loop option_at
  control_segment-stale h = (_, refl, ground (arith, h))
