-- ===== src/Cc/WinBounds.antt =====
-- Window-based DCTCP of user/cc.c: the limits of the window, and the assertions.
use native.Mathlib.Nat.{div-le_of_le-mul, mul-le-mul_right}
use flex_toe.Prelude.{
  ℕ, ◌%◌, ◌*◌, ◌+◌, ◌-◌, ◌/◌, ◌<◌, ◌^◌, ◌≡◌, ◌≤◌, Option-cases, arith, inl, inr, max, min, some,
  sym,
}
use flex_toe.Prelude.Words.{add64, mul64, sub32, u32_mod, uint32_max}
use flex_toe.Cc.Dctcp.{
  dctcp_win_update, ecn_cut, new_ecn_rate, rtt_or_init, win_avoidance, win_ecn, win_limit,
  win_slow_start, window_to_rate,
}
use flex_toe.Cc.State.{Config, Conn, DctcpWin, Stats, conf_mss}

pub mul_bounds : (v k lo hi : ℕ) → lo ≤ k → k ≤ hi → (v * lo ≤ v * k) × (v * k ≤ v * hi)
mul_bounds v k lo hi p q = grind arith

average_bounds :
    (a b w k n : ℕ) → w + k ≡ n → (min a b * n ≤ a * w + b * k) × (a * w + b * k ≤ max a b * n)
average_bounds a b w k n h =
    let hi = mul_bounds w a (min a b) (max a b) (omega arith) (omega arith) in
    let hk = mul_bounds k b (min a b) (max a b) (omega arith) (omega arith) in
    rw (sym h) (omega (arith, hi, hk))

div-share : (a b n : ℕ) → a ≤ b → 0 < b → a * n / b ≤ n
div-share a b n h p = div-le_of_le-mul b (mul-le-mul_right n h)

-- The marked share of the acknowledged bytes, as a fraction of `uint32_max`.
abbrev pub marked_share : ℕ → ℕ → ℕ
marked_share c_ecnb c_ackb = c_ecnb * uint32_max / c_ackb

average-between :
    (a b k : ℕ)
    → a ≤ uint32_max
    → b ≤ uint32_max
    → k ≤ uint32_max
    → (min a b ≤ add64 (mul64 a k) (mul64 b (uint32_max - k)) / uint32_max % u32_mod)
      × (add64 (mul64 a k) (mul64 b (uint32_max - k)) / uint32_max % u32_mod ≤ max a b)
average-between a b k ha hb hk = omega (
  arith,
  average_bounds a b k (uint32_max - k) uint32_max (omega arith),
  mul_bounds k a 0 uint32_max (omega arith) ha,
  mul_bounds (uint32_max - k) b 0 uint32_max (omega arith) hb,
)

-- The averaged ECN rate lies between the old rate and the marked share of the interval, and no
-- step of its computation overflows. The weight and the rate are fractions of `uint32_max`, and
-- no more bytes are marked than acknowledged.
pub new_ecn_rate-between :
    (config : Config) (old c_ecnb c_ackb : ℕ)
    → config.cc_dctcp_weight ≤ uint32_max
    → old ≤ uint32_max
    → c_ecnb ≤ c_ackb
    → 0 < c_ackb
    → c_ackb ≤ uint32_max
    → (min (marked_share c_ecnb c_ackb) old ≤ new_ecn_rate config old c_ecnb c_ackb)
      × (new_ecn_rate config old c_ecnb c_ackb ≤ max (marked_share c_ecnb c_ackb) old)
unfolding new_ecn_rate
new_ecn_rate-between config old c_ecnb c_ackb w o e a b =
    let s = marked_share c_ecnb c_ackb in
    let k = config.cc_dctcp_weight in
    let exact : mul64 c_ecnb uint32_max ≡ c_ecnb * uint32_max =
      omega (arith, mul_bounds uint32_max c_ecnb 0 uint32_max (omega arith) (omega arith)) in
    let rest : sub32 uint32_max k ≡ uint32_max - k = omega arith in
    let h = div-share c_ecnb c_ackb uint32_max e a in
    rw (exact, rest) (average-between s old k h o w)

-- A cut takes off at most half.
pub ecn_cut-bounds :
    (v e : ℕ) → v ≤ uint32_max → e ≤ uint32_max → (ecn_cut v e ≤ v) × (v / 2 ≤ ecn_cut v e)
unfolding ecn_cut
ecn_cut-bounds v e h k =
    omega (
      arith,
      mul_bounds v (sub32 uint32_max (e / 2)) (2 ^ 31) uint32_max (omega arith) (omega arith),
    )

-- The configuration and the estimate are such that the rate of a window is defined.
pub record CanRate (config : Config) (rtt : ℕ) : Type 0 where
  pub linked : 0 < config.tcp_link_bw
  pub some_rtt : 0 < rtt
  pub fits : rtt * 1000 < u32_mod

-- The window of a connection lies between one segment and the send buffer.
pub record WinOk (c : Conn) (cc : DctcpWin) : Type 0 where
  pub one_segment : conf_mss ≤ cc.window
  pub in_buffer : cc.window ≤ c.tx_len
  pub fraction : cc.ecn_rate ≤ uint32_max
  pub buffer_fits : c.tx_len < u32_mod

window_to_rate-total :
    (config : Config) (window rtt : ℕ)
    → CanRate config rtt
    → (r : ℕ) × (window_to_rate config window rtt ≡ some r) × (r ≤ uint32_max)
unfolding window_to_rate
window_to_rate-total config window rtt h =
    let record { linked = a; some_rtt = b; fits = e } = h in
    elim (Option-cases (window_to_rate config window rtt)) [
      | inl k ↦ ground arith
      | inr (r, k) ↦ (r, k, ground arith)
    ]

win_limit-bounds :
    (c : Conn) (w : ℕ)
    → conf_mss ≤ c.tx_len
    → (conf_mss ≤ win_limit c w) × (win_limit c w ≤ c.tx_len)
unfolding win_limit
win_limit-bounds c w h = ground arith

win_ecn-fraction :
    (config : Config) (stats : Stats) (cc : DctcpWin) (w : ℕ)
    → cc.ecn_rate ≤ uint32_max
    → (win_ecn config stats cc w).0.ecn_rate ≤ uint32_max
unfolding win_ecn new_ecn_rate
win_ecn-fraction config stats cc w h = ground arith

win_avoidance-fraction :
    (config : Config) (c : Conn) (stats : Stats) (cc : DctcpWin) (w : ℕ)
    → cc.ecn_rate ≤ uint32_max
    → (win_avoidance config c stats cc w).0.ecn_rate ≤ uint32_max
unfolding win_avoidance
win_avoidance-fraction config c stats cc w h = ground (arith, win_ecn-fraction config stats cc w h)

win_slow_start-fraction :
    (c : Conn) (stats : Stats) (cc : DctcpWin) (w : ℕ)
    → (win_slow_start c stats cc w).0.ecn_rate ≡ cc.ecn_rate
unfolding win_slow_start
win_slow_start-fraction c stats cc w = ground arith

-- An update of a connection whose window lies between one segment and the send buffer gives a
-- result: no assertion fails, and the new window lies there too. The link has a bandwidth, and the
-- estimate of the round-trip time is above 0 and a word also in nanoseconds.
pub dctcp_win_update-WinOk :
    (config : Config) (c : Conn) (stats : Stats) (cc : DctcpWin)
    → CanRate config (rtt_or_init config stats.rtt)
    → WinOk c cc
    → (r : Conn × DctcpWin) × (dctcp_win_update config c stats cc ≡ some r)
      × (WinOk r.0 r.1)
      × (r.0.cc_rate ≤ uint32_max)
unfolding dctcp_win_update
dctcp_win_update-WinOk config c stats cc h w =
    let rtt = rtt_or_init config stats.rtt in
    let s = win_slow_start c stats cc cc.window in
    let v = win_avoidance config c stats s.0 s.1 in
    let win = win_limit c v.1 in
    let (r, k, b) = window_to_rate-total config win rtt h in
    let record { one_segment = w₁; in_buffer = w₂; fraction = w₃; buffer_fits = w₄ } = w in
    let limits = win_limit-bounds c v.1 (omega arith) in
    let f =
      win_avoidance-fraction config c stats s.0 s.1
        (omega (arith, win_slow_start-fraction c stats cc cc.window)) in
    (
      (record c { cc_rtt = rtt; cc_rate = r; cc_rexmits = 0 }, record v.0 { window = win }),
      ground (arith, k, limits),
      record { one_segment = limits.0; in_buffer = limits.1; fraction = f; buffer_fits = w₄ },
      b,
    )
