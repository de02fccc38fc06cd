-- ===== src/Cc/WinMoves.antt =====
-- Window-based DCTCP of user/cc.c: when the window shrinks, by how much, and when it grows.
use flex_toe.Prelude.{ℕ, ◌/◌, ◌≡◌, ◌≤◌, Option-cases, ap, arith, false, inl, inr, min, some, true}
use flex_toe.Prelude.Words.{uint32_max}
use flex_toe.Cc.Dctcp.{
  dctcp_win_update, is_clear, new_ecn_rate, rtt_or_init, win_avoidance, win_ecn, win_limit,
  win_slow_start, window_to_rate,
}
use flex_toe.Cc.State.{Config, Conn, DctcpWin, Stats}
use flex_toe.Cc.WinBounds.{WinOk, ecn_cut-bounds}

pub new_ecn_rate-word :
    (config : Config) (old c_ecnb c_ackb : ℕ) → new_ecn_rate config old c_ecnb c_ackb ≤ uint32_max
unfolding new_ecn_rate
new_ecn_rate-word config old c_ecnb c_ackb = omega arith

-- Congestion avoidance with a drop, a mark or a retransmission.
win_avoidance-cut :
    (config : Config) (c : Conn) (stats : Stats) (cc : DctcpWin) (w : ℕ)
    → is_clear c stats.c_drops stats.c_ecnb ≡ false
    → cc.slowstart ≡ false
    → w ≤ uint32_max
    → cc.ecn_rate ≤ uint32_max
    → (w / 2 ≤ (win_avoidance config c stats cc w).1) × ((win_avoidance config c stats cc w).1 ≤ w)
unfolding win_avoidance win_ecn
win_avoidance-cut config c stats cc w n off h e =
    let rate = new_ecn_rate config cc.ecn_rate (min stats.c_ecnb stats.c_ackb) stats.c_ackb in
    let r = new_ecn_rate-word config cc.ecn_rate (min stats.c_ecnb stats.c_ackb) stats.c_ackb in
    ground (arith, ecn_cut-bounds w rate h r, ecn_cut-bounds w cc.ecn_rate h e)

win_avoidance-slowstart :
    (config : Config) (c : Conn) (stats : Stats) (cc : DctcpWin) (w : ℕ)
    → (win_avoidance config c stats cc w).0.slowstart ≡ cc.slowstart
unfolding win_avoidance win_ecn
win_avoidance-slowstart config c stats cc w = ground arith

-- Congestion avoidance without any of them.
win_avoidance-grow :
    (config : Config) (c : Conn) (stats : Stats) (cc : DctcpWin) (w : ℕ)
    → is_clear c stats.c_drops stats.c_ecnb ≡ true
    → w ≤ (win_avoidance config c stats cc w).1
unfolding win_avoidance win_ecn
win_avoidance-grow config c stats cc w n = ground arith

-- Slow start.
win_slow_start-stop :
    (c : Conn) (stats : Stats) (cc : DctcpWin) (w : ℕ)
    → is_clear c stats.c_drops stats.c_ecnb ≡ false
    → win_slow_start c stats cc w ≡ (record cc { slowstart = false }, w)
unfolding win_slow_start
win_slow_start-stop c stats cc w n = ground arith

win_slow_start-grow :
    (c : Conn) (stats : Stats) (cc : DctcpWin) (w : ℕ)
    → is_clear c stats.c_drops stats.c_ecnb ≡ true
    → w ≤ (win_slow_start c stats cc w).1
unfolding win_slow_start
win_slow_start-grow c stats cc w n = ground arith

-- After an interval with a drop, a marked byte or a retransmission, slow start is over, and the
-- window has not grown and has kept at least half. The window before lies between one segment and
-- the send buffer.
pub dctcp_win_update-cut :
    (config : Config) (c : Conn) (stats : Stats) (cc : DctcpWin) (c' : Conn) (cc' : DctcpWin)
    → WinOk c cc
    → is_clear c stats.c_drops stats.c_ecnb ≡ false
    → dctcp_win_update config c stats cc ≡ some (c', cc')
    → (cc'.slowstart ≡ false) × (cc.window / 2 ≤ cc'.window) × (cc'.window ≤ cc.window)
unfolding dctcp_win_update win_limit
dctcp_win_update-cut config c stats cc c' cc' w n e =
    let record { one_segment = w₁; in_buffer = w₂; fraction = w₃; buffer_fits = w₄ } = w in
    let s = win_slow_start c stats cc cc.window in
    let v = win_avoidance config c stats s.0 s.1 in
    let stop = win_slow_start-stop c stats cc cc.window n in
    let off : s.0.slowstart ≡ false = ap (λ x. x.0.slowstart) stop in
    let same : s.1 ≡ cc.window = ap (λ x. x.1) stop in
    let old : s.0.ecn_rate ≡ cc.ecn_rate = ap (λ x. x.0.ecn_rate) stop in
    elim (Option-cases (window_to_rate config (win_limit c v.1) (rtt_or_init config stats.rtt))) [
      | inl k ↦ ground arith
      | inr (r, k) ↦ ground (
        arith,
        win_avoidance-cut config c stats s.0 s.1 n off (omega arith) (omega arith),
        win_avoidance-slowstart config c stats s.0 s.1,
      )
    ]

-- After an interval without any of these, the window has not shrunk, whether in slow start or not.
pub dctcp_win_update-grow :
    (config : Config) (c : Conn) (stats : Stats) (cc : DctcpWin) (c' : Conn) (cc' : DctcpWin)
    → WinOk c cc
    → is_clear c stats.c_drops stats.c_ecnb ≡ true
    → dctcp_win_update config c stats cc ≡ some (c', cc')
    → cc.window ≤ cc'.window
unfolding dctcp_win_update win_limit
dctcp_win_update-grow config c stats cc c' cc' w n e =
    let record { one_segment = w₁; in_buffer = w₂; fraction = w₃; buffer_fits = w₄ } = w in
    let s = win_slow_start c stats cc cc.window in
    let v = win_avoidance config c stats s.0 s.1 in
    elim (Option-cases (window_to_rate config (win_limit c v.1) (rtt_or_init config stats.rtt))) [
      | inl k ↦ ground arith
      | inr (r, k) ↦ ground (
        arith,
        win_slow_start-grow c stats cc cc.window n,
        win_avoidance-grow config c stats s.0 s.1 n,
      )
    ]
