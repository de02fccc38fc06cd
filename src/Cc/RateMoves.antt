-- ===== src/Cc/RateMoves.antt =====
-- Rate-based DCTCP and TIMELY of user/cc.c: when the rate goes down.
use flex_toe.Prelude.{
  ℕ, ◌%◌, ◌/◌, ◌<◌, ◌^◌, ◌≡◌, ◌≤◌, Option-cases, arith, false, inl, inr, max, min, refl, some,
}
use flex_toe.Prelude.Words.{mul64, sub32, u32_mod, uint32_max}
use flex_toe.Cc.Dctcp.{
  actual_rate, clamp_rate, dctcp_rate_update, gather, is_clear, new_ecn_rate, rate_avoidance,
  rate_ecn, rate_process, rate_slow_start, rtt_or_init,
}
use flex_toe.Cc.State.{Config, Conn, DctcpRate, Stats, Timely}
use flex_toe.Cc.Timely.{above_cut, adapt_rate, gradient_of, rate_floor, timely_update}
use flex_toe.Cc.WinBounds.{ecn_cut-bounds, mul_bounds}
use flex_toe.Cc.WinMoves.{new_ecn_rate-word}

clamp_rate-le : (act r : ℕ) → clamp_rate act r ≤ r
clamp_rate-le act r = ground arith

rate_slow_start-stop :
    (c : Conn) (c_drops c_ecnb : ℕ) (cc : DctcpRate) (r : ℕ)
    → is_clear c c_drops c_ecnb ≡ false
    → rate_slow_start c c_drops c_ecnb cc r ≡ (record cc { slowstart = false }, r)
unfolding rate_slow_start
rate_slow_start-stop c c_drops c_ecnb cc r n = ground arith

rate_avoidance-cut :
    (config : Config) (c : Conn) (all cc : DctcpRate) (r : ℕ)
    → is_clear c all.unproc_drops all.unproc_ecnb ≡ false
    → cc.slowstart ≡ false
    → r ≤ uint32_max
    → cc.ecn_rate ≤ uint32_max
    → ((rate_avoidance config c all cc r).1 ≤ r)
      × ((rate_avoidance config c all cc r).0.slowstart ≡ false)
unfolding rate_avoidance rate_ecn
rate_avoidance-cut config c all cc r n off h e =
    let m = min all.unproc_ecnb all.unproc_ackb in
    let w = new_ecn_rate-word config cc.ecn_rate m all.unproc_ackb in
    ground (
      arith,
      ecn_cut-bounds r (new_ecn_rate config cc.ecn_rate m all.unproc_ackb) h w,
      ecn_cut-bounds r cc.ecn_rate h e,
    )

-- Once enough acknowledgements are gathered, an interval with a drop, a marked byte or a
-- retransmission ends slow start, starts the statistics afresh and does not raise the rate, except
-- up to the configured minimum.
pub dctcp_rate_update-cut :
    (config : Config) (c : Conn) (stats : Stats) (ts : ℕ) (cc : DctcpRate) (c' : Conn)
    (cc' : DctcpRate)
    → config.cc_dctcp_minpkts ≤ (gather cc stats).unproc_acks
    → is_clear c (gather cc stats).unproc_drops (gather cc stats).unproc_ecnb ≡ false
    → c.cc_rate ≤ uint32_max
    → cc.ecn_rate ≤ uint32_max
    → dctcp_rate_update config c stats ts cc ≡ some (c', cc')
    → (c'.cc_rate ≤ max config.cc_dctcp_min c.cc_rate)
      × (config.cc_dctcp_min ≤ c'.cc_rate)
      × (cc'.slowstart ≡ false)
unfolding dctcp_rate_update rate_process gather
dctcp_rate_update-cut config c stats ts cc c' cc' enough n h k e =
    let c₀ = record c { cc_rtt = rtt_or_init config stats.rtt } in
    let all = gather cc stats in
    elim (Option-cases (actual_rate c.cc_last_ts ts all.act_rate all.unproc_ackb)) [
      | inl i ↦ ground arith
      | inr ((act, average), i) ↦
          let cleared = record all {
            unproc_ecnb = 0;
            unproc_acks = 0;
            unproc_ackb = 0;
            unproc_drops = 0;
            act_rate = average;
          } in
          let r = clamp_rate act c.cc_rate in
          let le = clamp_rate-le act c.cc_rate in
          let stop = rate_slow_start-stop c₀ all.unproc_drops all.unproc_ecnb cleared r n in
          let calm = record cleared { slowstart = false } in
          ground (arith, stop, rate_avoidance-cut config c₀ all calm r n refl (omega (arith, le)) k)
    ]

above_cut-le : (config : Config) (new_rtt r : ℕ) → r ≤ uint32_max → above_cut config new_rtt r ≤ r
unfolding above_cut
above_cut-le config new_rtt r h =
    let d = mul64 uint32_max config.cc_timely_thigh / new_rtt % u32_mod in
    let a = mul64 config.cc_timely_beta (sub32 uint32_max d) / uint32_max % u32_mod in
    omega (arith, mul_bounds r (sub32 uint32_max a) 0 uint32_max (omega arith) (omega arith))

-- A round-trip time above the high threshold ends slow start and does not raise the rate, except
-- up to the configured minimum. The thresholds are in order, and the high one is below 2 ^ 31.
pub timely_update-above :
    (config : Config) (c : Conn) (stats : Stats) (ts : ℕ) (cc : Timely) (c' : Conn) (cc' : Timely)
    → config.cc_timely_tlow ≤ config.cc_timely_thigh
    → config.cc_timely_thigh < 2 ^ 31
    → config.cc_timely_thigh < stats.rtt
    → c.cc_rate ≤ uint32_max
    → timely_update config c stats ts cc ≡ some (c', cc')
    → (c'.cc_rate ≤ max config.cc_timely_min_rate c.cc_rate)
      × (config.cc_timely_min_rate ≤ c'.cc_rate)
      × (cc'.slowstart ≡ false)
unfolding timely_update adapt_rate rate_floor
timely_update-above config c stats ts cc c' cc' o b a h e =
    elim (Option-cases (actual_rate cc.last_ts ts cc.act_rate stats.c_ackb)) [
      | inl i ↦ ground arith
      | inr ((act, average), i) ↦ elim (Option-cases (gradient_of config stats.rtt cc)) [
        | inl j ↦ ground arith
        | inr ((diff, g), j) ↦
            let r = clamp_rate act c.cc_rate in
            let le = clamp_rate-le act c.cc_rate in
            ground (arith, above_cut-le config stats.rtt r (omega (arith, le)))
      ]
    ]
