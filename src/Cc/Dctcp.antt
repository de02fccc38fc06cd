-- ===== src/Cc/Dctcp.antt =====
-- Window-based and rate-based DCTCP of user/cc.c.
use flex_toe.Prelude.{
  if◌then◌else◌, ℕ, ◌%◌, ◌&&◌, ◌*◌, ◌+◌, ◌/◌, ◌==◌, ◌||◌, Bool, Option, false, leb, ltb, max, min,
  none, some, true,
}
use flex_toe.Prelude.Words.{add32, add64, mul32, mul64, sub32, u32_mod, uint32_max}
use flex_toe.Cc.State.{Config, Conn, DctcpRate, DctcpWin, Stats, conf_mss, div?}

-- `window_to_rate`: bytes to kbps.
unfoldable pub window_to_rate : Config → ℕ → ℕ → Option ℕ
window_to_rate config window rtt = elim (div? (mul64 (mul64 window 8) 1000) config.tcp_link_bw) [
  | none ↦ none
  | some t ↦
      let time = max (t / 1000) (mul32 rtt 1000) in
      if time == 0 then none else some (min (mul64 (mul64 window 8) 1000000 / time) uint32_max)
]

-- The new ECN rate: the share of marked bytes, averaged with the old rate by the weight.
unfoldable pub new_ecn_rate : Config → ℕ → ℕ → ℕ → ℕ
new_ecn_rate config old c_ecnb c_ackb =
    let share = mul64 c_ecnb uint32_max / c_ackb in
    let weight = config.cc_dctcp_weight in
    add64 (mul64 share weight) (mul64 old (sub32 uint32_max weight)) / uint32_max % u32_mod

-- `value` reduced by half of the ECN rate.
unfoldable pub ecn_cut : ℕ → ℕ → ℕ
ecn_cut value ecn_rate = mul64 value (sub32 uint32_max (ecn_rate / 2)) / uint32_max % u32_mod

unfoldable pub dctcp_win_init : Config → Conn → Option (Conn × DctcpWin)
dctcp_win_init config c = elim (window_to_rate config (2 * conf_mss) config.tcp_rtt_init) [
  | none ↦ none
  | some r ↦
      some
        (record c { cc_rate = r }, record { ecn_rate = 0; window = 2 * conf_mss; slowstart = true })
]

-- No drop, no mark, no retransmission.
abbrev pub is_clear : Conn → ℕ → ℕ → Bool
is_clear c c_drops c_ecnb = (c_drops == 0) && ((c_ecnb == 0) && (c.cc_rexmits == 0))

-- The slow-start step: double the window, but do not let it overflow.
unfoldable pub win_slow_start : Conn → Stats → DctcpWin → ℕ → DctcpWin × ℕ
win_slow_start c stats cc win =
    if cc.slowstart
    then if is_clear c stats.c_drops stats.c_ecnb
      then (cc, if ltb win (add32 win stats.c_ackb) then add32 win stats.c_ackb else win)
      else (record cc { slowstart = false }, win)
    else (cc, win)

-- Congestion avoidance without drops: the ECN rate, then a cut or an additive increase.
unfoldable pub win_ecn : Config → Stats → DctcpWin → ℕ → DctcpWin × ℕ
win_ecn config stats cc win =
    let c_ackb = stats.c_ackb in
    let acked = ltb 0 c_ackb in
    let c_ecnb = if acked then min stats.c_ecnb c_ackb else stats.c_ecnb in
    let ecn_rate = if acked then new_ecn_rate config cc.ecn_rate c_ecnb c_ackb else cc.ecn_rate in
    let grown = (win + mul64 c_ackb conf_mss / win) % u32_mod in
    (
      record cc { ecn_rate = ecn_rate },
      if ltb 0 c_ecnb then ecn_cut win ecn_rate else if ltb win grown then grown else win,
    )

unfoldable pub win_avoidance : Config → Conn → Stats → DctcpWin → ℕ → DctcpWin × ℕ
win_avoidance config c stats cc win =
    if cc.slowstart
    then (cc, win)
    else if ltb 0 stats.c_drops || ltb 0 c.cc_rexmits
    then (cc, win / 2)
    else win_ecn config stats cc win

-- At least one segment, at most the send buffer.
unfoldable pub win_limit : Conn → ℕ → ℕ
win_limit c win =
    let w = if ltb win conf_mss then conf_mss else win in if ltb c.tx_len w then c.tx_len else w

-- An estimate of 0 is replaced by the configured one.
abbrev pub rtt_or_init : Config → ℕ → ℕ
rtt_or_init config rtt = if rtt == 0 then config.tcp_rtt_init else rtt

unfoldable pub dctcp_win_update : Config → Conn → Stats → DctcpWin → Option (Conn × DctcpWin)
dctcp_win_update config c stats cc =
    let rtt = rtt_or_init config stats.rtt in
    let (cc₁, win₁) = win_slow_start c stats cc cc.window in
    let (cc₂, win₂) = win_avoidance config c stats cc₁ win₁ in
    let win = win_limit c win₂ in
    if ltb cc.window conf_mss then none else elim (window_to_rate config win rtt) [
      | none ↦ none
      | some r ↦
          if ltb win conf_mss
          then none
          else some
              (record c { cc_rtt = rtt; cc_rate = r; cc_rexmits = 0 }, record cc₂ { window = win })
    ]

-- `act_rate` is what the memory of that field holds, which this function leaves.
unfoldable pub dctcp_rate_init : Config → ℕ → Conn → Conn × DctcpRate
dctcp_rate_init config act_rate c = (
  record c { cc_rate = config.cc_dctcp_init },
  record {
    unproc_acks = 0;
    unproc_ackb = 0;
    unproc_ecnb = 0;
    unproc_drops = 0;
    ecn_rate = 0;
    act_rate = act_rate;
    slowstart = true;
  },
)

-- The statistics with what earlier intervals left over.
unfoldable pub gather : DctcpRate → Stats → DctcpRate
gather cc stats = record cc {
  unproc_ecnb = add32 cc.unproc_ecnb stats.c_ecnb;
  unproc_acks = add32 cc.unproc_acks stats.c_acks;
  unproc_ackb = add32 cc.unproc_ackb stats.c_ackb;
  unproc_drops = add32 cc.unproc_drops stats.c_drops;
}

-- The rate that was used since the last run, and its running average: the larger one counts.
unfoldable pub actual_rate : ℕ → ℕ → ℕ → ℕ → Option (ℕ × ℕ)
actual_rate last_ts cur_ts average c_ackb =
    let used =
      if last_ts == 0 then some 0 else div? (mul32 (mul32 c_ackb 8) 1000) (sub32 cur_ts last_ts) in
    elim used [
      | none ↦ none
      | some r ↦
          let average' = add32 (mul32 7 average) r / 8 in
          some (if leb average' r then r else average', average')
    ]

-- At most 1.2 times the rate that was used.
abbrev pub clamp_rate : ℕ → ℕ → ℕ
clamp_rate act rate = let top = mul64 act 12 / 10 in if ltb top rate then top % u32_mod else rate

-- The slow-start step on a rate.
unfoldable pub rate_slow_start : Conn → ℕ → ℕ → DctcpRate → ℕ → DctcpRate × ℕ
rate_slow_start c c_drops c_ecnb cc rate =
    if cc.slowstart
    then if is_clear c c_drops c_ecnb
      then (cc, if leb rate (mul32 rate 2) then mul32 rate 2 else uint32_max)
      else (record cc { slowstart = false }, rate)
    else (cc, rate)

unfoldable pub rate_ecn : Config → ℕ → ℕ → DctcpRate → ℕ → DctcpRate × ℕ
rate_ecn config ecnb c_ackb cc rate =
    let acked = ltb 0 c_ackb in
    let c_ecnb = if acked then min ecnb c_ackb else ecnb in
    let ecn_rate = if acked then new_ecn_rate config cc.ecn_rate c_ecnb c_ackb else cc.ecn_rate in
    (
      record cc { ecn_rate = ecn_rate },
      if ltb 0 c_ecnb
          then ecn_cut rate ecn_rate
          else if config.cc_dctcp_mimd == 0
          then add32 rate config.cc_dctcp_step
          else (rate + mul64 rate config.cc_dctcp_mimd / uint32_max) % u32_mod,
    )

unfoldable pub rate_avoidance : Config → Conn → DctcpRate → DctcpRate → ℕ → DctcpRate × ℕ
rate_avoidance config c all cc rate =
    if cc.slowstart
    then (cc, rate)
    else if ltb 0 all.unproc_drops || ltb 0 c.cc_rexmits
    then (cc, rate / 2)
    else rate_ecn config all.unproc_ecnb all.unproc_ackb cc rate

-- The part of `dctcp_rate_update` that runs once enough acknowledgements are gathered, in `all`.
unfoldable pub rate_process : Config → Conn → ℕ → DctcpRate → Option (Conn × DctcpRate)
rate_process config c cur_ts all =
    elim (actual_rate c.cc_last_ts cur_ts all.act_rate all.unproc_ackb) [
      | none ↦ none
      | some (act, average) ↦
          let cc = record all {
            unproc_ecnb = 0;
            unproc_acks = 0;
            unproc_ackb = 0;
            unproc_drops = 0;
            act_rate = average;
          } in
          let (cc₁, rate₁) =
            rate_slow_start c all.unproc_drops all.unproc_ecnb cc (clamp_rate act c.cc_rate) in
          let (cc₂, rate₂) = rate_avoidance config c all cc₁ rate₁ in
          some (
            record c {
              cc_rate = if ltb rate₂ config.cc_dctcp_min then config.cc_dctcp_min else rate₂;
              cc_rexmits = 0;
            },
            cc₂,
          )
    ]

unfoldable pub dctcp_rate_update : Config → Conn → Stats → ℕ → DctcpRate → Option (Conn × DctcpRate)
dctcp_rate_update config c stats cur_ts cc =
    let c' = record c { cc_rtt = rtt_or_init config stats.rtt } in
    let all = gather cc stats in
    let processed = rate_process config c' cur_ts all in
    if ltb all.unproc_acks config.cc_dctcp_minpkts then some (c', all) else processed
