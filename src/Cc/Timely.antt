-- ===== src/Cc/Timely.antt =====
-- TIMELY of user/cc.c. Signed numbers are bit patterns: 32 bits in `rtt_diff`, 64 bits elsewhere.
use flex_toe.Prelude.{
  if◌then◌else◌, ℕ, ◌%◌, ◌-◌, ◌/◌, ◌==◌, ◌^◌, ◌||◌, Option, false, leb, ltb, none, some, true,
}
use flex_toe.Prelude.Words.{
  add32, add64, div_signed64, is_negative64, mul32, mul64, sign_extend32, sub32, sub64, u32_mod,
  uint32_max,
}
use flex_toe.Cc.Dctcp.{actual_rate, clamp_rate, rtt_or_init}
use flex_toe.Cc.State.{Config, Conn, Stats, Timely}

abbrev pub int32_max : ℕ
int32_max = 2 ^ 31 - 1

abbrev pub int16_max : ℕ
int16_max = 2 ^ 15 - 1

-- `act_rate` is what the memory of that field holds, which this function leaves.
unfoldable pub timely_init : Config → ℕ → Conn → Conn × Timely
timely_init config act_rate c = (
  record c { cc_rate = config.cc_timely_init },
  record {
    rtt_prev = 0;
    rtt_diff = 0;
    hai_cnt = 0;
    act_rate = act_rate;
    last_ts = 0;
    slowstart = true;
  },
)

-- The filtered change of the round-trip time and its gradient, normalised by the least one.
unfoldable pub gradient_of : Config → ℕ → Timely → Option (ℕ × ℕ)
gradient_of config new_rtt cc =
    if cc.rtt_prev == 0
    then some (cc.rtt_diff, 0)
    else let new_rtt_diff = sub32 new_rtt cc.rtt_prev in
      let factor = config.cc_timely_alpha / 2 in
      let x =
        add64 (mul64 (sub64 int32_max factor) (sign_extend32 cc.rtt_diff))
          (mul64 factor (sign_extend32 new_rtt_diff)) in
      let rtt_diff = div_signed64 x int32_max % u32_mod in
      if config.cc_timely_min_rtt == 0
      then none
      else some (
        rtt_diff,
        div_signed64 (mul64 (sign_extend32 rtt_diff) int16_max) config.cc_timely_min_rtt,
      )

-- The cut above the high threshold, by the share of the round-trip time that exceeds it.
unfoldable pub above_cut : Config → ℕ → ℕ → ℕ
above_cut config new_rtt rate =
    let d = mul64 uint32_max config.cc_timely_thigh / new_rtt % u32_mod in
    let b = sub32 uint32_max d in
    let a = mul64 config.cc_timely_beta b / uint32_max % u32_mod in
    mul64 rate (sub32 uint32_max a) / uint32_max % u32_mod

-- The cut by a positive gradient.
unfoldable pub gradient_cut : Config → ℕ → ℕ → ℕ
gradient_cut config gradient rate =
    let a = mul64 (config.cc_timely_beta / 2) gradient in
    let b = div_signed64 a int16_max in
    let d = if is_negative64 b || leb b int32_max then sub64 int32_max b else 0 in
    div_signed64 (mul64 rate d) int32_max % u32_mod

-- The additive increase, five-fold from the fifth time in a row on.
unfoldable pub below_gradient : Config → ℕ → ℕ → ℕ × ℕ
below_gradient config hai_cnt rate =
    let hai_cnt' = add32 hai_cnt 1 in
    if leb 5 hai_cnt'
    then (add32 rate (mul32 config.cc_timely_step 5), sub32 hai_cnt' 1)
    else (add32 rate config.cc_timely_step, hai_cnt')

-- The five cases of the rate adaptation, with the new `hai_cnt`.
unfoldable pub adapt_rate : Config → ℕ → ℕ → Timely → ℕ → ℕ × ℕ
adapt_rate config new_rtt gradient cc rate =
    if cc.slowstart
    then (mul32 rate 2, cc.hai_cnt)
    else if ltb new_rtt config.cc_timely_tlow
    then (add32 rate config.cc_timely_step, 0)
    else if ltb config.cc_timely_thigh new_rtt
    then (above_cut config new_rtt rate, 0)
    else if is_negative64 gradient || (gradient == 0)
    then below_gradient config cc.hai_cnt rate
    else (gradient_cut config gradient rate, 0)

-- At least half of the rate before, at least the configured minimum.
unfoldable pub rate_floor : Config → ℕ → ℕ → ℕ
rate_floor config orig_rate rate =
    let halved = if ltb rate (orig_rate / 2) then orig_rate / 2 else rate in
    if ltb halved config.cc_timely_min_rate then config.cc_timely_min_rate else halved

unfoldable pub timely_update : Config → Conn → Stats → ℕ → Timely → Option (Conn × Timely)
timely_update config c stats cur_ts cc =
    let new_rtt = stats.rtt in
    elim (actual_rate cc.last_ts cur_ts cc.act_rate stats.c_ackb) [
      | none ↦ none
      | some (act, average) ↦
          let middle = add32 config.cc_timely_tlow config.cc_timely_thigh / 2 in
          let slowstart = if ltb middle new_rtt then false else cc.slowstart in
          let rate = if slowstart then c.cc_rate else clamp_rate act c.cc_rate in
          let measured = record cc { act_rate = average } in
          if new_rtt == 0 then some (c, measured) else elim (gradient_of config new_rtt cc) [
            | none ↦ none
            | some (rtt_diff, gradient) ↦
                let cc₁ = record measured {
                  slowstart = slowstart;
                  rtt_diff = rtt_diff;
                  rtt_prev = new_rtt;
                } in
                let (adapted, hai_cnt) = adapt_rate config new_rtt gradient cc₁ rate in
                some (
                  record c {
                    cc_rate = rate_floor config rate adapted;
                    cc_rtt = new_rtt;
                    cc_rexmits = 0;
                  },
                  record cc₁ { hai_cnt = hai_cnt; last_ts = cur_ts },
                )
          ]
    ]

-- Constant rate.
unfoldable pub const_rate_init : Config → Conn → Conn
const_rate_init config c = record c { cc_rate = config.cc_const_rate }

unfoldable pub const_rate_update : Config → Conn → Stats → Conn
const_rate_update config c stats = record c {
  cc_rtt = rtt_or_init config stats.rtt;
  cc_rexmits = 0;
}
