-- ===== src/Cc/Tests/Rate.antt =====
-- Runs of rate-based DCTCP and TIMELY of user/cc.c.
use flex_toe.Prelude.{◌≡◌, ◌≤◌, arith, false, refl, some, true}
use flex_toe.Cc.Dctcp.{
  actual_rate, dctcp_rate_update, gather, is_clear, rate_avoidance, rate_ecn, rate_process,
  rate_slow_start,
}
use flex_toe.Cc.State.{Algorithm, CcData, Conn, DctcpRate, Timely}
use flex_toe.Cc.Tests.{config_of, conn_of, stats_of}
use flex_toe.Cc.Timely.{above_cut, adapt_rate, gradient_of, rate_floor, timely_update}

abbrev rate_data : DctcpRate
rate_data = record {
  unproc_acks = 0;
  unproc_ackb = 0;
  unproc_ecnb = 0;
  unproc_drops = 0;
  ecn_rate = 0;
  act_rate = 0;
  slowstart = true;
}

abbrev rate_conn : Conn
rate_conn = conn_of 1 (CcData.rate rate_data)

abbrev timely_data : Timely
timely_data = record {
  rtt_prev = 40;
  rtt_diff = 0;
  hai_cnt = 0;
  act_rate = 0;
  last_ts = 1000;
  slowstart = true;
}

-- Ten acknowledgements are fewer than fifty.
abbrev rate_conn_kept : Conn
rate_conn_kept = record rate_conn { cc_rtt = 60 }

abbrev rate_gathered : DctcpRate
rate_gathered = record rate_data { unproc_acks = 10; unproc_ackb = 14000; unproc_drops = 1 }

rate_gathered_run :
    dctcp_rate_update
      (config_of Algorithm.dctcp_rate)
      rate_conn
      (stats_of 1 10 14000 0 60)
      1100
      rate_data
    ≡ some (rate_conn_kept, rate_gathered)
unfolding dctcp_rate_update gather rate_process actual_rate rate_slow_start rate_avoidance rate_ecn
rate_gathered_run = refl

-- Sixty acknowledgements and a drop.
abbrev rate_conn_cut : Conn
rate_conn_cut = record rate_conn { cc_rtt = 50; cc_rate = 50000; cc_rexmits = 0 }

abbrev rate_cut : DctcpRate
rate_cut = record rate_data { act_rate = 840000; slowstart = false }

rate_cut_run :
    dctcp_rate_update
      (config_of Algorithm.dctcp_rate)
      rate_conn
      (stats_of 1 60 84000 0 50)
      1100
      rate_data
    ≡ some (rate_conn_cut, rate_cut)
unfolding dctcp_rate_update gather rate_process actual_rate rate_slow_start rate_avoidance rate_ecn
rate_cut_run = refl

enough_acks :
    (config_of Algorithm.dctcp_rate).cc_dctcp_minpkts
    ≤ (gather rate_data (stats_of 1 60 84000 0 50)).unproc_acks
unfolding gather
enough_acks = omega arith

drop_seen :
    is_clear rate_conn
      (gather rate_data (stats_of 1 60 84000 0 50)).unproc_drops
      (gather rate_data (stats_of 1 60 84000 0 50)).unproc_ecnb
    ≡ false
unfolding gather
drop_seen = refl

abbrev timely_conn : Conn
timely_conn = conn_of 1 (CcData.gradient timely_data)

abbrev timely_conn_cut : Conn
timely_conn_cut = record timely_conn { cc_rtt = 200; cc_rate = 80000; cc_rexmits = 0 }

abbrev timely_cut : Timely
timely_cut = record timely_data {
  rtt_prev = 200;
  rtt_diff = 1;
  act_rate = 140000;
  last_ts = 1100;
  slowstart = false;
}

timely_cut_run :
    timely_update
      (config_of Algorithm.timely)
      timely_conn
      (stats_of 0 10 14000 0 200)
      1100
      timely_data
    ≡ some (timely_conn_cut, timely_cut)
unfolding timely_update gradient_of adapt_rate above_cut rate_floor actual_rate
timely_cut_run = refl
