-- ===== src/Cc/Tests.antt =====
-- Concrete runs of the congestion control of user/cc.c.
mod Rate
mod Poll
use flex_toe.Prelude.{ℕ, ◌≡◌, ◌≤◌, arith, false, refl, some, true}
use flex_toe.Prelude.Words.{uint32_max}
use flex_toe.Cc.Dctcp.{dctcp_win_update, win_avoidance, win_limit, win_slow_start, window_to_rate}
use flex_toe.Cc.State.{Algorithm, CcData, Config, Conn, DctcpWin, Stats}
use flex_toe.Cc.WinBounds.{CanRate, WinOk, dctcp_win_update-WinOk}

abbrev pub config_of : Algorithm → Config
config_of algorithm = record {
  tcp_rtt_init = 50;
  tcp_link_bw = 10;
  cc_algorithm = algorithm;
  cc_control_granularity = 50;
  cc_control_interval = 2;
  cc_rexmit_ints = 4;
  cc_dctcp_weight = 268435456;
  cc_dctcp_init = 10000;
  cc_dctcp_step = 10000;
  cc_dctcp_mimd = 0;
  cc_dctcp_min = 10000;
  cc_dctcp_minpkts = 50;
  cc_const_rate = 0;
  cc_timely_tlow = 30;
  cc_timely_thigh = 150;
  cc_timely_step = 10000;
  cc_timely_init = 10000;
  cc_timely_alpha = 42949672;
  cc_timely_beta = 3435973836;
  cc_timely_min_rtt = 11;
  cc_timely_min_rate = 10000;
}

abbrev pub conn_of : ℕ → CcData → Conn
conn_of id kind = record {
  conn_id = id;
  is_open = true;
  flow_id = id;
  tx_len = 65536;
  cc_last_ts = 1000;
  cc_rtt = 50;
  cc_last_drops = 0;
  cc_last_acks = 0;
  cc_last_ackb = 0;
  cc_last_ecnb = 0;
  cc_rate = 100000;
  cc_rexmits = 0;
  cc = kind;
  cnt_tx_pending = 0;
  ts_tx_pending = 0;
}

abbrev pub stats_of : ℕ → ℕ → ℕ → ℕ → ℕ → Stats
stats_of c_drops c_acks c_ackb c_ecnb rtt = record {
  c_drops = c_drops;
  c_acks = c_acks;
  c_ackb = c_ackb;
  c_ecnb = c_ecnb;
  txp = false;
  rtt = rtt;
}

abbrev window_data : DctcpWin
window_data = record { ecn_rate = 0; window = 20000; slowstart = true }

abbrev window_conn : Conn
window_conn = conn_of 1 (CcData.win window_data)

window_ok : WinOk window_conn window_data
window_ok = record {
  one_segment = omega arith;
  in_buffer = omega arith;
  fraction = omega arith;
  buffer_fits = omega arith;
}

can_rate : CanRate (config_of Algorithm.dctcp_win) 50
can_rate = record { linked = omega arith; some_rtt = omega arith; fits = omega arith }

dctcp_win_update-WinOk_example :
    (r : Conn × DctcpWin) × (dctcp_win_update
        (config_of Algorithm.dctcp_win)
        window_conn
        (stats_of 1 10 14000 0 50)
        window_data
      ≡ some r)
    × (WinOk r.0 r.1)
    × (r.0.cc_rate ≤ uint32_max)
dctcp_win_update-WinOk_example =
    dctcp_win_update-WinOk (config_of Algorithm.dctcp_win) window_conn (stats_of 1 10 14000 0 50)
      window_data can_rate window_ok

-- A drop halves the window of 20,000 bytes.
abbrev window_conn_cut : Conn
window_conn_cut = record window_conn { cc_rtt = 50; cc_rate = 1600000; cc_rexmits = 0 }

abbrev window_cut : DctcpWin
window_cut = record { ecn_rate = 0; window = 10000; slowstart = false }

window_cut_run :
    dctcp_win_update
      (config_of Algorithm.dctcp_win)
      window_conn
      (stats_of 1 10 14000 0 50)
      window_data
    ≡ some (window_conn_cut, window_cut)
unfolding dctcp_win_update win_slow_start win_avoidance win_limit window_to_rate
window_cut_run = refl

-- In slow start the window grows by the bytes acknowledged.
abbrev window_conn_grown : Conn
window_conn_grown = record window_conn { cc_rtt = 50; cc_rate = 5440000; cc_rexmits = 0 }

abbrev window_grown : DctcpWin
window_grown = record { ecn_rate = 0; window = 34000; slowstart = true }

window_grown_run :
    dctcp_win_update
      (config_of Algorithm.dctcp_win)
      window_conn
      (stats_of 0 10 14000 0 50)
      window_data
    ≡ some (window_conn_grown, window_grown)
unfolding dctcp_win_update win_slow_start win_avoidance win_limit window_to_rate
window_grown_run = refl
