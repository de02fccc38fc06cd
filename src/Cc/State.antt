-- ===== src/Cc/State.antt =====
-- The state of user/cc.c: the congestion-control part of `struct connection` (user/internal.h), the
-- configuration (user/config.h) and the statistics of a control interval.
-- A failed assertion, a call of `abort` and a division by 0 are `none`.
use flex_toe.Prelude.{if◌then◌else◌, ℕ, ◌/◌, ◌==◌, Bool, Option, none, some}

-- `enum config_cc_algorithm`.
pub data Algorithm : Type 0 where
  dctcp_win dctcp_rate timely const_rate : Algorithm

-- The fields of `struct configuration` that congestion control reads.
pub record Config : Type 0 where
  pub tcp_rtt_init : ℕ
  pub tcp_link_bw : ℕ
  pub cc_algorithm : Algorithm
  pub cc_control_granularity : ℕ
  pub cc_control_interval : ℕ
  pub cc_rexmit_ints : ℕ
  pub cc_dctcp_weight : ℕ
  pub cc_dctcp_init : ℕ
  pub cc_dctcp_step : ℕ
  pub cc_dctcp_mimd : ℕ
  pub cc_dctcp_min : ℕ
  pub cc_dctcp_minpkts : ℕ
  pub cc_const_rate : ℕ
  pub cc_timely_tlow : ℕ
  pub cc_timely_thigh : ℕ
  pub cc_timely_step : ℕ
  pub cc_timely_init : ℕ
  pub cc_timely_alpha : ℕ
  pub cc_timely_beta : ℕ
  pub cc_timely_min_rtt : ℕ
  pub cc_timely_min_rate : ℕ

-- `struct connection_cc_dctcp_win`.
pub record DctcpWin : Type 0 where
  pub ecn_rate : ℕ
  pub window : ℕ
  pub slowstart : Bool

-- `struct connection_cc_dctcp_rate`.
pub record DctcpRate : Type 0 where
  pub unproc_acks : ℕ
  pub unproc_ackb : ℕ
  pub unproc_ecnb : ℕ
  pub unproc_drops : ℕ
  pub ecn_rate : ℕ
  pub act_rate : ℕ
  pub slowstart : Bool

-- `struct connection_cc_timely`; `rtt_diff` is the bit pattern of an `int32_t`.
pub record Timely : Type 0 where
  pub rtt_prev : ℕ
  pub rtt_diff : ℕ
  pub hai_cnt : ℕ
  pub act_rate : ℕ
  pub last_ts : ℕ
  pub slowstart : Bool

-- The union `cc` of a connection.
pub data CcData : Type 0 where
  win : DctcpWin → CcData
  rate : DctcpRate → CcData
  gradient : Timely → CcData
  constant : CcData

-- The fields of `struct connection` that congestion control reads or writes. `conn_id` stands for
-- the address of the connection; `is_open` for the status CONN_OPEN.
pub record Conn : Type 0 where
  pub conn_id : ℕ
  pub is_open : Bool
  pub flow_id : ℕ
  pub tx_len : ℕ
  pub cc_last_ts : ℕ
  pub cc_rtt : ℕ
  pub cc_last_drops : ℕ
  pub cc_last_acks : ℕ
  pub cc_last_ackb : ℕ
  pub cc_last_ecnb : ℕ
  pub cc_rate : ℕ
  pub cc_rexmits : ℕ
  pub cc : CcData
  pub cnt_tx_pending : ℕ
  pub ts_tx_pending : ℕ

-- `struct nicif_connection_stats`.
pub record Stats : Type 0 where
  pub c_drops : ℕ
  pub c_acks : ℕ
  pub c_ackb : ℕ
  pub c_ecnb : ℕ
  pub txp : Bool
  pub rtt : ℕ

abbrev pub conf_mss : ℕ
conf_mss = 1400

-- C division.
abbrev pub div? : ℕ → ℕ → Option ℕ
div? a b = if b == 0 then none else some (a / b)
