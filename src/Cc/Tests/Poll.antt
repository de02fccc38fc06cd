-- ===== src/Cc/Tests/Poll.antt =====
-- Runs of the connection list and the control loop of user/cc.c.
use flex_toe.Prelude.{ℕ, ◌∷◌, ◌≡◌, ◌≤◌, [], arith, refl, some, true}
use flex_toe.Cc.ConnList.{cc_next, head_id, unlink}
use flex_toe.Cc.Conns.{NextOk}
use flex_toe.Cc.Poll.{Control, Nic, advance_next, cc_conn_init, cc_conn_remove, cc_poll, cc_start}
use flex_toe.Cc.Reach.{Every, cc_start_state}
use flex_toe.Cc.State.{Algorithm, CcData, Conn, DctcpWin}
use flex_toe.Cc.Tests.{config_of, conn_of, stats_of}
use flex_toe.Cc.Timely.{const_rate_init}
use flex_toe.Cc.WinBounds.{CanRate, WinOk}
use flex_toe.Cc.WinPolls.{IsWin, cc_poll-total}

abbrev fixed_conn : ℕ → Conn
fixed_conn id = record (conn_of id CcData.constant) { cc_rate = 0; cc_last_ts = 7 }

abbrev one_conn : Control
one_conn = record cc_start_state { cc_conns = fixed_conn 3 ∷ [] }

one_conn_run :
    cc_conn_init (config_of Algorithm.const_rate) 7 0 (fixed_conn 3) cc_start_state ≡ some one_conn
unfolding cc_conn_init cc_start const_rate_init
one_conn_run = refl

abbrev removed_conn : Control
removed_conn = cc_start_state

removed_conn_run : cc_conn_remove 3 one_conn ≡ some removed_conn
unfolding cc_conn_remove unlink advance_next cc_next head_id
removed_conn_run = refl

abbrev answering : Nic
answering = record {
  nicif_connection_stats = λ _. some (stats_of 0 10 14000 0 60);
  nicif_connection_retransmit = λ _. true;
}

-- A connection with a window of 20000 bytes.
abbrev window_state : DctcpWin
window_state = record { ecn_rate = 0; window = 20000; slowstart = true }

abbrev win_conns : Control
win_conns = record cc_start_state { cc_conns = conn_of 1 (CcData.win window_state) ∷ [] }

win_conns_ok : NextOk win_conns
unfolding NextOk
win_conns_ok = tt

window_state_ok : WinOk (conn_of 1 (CcData.win window_state)) window_state
window_state_ok = record {
  one_segment = omega arith;
  in_buffer = omega arith;
  fraction = omega arith;
  buffer_fits = omega arith;
}

estimate_ok : CanRate (config_of Algorithm.dctcp_win) 60
estimate_ok = record { linked = omega arith; some_rtt = omega arith; fits = omega arith }

cc_poll-total_example :
    (r : Control × ℕ) × (cc_poll (config_of Algorithm.dctcp_win) answering 2000 win_conns ≡ some r)
    × (r.1 ≤ 128)
    × NextOk r.0
    × Every IsWin r.0.cc_conns
cc_poll-total_example =
    cc_poll-total (config_of Algorithm.dctcp_win) answering 2000 win_conns refl
      (λ id. (stats_of 0 10 14000 0 60, refl, estimate_ok))
      ((window_state, refl, window_state_ok), tt) win_conns_ok
