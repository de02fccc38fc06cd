-- ===== src/Cc/WinPolls.antt =====
-- Polls of user/cc.c with window-based DCTCP: each connection's window and the whole loop together.
use flex_toe.Prelude.{ℕ, ◌∙◌, ◌∷◌, ◌≡◌, ◌≤◌, arith, refl, some}
use flex_toe.Prelude.Words.{add64}
use flex_toe.Cc.ConnList.{write_conn}
use flex_toe.Cc.Conns.{NextOk}
use flex_toe.Cc.Dctcp.{dctcp_win_update, rtt_or_init}
use flex_toe.Cc.Poll.{
  Control, Counters, Nic, cc_poll, control_conn, issue_retransmits, stats_delta, switch_update,
  with_cc,
}
use flex_toe.Cc.Reach.{Every, cc_poll-Every, write_conn-Every}
use flex_toe.Cc.State.{Algorithm, CcData, Config, Conn, DctcpWin, Stats}
use flex_toe.Cc.WinBounds.{CanRate, WinOk, dctcp_win_update-WinOk}
use flex_toe.Tcp.Backlog.{known}

-- A connection with the data of window-based DCTCP, in its limits.
abbrev pub IsWin : Conn → Type 0
IsWin c = (before : DctcpWin) × (c.cc ≡ CcData.win before) × WinOk c before

-- The NIC answers for each flow with an estimate for which the rate of a window is defined.
abbrev pub Answers : Config → Nic → Type 0
Answers config nic =
    (flow_id : ℕ)
    → (stats : Stats) × (nic.nicif_connection_stats flow_id ≡ some stats)
      × CanRate config (rtt_or_init config stats.rtt)

issue_retransmits-keeps :
    (config : Config) (nic : Nic) (c : Conn) (stats : Stats) (ts : ℕ) (counters : Counters)
    → let c' = (issue_retransmits config nic c stats ts counters).0 in
      (c'.cc ≡ c.cc) × (c'.tx_len ≡ c.tx_len)
unfolding issue_retransmits
issue_retransmits-keeps config nic c stats ts counters = ground arith

IsWin-keeps : (c c' : Conn) → c'.cc ≡ c.cc → c'.tx_len ≡ c.tx_len → IsWin c → IsWin c'
IsWin-keeps c c' e l (before, is, w) = (
  before,
  e ∙ is,
  record {
    one_segment = w.one_segment;
    in_buffer = omega (arith, l, w.in_buffer);
    fraction = w.fraction;
    buffer_fits = omega (arith, l, w.buffer_fits);
  },
)

module _ (config : Config) (nic : Nic) (cur_ts : ℕ)
    (algorithm : config.cc_algorithm ≡ Algorithm.dctcp_win) (answers : Answers config nic) where
  switch-win :
      (a : Algorithm) (kind : CcData)
      → a ≡ Algorithm.dctcp_win
      → {before : DctcpWin} → kind ≡ CcData.win before
      → (c : Conn) (stats : Stats) (c' : Conn) (after : DctcpWin)
      → dctcp_win_update config c stats before ≡ some (c', after)
      → switch_update a kind config c stats cur_ts ≡ some (record c' { cc = CcData.win after })
  unfolding switch_update with_cc
  switch-win a kind p is c stats c' after e = rw (p, is, switch_update) (ground (arith, e))

  switch_update-IsWin :
      (c : Conn) (stats : Stats)
      → CanRate config (rtt_or_init config stats.rtt)
      → IsWin c
      → (c' : Conn) × (switch_update config.cc_algorithm c.cc config c stats cur_ts ≡ some c')
        × IsWin c'
  switch_update-IsWin c stats can (before, is, w) =
      let ((c', after), e, ok, b) = dctcp_win_update-WinOk config c stats before can w in
      (
        record c' { cc = CcData.win after },
        switch-win config.cc_algorithm c.cc algorithm is c stats c' after e,
        (
          after,
          refl,
          record {
            one_segment = ok.one_segment;
            in_buffer = ok.in_buffer;
            fraction = ok.fraction;
            buffer_fits = ok.buffer_fits;
          },
        ),
      )

  control_conn-IsWin :
      (c : Conn) (s : Control)
      → IsWin c
      → Every IsWin s.cc_conns
      → (s' : Control) × (control_conn config nic cur_ts c s ≡ some s') × Every IsWin s'.cc_conns
  unfolding control_conn stats_delta
  control_conn-IsWin c s i a =
      let (read, known, can) = answers c.flow_id in
      let (c₁, stats) = stats_delta c read in
      let (c₂, e, i₂) = switch_update-IsWin c₁ stats can (IsWin-keeps c c₁ refl refl i) in
      let counted = record s.spstats {
        drops = add64 s.spstats.drops stats.c_drops;
        ecn_marked = add64 s.spstats.ecn_marked stats.c_ecnb;
        acks = add64 s.spstats.acks stats.c_ackb;
      } in
      let (c₃, counters) = issue_retransmits config nic c₂ stats cur_ts counted in
      let kept = issue_retransmits-keeps config nic c₂ stats cur_ts counted in
      let c₄ = record c₃ { cc_last_ts = cur_ts } in
      (
        record s {
          cc_conns = write_conn c₄ s.cc_conns;
          spstats = counters;
          set_rates = (c₃.flow_id, c₃.cc_rate) ∷ s.set_rates;
        },
        ground (arith, known, e),
        write_conn-Every IsWin c₄ s.cc_conns (IsWin-keeps c₂ c₄ kept.0 kept.1 i₂) a,
      )

-- With window-based DCTCP and connections whose windows lie between one segment and the send buffer,
-- a poll returns: no assertion of an update fails, the loop follows no pointer out of the list and
-- makes at most 128 rounds, and afterwards all windows lie there again and `next_conn` is NULL or a
-- connection of the list, as it was before. The NIC answers for each flow, the link has a
-- bandwidth, and the estimates of the round-trip time are above 0 and words also in nanoseconds.
pub cc_poll-total :
    (config : Config) (nic : Nic) (cur_ts : ℕ) (s : Control)
    → config.cc_algorithm ≡ Algorithm.dctcp_win
    → Answers config nic
    → Every IsWin s.cc_conns
    → NextOk s
    → (r : Control × ℕ) × (cc_poll config nic cur_ts s ≡ some r)
      × (r.1 ≤ 128)
      × NextOk r.0
      × Every IsWin r.0.cc_conns
cc_poll-total config nic cur_ts s algorithm answers a h =
    cc_poll-Every config nic cur_ts IsWin (control_conn-IsWin config nic cur_ts algorithm answers) s
      a h
