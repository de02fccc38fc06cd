-- ===== src/Cc/Poll.antt =====
-- The control loop of user/cc.c: the list of connections, `cc_poll`, `cc_conn_init`,
-- `cc_conn_remove`, `cc_next_ts` and `issue_retransmits`. A pointer to a connection is its
-- `conn_id`. The calls of user/nicif.c are the parameter `Nic`.
use flex_toe.Prelude.{
  if◌then◌else◌, ℕ, ◌&&◌, ◌==◌, ◌^◌, ◌||◌, ◌∷◌, Bool, List, Option, [], leb, ltb, max, min, none,
  not, some, suc, zero,
}
use flex_toe.Prelude.Words.{add32, add64, mul32, sub16, sub32, uint32_max}
use flex_toe.Cc.ConnList.{cc_next, find_conn, head_id, unlink, write_conn}
use flex_toe.Cc.Dctcp.{
  dctcp_rate_init, dctcp_rate_update, dctcp_win_init, dctcp_win_update, rtt_or_init,
}
use flex_toe.Cc.State.{Algorithm, CcData, Config, Conn, Stats, gradient, rate, win}
use flex_toe.Cc.Timely.{const_rate_init, const_rate_update, timely_init, timely_update}

-- What the NIC answers during a call: the counters of a flow and whether it takes a retransmission.
pub record Nic : Type 0 where
  pub nicif_connection_stats : ℕ → Option Stats
  pub nicif_connection_retransmit : ℕ → Bool

-- The counters of `spstats` that congestion control keeps.
pub record Counters : Type 0 where
  pub drops : ℕ
  pub ecn_marked : ℕ
  pub acks : ℕ
  pub sp_rexmit : ℕ

-- The static variables, the counters and the rates handed to `nicif_connection_setrate` so far,
-- the latest first.
pub record Control : Type 0 where
  pub last_ts : ℕ
  pub cc_conns : List Conn
  pub next_conn : Option ℕ
  pub spstats : Counters
  pub set_rates : List (ℕ × ℕ)

unfoldable pub issue_retransmits : Config → Nic → Conn → Stats → ℕ → Counters → Conn × Counters
issue_retransmits config nic c stats cur_ts counters =
    let rtt = rtt_or_init config stats.rtt in
    let pending = record c { cnt_tx_pending = add32 c.cnt_tx_pending 1 } in
    let waited =
      leb config.cc_rexmit_ints pending.cnt_tx_pending
      && leb (mul32 2 rtt) (sub32 cur_ts c.ts_tx_pending) in
    if stats.txp && (stats.c_ackb == 0)
    then if c.cnt_tx_pending == 0
      then (record pending { ts_tx_pending = cur_ts }, counters)
      else if waited && nic.nicif_connection_retransmit c.flow_id
      then (
        record pending { cnt_tx_pending = 0; cc_rexmits = add32 c.cc_rexmits 1 },
        record counters { sp_rexmit = add64 counters.sp_rexmit 1 },
      )
      else (pending, counters)
    else (record c { cnt_tx_pending = 0 }, counters)

-- The counters of the interval: the difference to the last ones, which are replaced. Drops and
-- acknowledgements are counted in 16 bits.
unfoldable pub stats_delta : Conn → Stats → Conn × Stats
stats_delta c stats = (
  record c {
    cc_last_drops = stats.c_drops;
    cc_last_acks = stats.c_acks;
    cc_last_ackb = stats.c_ackb;
    cc_last_ecnb = stats.c_ecnb;
  },
  record stats {
    c_drops = sub16 stats.c_drops c.cc_last_drops;
    c_acks = sub16 stats.c_acks c.cc_last_acks;
    c_ackb = sub32 stats.c_ackb c.cc_last_ackb;
    c_ecnb = sub32 stats.c_ecnb c.cc_last_ecnb;
  },
)

unfoldable pub with_cc : {A : Type 0} → (A → CcData) → Option (Conn × A) → Option Conn
with_cc wrap none = none
with_cc wrap (some (c, cc)) = some (record c { cc = wrap cc })

-- The switch over the algorithm. A union that holds the data of another algorithm is `none`: the
-- configuration does not change while the program runs.
unfoldable pub switch_update : Algorithm → CcData → Config → Conn → Stats → ℕ → Option Conn
switch_update Algorithm.dctcp_win (win cc) config c stats cur_ts =
    with_cc win (dctcp_win_update config c stats cc)
switch_update Algorithm.dctcp_rate (rate cc) config c stats cur_ts =
    with_cc rate (dctcp_rate_update config c stats cur_ts cc)
switch_update Algorithm.timely (gradient cc) config c stats cur_ts =
    with_cc gradient (timely_update config c stats cur_ts cc)
switch_update Algorithm.const_rate _ config c stats cur_ts = some (const_rate_update config c stats)
switch_update _ _ config c stats cur_ts = none

-- The body of the loop of `cc_poll` for an open connection whose interval is over.
unfoldable pub control_conn : Config → Nic → ℕ → Conn → Control → Option Control
control_conn config nic cur_ts c s = elim (nic.nicif_connection_stats c.flow_id) [
  | none ↦ none
  | some read ↦
      let (c₁, stats) = stats_delta c read in
      elim (switch_update config.cc_algorithm c₁.cc config c₁ stats cur_ts) [
        | none ↦ none
        | some c₂ ↦
            let counted = record s.spstats {
              drops = add64 s.spstats.drops stats.c_drops;
              ecn_marked = add64 s.spstats.ecn_marked stats.c_ecnb;
              acks = add64 s.spstats.acks stats.c_ackb;
            } in
            let (c₃, counters) = issue_retransmits config nic c₂ stats cur_ts counted in
            some (record s {
              cc_conns = write_conn (record c₃ { cc_last_ts = cur_ts }) s.cc_conns;
              spstats = counters;
              set_rates = (c₃.flow_id, c₃.cc_rate) ∷ s.set_rates;
            })
      ]
]

-- The interval of a connection is over.
abbrev pub is_due : Config → ℕ → Conn → Bool
is_due config cur_ts c =
    c.is_open && not (ltb (sub32 cur_ts c.cc_last_ts) (mul32 c.cc_rtt config.cc_control_interval))

-- A round of the loop at the connection `id`. A pointer to no connection of the list is `none`.
unfoldable pub poll_conn : Config → Nic → ℕ → ℕ → Control → Option Control
poll_conn config nic cur_ts id s = elim (find_conn id s.cc_conns) [
  | none ↦ none
  | some c ↦ if is_due config cur_ts c then control_conn config nic cur_ts c s else some s
]

-- The connection behind `id`, around the end of the list.
abbrev pub successor : ℕ → List Conn → Option ℕ
successor id cs = elim (cc_next id cs) [ none ↦ head_id cs | some next ↦ some next ]

-- The loop of `cc_poll` with `left` of its 128 rounds left, at the connection `id`; `n` rounds are
-- done. The result is the connection to go on with and the number of rounds.
unfoldable pub poll_loop : Config → Nic → ℕ → ℕ → ℕ → ℕ → ℕ → Control → Option (Control × (ℕ × ℕ))
poll_loop config nic cur_ts c_first zero n id s = some (s, (id, n))
poll_loop config nic cur_ts c_first (suc left) n id s =
    if (n == 0) || not (id == c_first)
    then elim (poll_conn config nic cur_ts id s) [
      | none ↦ none
      | some s' ↦ elim (successor id s'.cc_conns) [
        | none ↦ none
        | some next ↦ poll_loop config nic cur_ts c_first left (suc n) next s'
      ]
    ]
    else some (s, (id, n))

-- `c_first`.
abbrev pub first_conn : Control → Option ℕ
first_conn s = elim s.next_conn [ none ↦ head_id s.cc_conns | some id ↦ some id ]

unfoldable pub cc_poll : Config → Nic → ℕ → Control → Option (Control × ℕ)
cc_poll config nic cur_ts s = elim (first_conn s) [
  | none ↦ some (record s { last_ts = cur_ts }, 0)
  | some first ↦ elim (poll_loop config nic cur_ts first 128 0 first s) [
    | none ↦ none
    | some (s', (id, n)) ↦ some (record s' { next_conn = some id; last_ts = cur_ts }, n)
  ]
]

-- The switch of `cc_conn_init`; `act_rate` is what the memory of the new connection holds there.
unfoldable pub cc_start : Algorithm → Config → ℕ → Conn → Option Conn
cc_start Algorithm.dctcp_win config act_rate c = with_cc win (dctcp_win_init config c)
cc_start Algorithm.dctcp_rate config act_rate c =
    with_cc rate (some (dctcp_rate_init config act_rate c))
cc_start Algorithm.timely config act_rate c =
    with_cc gradient (some (timely_init config act_rate c))
cc_start Algorithm.const_rate config act_rate c = some (const_rate_init config c)

unfoldable pub cc_conn_init : Config → ℕ → ℕ → Conn → Control → Option Control
cc_conn_init config cur_ts act_rate c s =
    let c₁ = record c { cc_last_ts = cur_ts; cc_rtt = config.tcp_rtt_init; cc_rexmits = 0 } in
    elim (cc_start config.cc_algorithm config act_rate c₁) [
      | none ↦ none
      | some c₂ ↦ some (record s { cc_conns = c₂ ∷ s.cc_conns })
    ]

-- `next_conn` after the removal.
unfoldable pub advance_next : ℕ → Control → Option ℕ
advance_next id s = elim s.next_conn [
  | none ↦ none
  | some p ↦ if p == id then cc_next id s.cc_conns else some p
]

unfoldable pub cc_conn_remove : ℕ → Control → Option Control
cc_conn_remove id s = elim (unlink id s.cc_conns) [
  | none ↦ none
  | some cs ↦ some (record s { next_conn = advance_next id s; cc_conns = cs })
]

-- The loop of `cc_next_ts`, with the least time so far.
unfoldable pub next_due : Config → ℕ → ℕ → List Conn → ℕ
next_due config cur_ts ts [] = ts
next_due config cur_ts ts (c ∷ cs) =
    let left = sub32 (mul32 c.cc_rtt config.cc_control_interval) (sub32 cur_ts c.cc_last_ts) in
    if c.is_open
    then next_due config cur_ts (if ltb left (2 ^ 31) then min ts left else 0) cs
    else next_due config cur_ts ts cs

unfoldable pub cc_next_ts : Config → ℕ → Control → Option ℕ
cc_next_ts config cur_ts s =
    let ts = next_due config cur_ts uint32_max s.cc_conns in
    if ltb cur_ts s.last_ts
    then none
    else some (
        if ts == uint32_max
        then uint32_max
        else max ts (sub32 config.cc_control_granularity (sub32 cur_ts s.last_ts)))
