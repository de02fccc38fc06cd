-- ===== src/Cc/Reach.antt =====
-- Any sequence of calls of user/cc.c, with the round-robin pointer, and the end of a poll.
use native.Mathlib.Decide.{ℕ_discrete}
use flex_toe.Prelude.{
  ℕ, ◌+◌, ◌==◌, ◌||◌, ◌∙◌, ◌∷◌, ◌≡◌, ◌≢◌, ◌≤◌, Bool-cases, List, Option-cases, [], arith, inl, inr,
  none, not, refl, some, subst, suc, true, zero,
}
use flex_toe.Cc.ConnList.{cc_next, find_conn, head_id, unlink, write_conn}
use flex_toe.Cc.Conns.{
  NextOk, Points, Points-cons, head_id-Points, listed, listed-find_conn, poll_conn-listed,
  poll_loop-Points, successor-listed, unlink-listed, unlink-next,
}
use flex_toe.Cc.Poll.{
  Control, Nic, advance_next, cc_conn_init, cc_conn_remove, cc_poll, cc_start, control_conn,
  first_conn, is_due, poll_conn, poll_loop, successor,
}
use flex_toe.Cc.State.{Config, Conn}

-- Successful calls, at any time and with any answers of the NIC.
pub data Call (config : Config) (s : Control) : Control → Type 0 where
  inited :
      (cur_ts act_rate : ℕ) (c : Conn) (s' : Control)
      → cc_conn_init config cur_ts act_rate c s ≡ some s'
      → Call config s s'
  removed : (id : ℕ) (s' : Control) → cc_conn_remove id s ≡ some s' → Call config s s'
  polled :
      (nic : Nic) (cur_ts n : ℕ) (s' : Control)
      → cc_poll config nic cur_ts s ≡ some (s', n)
      → Call config s s'

pub data Calls (config : Config) (s : Control) : Control → Type 0 where
  here : Calls config s s
  after : {t u : Control} → Calls config s t → Call config t u → Calls config s u

-- The state after `cc_init`.
abbrev pub cc_start_state : Control
cc_start_state = record {
  last_ts = 0;
  cc_conns = [];
  next_conn = none;
  spstats = record { drops = 0; ecn_marked = 0; acks = 0; sp_rexmit = 0 };
  set_rates = [];
}

init-NextOk :
    (config : Config) (cur_ts act_rate : ℕ) (c : Conn) (s s' : Control)
    → cc_conn_init config cur_ts act_rate c s ≡ some s'
    → NextOk s
    → NextOk s'
unfolding cc_conn_init NextOk
init-NextOk config cur_ts act_rate c s s' e h =
    let c₁ = record c { cc_last_ts = cur_ts; cc_rtt = config.tcp_rtt_init; cc_rexmits = 0 } in
    elim (Option-cases (cc_start config.cc_algorithm config act_rate c₁)) [
      | inl k ↦ ground arith
      | inr (c₂, k) ↦
          let q : s' ≡ record s { cc_conns = c₂ ∷ s.cc_conns } = ground arith in
          rw q (Points-cons s.next_conn c₂ s.cc_conns h)
    ]

advance_next-Points :
    (id : ℕ) (s : Control) (cs : List Conn)
    → unlink id s.cc_conns ≡ some cs
    → NextOk s
    → Points (advance_next id s) cs
unfolding advance_next NextOk
advance_next-Points id s cs k h = elim (Option-cases s.next_conn) [
  | inl i ↦ let q : advance_next id s ≡ none = ground arith in rw q tt
  | inr (p, i) ↦ elim (ℕ_discrete p id) [
    | yes y ↦
        let q : advance_next id s ≡ cc_next id s.cc_conns = ground arith in
        rw q (unlink-next id s.cc_conns cs k)
    | no y ↦
        let q : advance_next id s ≡ some p = ground arith in
        let l : listed p s.cc_conns ≡ true = subst (λ x. Points x s.cc_conns) i h in
        rw q (unlink-listed id p s.cc_conns cs k y ∙ l)
  ]
]

remove-NextOk : (id : ℕ) (s s' : Control) → cc_conn_remove id s ≡ some s' → NextOk s → NextOk s'
unfolding cc_conn_remove advance_next NextOk
remove-NextOk id s s' e h = elim (Option-cases (unlink id s.cc_conns)) [
  | inl k ↦ ground arith
  | inr (cs, k) ↦
      let q : s' ≡ record s { next_conn = advance_next id s; cc_conns = cs } = ground arith in
      rw q (advance_next-Points id s cs k h)
]

first_conn-listed :
    (s : Control) (id : ℕ) → NextOk s → first_conn s ≡ some id → listed id s.cc_conns ≡ true
unfolding NextOk
first_conn-listed s id h e = elim (Option-cases s.next_conn) [
  | inl k ↦
      let q : head_id s.cc_conns ≡ some id = ground arith in
      subst (λ p. Points p s.cc_conns) q (head_id-Points s.cc_conns)
  | inr (x, k) ↦
      let q : s.next_conn ≡ some id = ground arith in subst (λ p. Points p s.cc_conns) q h
]

poll-NextOk :
    (config : Config) (nic : Nic) (cur_ts n : ℕ) (s s' : Control)
    → cc_poll config nic cur_ts s ≡ some (s', n)
    → NextOk s
    → NextOk s'
unfolding cc_poll NextOk
poll-NextOk config nic cur_ts n s s' e h = elim (Option-cases (first_conn s)) [
  | inl k ↦ let q : s' ≡ record s { last_ts = cur_ts } = ground arith in rw q h
  | inr (first, k) ↦ elim (Option-cases (poll_loop config nic cur_ts first 128 0 first s)) [
    | inl i ↦ ground arith
    | inr ((t, (id, m)), i) ↦
        let q : s' ≡ record t { next_conn = some id; last_ts = cur_ts } = ground arith in
        rw q (
          poll_loop-Points config nic cur_ts first 128 0 first s t id m
            (first_conn-listed s first h k) i)
  ]
]

-- After any sequence of successful calls, started with no connection, `next_conn` is NULL or a
-- connection of the list.
pub Calls-NextOk : (config : Config) (s : Control) → Calls config cc_start_state s → NextOk s
unfolding NextOk
Calls-NextOk config s here = tt
Calls-NextOk config s (after r (inited cur_ts act_rate c s' e)) =
    init-NextOk config cur_ts act_rate c _ s e (Calls-NextOk config _ r)
Calls-NextOk config s (after r (removed id s' e)) = remove-NextOk id _ s e (Calls-NextOk config _ r)
Calls-NextOk config s (after r (polled nic cur_ts n s' e)) =
    poll-NextOk config nic cur_ts n _ s e (Calls-NextOk config _ r)

listed-successor : (id : ℕ) (cs : List Conn) → listed id cs ≡ true → successor id cs ≢ none
unfolding head_id
listed-successor id [] h e = ground arith
listed-successor id (c ∷ cs) h e = ground arith

-- All connections of a list.
abbrev pub Every : (Conn → Type 0) → List Conn → Type 0
Every in_order [] = Unit {0}
Every in_order (c ∷ cs) = in_order c × Every in_order cs

find_conn-Every :
    (in_order : Conn → Type 0) (id : ℕ) (cs : List Conn) {c : Conn}
    → Every in_order cs
    → find_conn id cs ≡ some c
    → in_order c
unfolding find_conn
find_conn-Every in_order id [] a e = ground arith
find_conn-Every in_order id (d ∷ cs) {c} a e = elim (Bool-cases (d.conn_id == id)) [
  | inl k ↦ let q : d ≡ c = ground (arith, e, k) in subst in_order q a.0
  | inr k ↦ find_conn-Every in_order id cs a.1 (ground (arith, e, k))
]

pub write_conn-Every :
    (in_order : Conn → Type 0) (c : Conn) (cs : List Conn)
    → in_order c
    → Every in_order cs
    → Every in_order (write_conn c cs)
unfolding write_conn
write_conn-Every in_order c [] h a = tt
write_conn-Every in_order c (d ∷ cs) h a = elim (Bool-cases (d.conn_id == c.conn_id)) [
  | inl k ↦ rw k (h, a.1)
  | inr k ↦ rw k (a.0, write_conn-Every in_order c cs h a.1)
]

-- A property of connections with which an update cannot fail, and which each update keeps.
module _ (config : Config) (nic : Nic) (cur_ts : ℕ) (in_order : Conn → Type 0)
    (update_ok : (c : Conn) (s : Control)
      → in_order c
      → Every in_order s.cc_conns
      → (s' : Control) × (control_conn config nic cur_ts c s ≡ some s')
        × Every in_order s'.cc_conns) where
  poll_conn-total :
      (id : ℕ) (s : Control)
      → Every in_order s.cc_conns
      → listed id s.cc_conns ≡ true
      → (s' : Control) × (poll_conn config nic cur_ts id s ≡ some s') × Every in_order s'.cc_conns
  unfolding poll_conn
  poll_conn-total id s a h = elim (Option-cases (find_conn id s.cc_conns)) [
    | inl k ↦ elim (listed-find_conn id s.cc_conns h k) [ ]
    | inr (c, k) ↦
        let (s', e, b) = update_ok c s (find_conn-Every in_order id s.cc_conns a k) a in
        elim (Bool-cases (is_due config cur_ts c)) [
          | inl d ↦ (s', ground (arith, k, d, e), b)
          | inr d ↦ (s, ground (arith, k, d), a)
        ]
  ]

  poll_loop-total :
      (first left n id : ℕ) (s : Control)
      → Every in_order s.cc_conns
      → listed id s.cc_conns ≡ true
      → (r : Control × (ℕ × ℕ)) × (poll_loop config nic cur_ts first left n id s ≡ some r)
        × (r.1.1 ≤ n + left)
        × Every in_order r.0.cc_conns
  unfolding poll_loop
  poll_loop-total first zero n id s a h = ((s, (id, n)), refl, omega arith, a)
  poll_loop-total first (suc left) n id s a h = elim (Bool-cases ((n == 0) || not (id == first))) [
    | inr k ↦ ((s, (id, n)), ground arith, omega arith, a)
    | inl k ↦
        let (t, i, b) = poll_conn-total id s a h in
        elim (Option-cases (successor id t.cc_conns)) [
          | inl j ↦
              let l = poll_conn-listed config nic cur_ts id s t id i ∙ h in
              elim (listed-successor id t.cc_conns l j) [ ]
          | inr (next, j) ↦
              let (r, p, bound, c) =
                poll_loop-total first left (suc n) next t b
                  (successor-listed id next t.cc_conns j) in
              (r, ground (arith, p, i, j, k), omega (arith, bound), c)
        ]
  ]

  -- A poll that starts with a pointer into the list returns: it follows no pointer out of the list,
  -- makes at most 128 rounds and leaves such a pointer.
  pub cc_poll-Every :
      (s : Control)
      → Every in_order s.cc_conns
      → NextOk s
      → (r : Control × ℕ) × (cc_poll config nic cur_ts s ≡ some r)
        × (r.1 ≤ 128)
        × NextOk r.0
        × Every in_order r.0.cc_conns
  unfolding cc_poll NextOk
  cc_poll-Every s a h = elim (Option-cases (first_conn s)) [
    | inl k ↦ ((record s { last_ts = cur_ts }, 0), ground arith, omega arith, h, a)
    | inr (first, k) ↦
        let l = first_conn-listed s first h k in
        let ((t, (id, n)), p, b, c) = poll_loop-total first 128 0 first s a l in
        let e : cc_poll config nic cur_ts s
            ≡ some (record t { next_conn = some id; last_ts = cur_ts }, n) =
          ground arith in
        (
          (record t { next_conn = some id; last_ts = cur_ts }, n),
          e,
          omega (arith, b),
          poll-NextOk config nic cur_ts n s _ e h,
          c,
        )
  ]
