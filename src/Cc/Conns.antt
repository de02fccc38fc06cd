-- ===== src/Cc/Conns.antt =====
-- The list of connections of user/cc.c and the pointer `next_conn` into it.
use native.Mathlib.Decide.{ℕ_discrete}
use flex_toe.Prelude.{
  ℕ, ◌==◌, ◌||◌, ◌∷◌, ◌≡◌, ◌≢◌, Bool, Bool-cases, List, Option, Option-cases, [], arith, false, inl,
  inr, none, not, refl, some, subst, suc, true, zero,
}
use flex_toe.Prelude.Words.{add64}
use flex_toe.Cc.ConnList.{cc_next, find_conn, head_id, unlink, write_conn}
use flex_toe.Cc.Poll.{
  Control, Nic, control_conn, issue_retransmits, poll_conn, poll_loop, stats_delta, successor,
  switch_update,
}
use flex_toe.Cc.State.{Config, Conn}

-- An id is in the list.
abbrev pub listed : ℕ → List Conn → Bool
listed id [] = false
listed id (c ∷ cs) = (c.conn_id == id) || listed id cs

-- A pointer is NULL or a connection of the list.
abbrev pub Points : Option ℕ → List Conn → Type 0
Points none cs = Unit {0}
Points (some id) cs = listed id cs ≡ true

pub head_id-Points : (cs : List Conn) → Points (head_id cs) cs
unfolding head_id
head_id-Points [] = tt
head_id-Points (c ∷ cs) = ground arith

pub Points-cons : (p : Option ℕ) (c : Conn) (cs : List Conn) → Points p cs → Points p (c ∷ cs)
Points-cons none c cs h = h
Points-cons (some id) c cs h = ground arith

pub cc_next-Points : (id : ℕ) (cs : List Conn) → Points (cc_next id cs) cs
unfolding cc_next head_id
cc_next-Points id [] = tt
cc_next-Points id (c ∷ cs) = elim (ℕ_discrete c.conn_id id) [
  | yes p ↦
      let q : cc_next id (c ∷ cs) ≡ head_id cs = ground arith in
      rw q (Points-cons (head_id cs) c cs (head_id-Points cs))
  | no n ↦
      let q : cc_next id (c ∷ cs) ≡ cc_next id cs = ground arith in
      rw q (Points-cons (cc_next id cs) c cs (cc_next-Points id cs))
]

pub successor-listed :
    (id next : ℕ) (cs : List Conn) → successor id cs ≡ some next → listed next cs ≡ true
successor-listed id next cs e = elim (Option-cases (cc_next id cs)) [
  | inl k ↦
      let q : head_id cs ≡ some next = ground arith in
      subst (λ p. Points p cs) q (head_id-Points cs)
  | inr (x, k) ↦
      let q : cc_next id cs ≡ some next = ground arith in
      subst (λ p. Points p cs) q (cc_next-Points id cs)
]

listed-write_conn :
    (id : ℕ) (c' : Conn) (cs : List Conn) → listed id (write_conn c' cs) ≡ listed id cs
unfolding write_conn
listed-write_conn id c' [] = refl
listed-write_conn id c' (c ∷ cs) = ground (arith, listed-write_conn id c' cs)

find_conn-conn_id : (id : ℕ) (cs : List Conn) (c : Conn) → find_conn id cs ≡ some c → c.conn_id ≡ id
unfolding find_conn
find_conn-conn_id id [] c e = cc
find_conn-conn_id id (d ∷ cs) c e = ground (arith, find_conn-conn_id id cs c)

-- A listed pointer can be followed.
pub listed-find_conn : (id : ℕ) (cs : List Conn) → listed id cs ≡ true → find_conn id cs ≢ none
unfolding find_conn
listed-find_conn id [] h = ground arith
listed-find_conn id (d ∷ cs) h = ground (arith, listed-find_conn id cs)

-- What a round of the loop of `cc_poll` keeps: the ids of the list.
control_conn-listed :
    (config : Config) (nic : Nic) (cur_ts : ℕ) (c : Conn) (s s' : Control) (id : ℕ)
    → control_conn config nic cur_ts c s ≡ some s'
    → listed id s'.cc_conns ≡ listed id s.cc_conns
unfolding control_conn
control_conn-listed config nic cur_ts c s s' id e =
    elim (Option-cases (nic.nicif_connection_stats c.flow_id)) [
      | inl k ↦ ground arith
      | inr (read, k) ↦
          let (c₁, stats) = stats_delta c read in
          elim (Option-cases (switch_update config.cc_algorithm c₁.cc config c₁ stats cur_ts)) [
            | inl k' ↦ ground arith
            | inr (c₂, k') ↦
                let counted = record s.spstats {
                  drops = add64 s.spstats.drops stats.c_drops;
                  ecn_marked = add64 s.spstats.ecn_marked stats.c_ecnb;
                  acks = add64 s.spstats.acks stats.c_ackb;
                } in
                let c₃ = (issue_retransmits config nic c₂ stats cur_ts counted).0 in
                let c' = record c₃ { cc_last_ts = cur_ts } in
                let q : s'.cc_conns ≡ write_conn c' s.cc_conns = ground arith in
                rw q (listed-write_conn id c' s.cc_conns)
          ]
    ]

pub poll_conn-listed :
    (config : Config) (nic : Nic) (cur_ts at : ℕ) (s s' : Control) (id : ℕ)
    → poll_conn config nic cur_ts at s ≡ some s'
    → listed id s'.cc_conns ≡ listed id s.cc_conns
unfolding poll_conn
poll_conn-listed config nic cur_ts at s s' id e = elim (Option-cases (find_conn at s.cc_conns)) [
  | inl k ↦ ground arith
  | inr (c, k) ↦ ground (arith, control_conn-listed config nic cur_ts c s s' id)
]

pub unlink-listed :
    (id other : ℕ) (cs cs' : List Conn)
    → unlink id cs ≡ some cs'
    → other ≢ id
    → listed other cs' ≡ listed other cs
unfolding unlink
unlink-listed id other [] cs' e n = cc
unlink-listed id other (c ∷ cs) cs' e n = elim (Option-cases (unlink id cs)) [
  | inl k ↦ ground arith
  | inr (rest, k) ↦ ground (arith, unlink-listed id other cs rest k n)
]

pub unlink-next :
    (id : ℕ) (cs cs' : List Conn) → unlink id cs ≡ some cs' → Points (cc_next id cs) cs'
unfolding unlink cc_next
unlink-next id [] cs' e = cc
unlink-next id (c ∷ cs) cs' e = elim (ℕ_discrete c.conn_id id) [
  | yes p ↦
      let q : cc_next id (c ∷ cs) ≡ head_id cs = ground arith in
      let q' : cs' ≡ cs = ground arith in rw (q, q') (head_id-Points cs)
  | no n ↦ elim (Option-cases (unlink id cs)) [
    | inl k ↦ ground arith
    | inr (rest, k) ↦
        let q : cc_next id (c ∷ cs) ≡ cc_next id cs = ground arith in
        let q' : cs' ≡ c ∷ rest = ground arith in
        rw (q, q') (Points-cons (cc_next id cs) c rest (unlink-next id cs rest k))
  ]
]

-- `next_conn` is NULL or a connection of the list.
unfoldable pub NextOk : Control → Type 0
NextOk s = Points s.next_conn s.cc_conns

pub poll_loop-Points :
    (config : Config) (nic : Nic) (cur_ts first left n id : ℕ) (s s' : Control) (id' n' : ℕ)
    → listed id s.cc_conns ≡ true
    → poll_loop config nic cur_ts first left n id s ≡ some (s', (id', n'))
    → listed id' s'.cc_conns ≡ true
unfolding poll_loop
poll_loop-Points config nic cur_ts first zero n id s s' id' n' h e = cc
poll_loop-Points config nic cur_ts first (suc left) n id s s' id' n' h e =
    elim (Bool-cases ((n == 0) || not (id == first))) [
      | inr k ↦ ground arith
      | inl k ↦ elim (Option-cases (poll_conn config nic cur_ts id s)) [
        | inl i ↦ ground arith
        | inr (t, i) ↦ elim (Option-cases (successor id t.cc_conns)) [
          | inl j ↦ ground arith
          | inr (next, j) ↦
              poll_loop-Points config nic cur_ts first left (suc n) next t s' id' n'
                (successor-listed id next t.cc_conns j) (ground arith)
        ]
      ]
    ]
