-- ===== src/Tcp/ConnInv.antt =====
-- What the status of a connection of user/tcp.c says about the table and about its timeout.
use flex_toe.Prelude.{
  ℕ, ◌%◌, ◌*◌, ◌-◌, ◌/◌, ◌<◌, ◌^◌, ◌≡◌, ◌≤◌, Bool, Bool-cases, List, Option, arith, false, inl, inr,
  refl, some, subst, suc, sym, true, zero,
}
use flex_toe.Prelude.Words.{add32, doubled}
use flex_toe.Tcp.Conn.{
  Connection, Effect, Status, Tcp, TcpConfig, Timer, call, conn_failed, conn_timeout_arm,
  conn_timeout_disarm, send_control,
}
use flex_toe.Tcp.Handshake.{conn_arp_done, conn_reg_synack, syn_ecn, tcp_poll}
use flex_toe.Tcp.Lookup.{Absent, Holds, Once, unregister-Absent}
use flex_toe.Tcp.Table.{Endpoint, bucket}

-- The timeout of the handshake stays short enough for util/timeout.c, however often it is doubled.
abbrev pub Doubles : TcpConfig → Connection → Type 0
Doubles config c =
    (0 < c.timeout)
    × (c.to_attempts ≤ config.tcp_handshake_retries)
    × (doubled (config.tcp_handshake_retries - c.to_attempts) c.timeout ≤ 2 ^ 26)

abbrev pub Armed : Timer → Connection → Type 0
Armed t c = (c.to_armed ≡ true) × (c.to_timer ≡ t)

module _ (hash : ℕ → ℕ → ℕ → ℕ → ℕ) (config : TcpConfig) where
  -- The connection is in the table, once, and not in it.
  abbrev pub Registered : Tcp → Type 0
  Registered s = Once s.conn.entry (s.table (bucket hash s.conn.entry))

  abbrev pub Unregistered : Tcp → Type 0
  Unregistered s = Absent s.conn.entry (s.table (bucket hash s.conn.entry))

  -- What each status means for the timeout, and for the table: `inside` or `outside` it.
  abbrev pub StatusWith : Type 0 → Type 0 → Status → Connection → Type 0
  StatusWith inside outside Status.syn_wait c = c.to_armed ≡ false
  StatusWith inside outside Status.arp_pending c = inside × (c.to_armed ≡ false)
  StatusWith inside outside Status.syn_sent c = inside × Armed Timer.handshake c × Doubles config c
  StatusWith inside outside Status.reg_synack c = inside × (c.to_armed ≡ false)
  StatusWith inside outside Status.opened c = inside × (c.to_armed ≡ false)
  StatusWith inside outside Status.closed c = inside × Armed Timer.close_wait c
  StatusWith inside outside Status.failed c = outside × (c.to_armed ≡ false)

  abbrev pub StatusOk : Status → Tcp → Type 0
  StatusOk st s = StatusWith (Registered s) (Unregistered s) st s.conn

  -- The same, with nothing said of other entries that have the connection's number.
  abbrev pub ConnKnown : Tcp → Type 0
  ConnKnown s =
      StatusWith (Holds s.conn.entry (s.table (bucket hash s.conn.entry))) (Unit {0}) s.conn.status
        s.conn

  abbrev pub ConnOk : Tcp → Type 0
  ConnOk s = StatusOk s.conn.status s

  -- A result, and what holds of it.
  abbrev pub Gives : Option Tcp → Type 0
  Gives r = (s' : Tcp) × (r ≡ some s') × ConnOk s'

  pub conn_failed-ConnOk : (s : Tcp) → Registered s → Gives (conn_failed hash s)
  unfolding conn_failed conn_timeout_disarm
  conn_failed-ConnOk s r =
      let (t, k, gone) = unregister-Absent hash s.conn.entry s.table r in
      let out = record s { table = t } in
      let off =
        call Effect.timeout_disarm (record out { conn = record s.conn { to_armed = false } }) in
      let told = λ (u : Tcp).
        call (Effect.appif_conn_opened false)
          (record u { conn = record u.conn { status = Status.failed } }) in
      elim (Bool-cases s.conn.to_armed) [
        | inl y ↦ (told off, ground (arith, k), (gone, refl))
        | inr n ↦ (told out, ground (arith, k), (gone, n))
      ]

  -- The connection with its handshake timeout armed.
  abbrev pub with_timeout : ℕ → Tcp → Tcp
  with_timeout to s =
      call (Effect.timeout_arm to Timer.handshake)
        (record s { conn = record s.conn { to_armed = true; to_timer = Timer.handshake } })

  pub timeout_arm-total :
      (random : ℕ) (s : Tcp)
      → s.conn.to_armed ≡ false
      → 0 < s.conn.timeout
      → s.conn.timeout ≤ 2 ^ 26
      → (to : ℕ) × (conn_timeout_arm random s ≡ some (with_timeout to s))
  unfolding conn_timeout_arm
  timeout_arm-total random s off pos le =
      let small : random % s.conn.timeout < s.conn.timeout = grind arith in
      (add32 (s.conn.timeout / 2) (random % s.conn.timeout), ground (arith, small))

  pub doubled-ge : (n t : ℕ) → t ≤ doubled n t
  doubled-ge zero t = omega arith
  doubled-ge (suc n) t = omega (arith, doubled-ge n (2 * t))

  -- The configuration allows for all doublings.
  abbrev pub ConfigOk : Type 0
  ConfigOk =
      (0 < config.tcp_handshake_to)
      × (doubled config.tcp_handshake_retries config.tcp_handshake_to ≤ 2 ^ 26)

  -- The first SYN goes out; the connection keeps its address, its table and the ports.
  pub arp_done-keeps :
      (random : ℕ) (s : Tcp)
      → ConfigOk
      → s.conn.to_armed ≡ false
      → (s' : Tcp) × (conn_arp_done config random s ≡ some s')
        × (s'.conn.status ≡ Status.syn_sent)
        × (Armed Timer.handshake s'.conn × Doubles config s'.conn)
        × (s'.conn.entry ≡ s.conn.entry)
        × (s'.table ≡ s.table)
  unfolding conn_arp_done send_control
  arp_done-keeps random s ok off =
      let c = record s.conn {
        status = Status.syn_sent;
        to_attempts = 0;
        timeout = config.tcp_handshake_to;
      } in
      let sent = record s { conn = c } in
      let none_done : config.tcp_handshake_retries - 0 ≡ config.tcp_handshake_retries =
        omega arith in
      let all_left = subst (λ n. doubled n config.tcp_handshake_to ≤ 2 ^ 26) (sym none_done) ok.1 in
      let short = doubled-ge config.tcp_handshake_retries config.tcp_handshake_to in
      let (to, k) = timeout_arm-total random sent off ok.0 (omega (arith, short, ok.1)) in
      (
        send_control syn_ecn (some 0) (with_timeout to sent),
        ground (arith, k),
        refl,
        ((refl, refl), (ok.0, omega arith, all_left)),
        refl,
        refl,
      )

  -- The chain of a connection with the same address in the same table.
  pub in_chain-moved :
      (in_chain : Endpoint → List Endpoint → Type 0) (s s' : Tcp)
      → s'.conn.entry ≡ s.conn.entry
      → s'.table ≡ s.table
      → in_chain s.conn.entry (s.table (bucket hash s.conn.entry))
      → in_chain s'.conn.entry (s'.table (bucket hash s'.conn.entry))
  in_chain-moved in_chain s s' e t h = rw (e, t) h

  pub arp_done-ConnOk :
      (random : ℕ) (s : Tcp)
      → ConfigOk
      → Registered s
      → s.conn.to_armed ≡ false
      → Gives (conn_arp_done config random s)
  arp_done-ConnOk random s ok r off =
      let (s', k, st, h, e, t) = arp_done-keeps random s ok off in
      let inside = in_chain-moved Once s s' e t r in
      (s', k, subst (λ x. StatusOk x s') (sym st) (inside, h.0, h.1))

  pub Gives-same : (r r' : Option Tcp) → r ≡ r' → Gives r' → Gives r
  Gives-same r r' q g = subst Gives (sym q) g

  -- Nothing to be done for a status.
  pub same-ConnOk :
      (r : Option Tcp) (st : Status) (s : Tcp)
      → s.conn.status ≡ st
      → StatusOk st s
      → r ≡ some s
      → Gives r
  same-ConnOk r st s e h k = (s, k, subst (λ x. StatusOk x s) (sym e) h)

  pub reg_synack-ConnOk :
      (s : Tcp) → Registered s → s.conn.to_armed ≡ false → ConnOk (conn_reg_synack s)
  unfolding conn_reg_synack send_control
  reg_synack-ConnOk s r off = (r, off)

  pub poll-StatusOk :
      (random : ℕ) (comp : Bool) (st : Status) (s : Tcp)
      → ConfigOk
      → s.conn.status ≡ st
      → StatusOk st s
      → Gives (tcp_poll hash config random comp s)
  unfolding tcp_poll
  poll-StatusOk random true Status.arp_pending s ok e h =
      Gives-same _ _ (ground (arith, e)) (arp_done-ConnOk random s ok h.0 h.1)
  poll-StatusOk random false Status.arp_pending s ok e h =
      Gives-same _ _ (ground (arith, e)) (conn_failed-ConnOk s h.0)
  poll-StatusOk random true Status.reg_synack s ok e h =
      (conn_reg_synack s, ground (arith, e), reg_synack-ConnOk s h.0 h.1)
  poll-StatusOk random false Status.reg_synack s ok e h =
      Gives-same _ _ (ground (arith, e)) (conn_failed-ConnOk s h.0)
  poll-StatusOk random comp Status.syn_wait s ok e h = same-ConnOk _ _ s e h (ground (arith, e))
  poll-StatusOk random comp Status.syn_sent s ok e h = same-ConnOk _ _ s e h (ground (arith, e))
  poll-StatusOk random comp Status.opened s ok e h = same-ConnOk _ _ s e h (ground (arith, e))
  poll-StatusOk random comp Status.closed s ok e h = same-ConnOk _ _ s e h (ground (arith, e))
  poll-StatusOk random comp Status.failed s ok e h = same-ConnOk _ _ s e h (ground (arith, e))
