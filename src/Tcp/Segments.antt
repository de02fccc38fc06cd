-- ===== src/Tcp/Segments.antt =====
-- The segments that a connection of user/tcp.c receives, and its closing.
use flex_toe.Prelude.{
  if◌then◌else◌, ℕ, ◌&&◌, ◌||◌, ◌≡◌, ◌⊎◌, Bool, Bool-cases, Option, Option-cases, arith, false, inl,
  inr, none, not, refl, some, subst, sym, true,
}
use flex_toe.Tcp.Conn.{
  Effect, Status, Tcp, TcpConfig, Timer, call, conn_failed, conn_timeout_disarm, control_flags,
  send_control,
}
use flex_toe.Tcp.ConnInv.{
  ConnOk, Gives, Gives-same, Registered, StatusOk, conn_failed-ConnOk, same-ConnOk,
}
use flex_toe.Tcp.Handshake.{conn_syn_sent_packet, synack_received}
use flex_toe.Tcp.Life.{Disabled, conn_packet, only_syn, open_packet, tcp_close}
use flex_toe.Tcp.State.{Packet, TcpOpts, ts_val}

module _ (hash : ℕ → ℕ → ℕ → ℕ → ℕ) (config : TcpConfig) where
  -- The connection once its timeout is off.
  abbrev pub disarmed : ℕ → Tcp → Tcp
  disarmed flow_group s =
      call Effect.timeout_disarm
        (record s { conn = record s.conn { flow_group = flow_group; to_armed = false } })

  module _ (p : Packet) (opts : TcpOpts) (flow_group : ℕ) (flow : Option ℕ)
      (answer : Option Disabled) (s : Tcp) (e : s.conn.status ≡ Status.syn_sent)
      (on : s.conn.to_armed ≡ true) where
    syn_sent-rejected :
        ((p.flags.syn && p.flags.ack) ≡ false) ⊎ (opts.ts ≡ none)
        → conn_packet hash p opts flow_group flow answer s
          ≡ conn_failed hash (disarmed flow_group s)
    unfolding conn_packet conn_syn_sent_packet conn_timeout_disarm
    syn_sent-rejected (inl x) = ground (arith, e, on)
    syn_sent-rejected (inr x) = ground (arith, e, on)

    syn_sent-accepted :
        (ts : ℕ)
        → (p.flags.syn && p.flags.ack) ≡ true
        → opts.ts ≡ some ts
        → conn_packet hash p opts flow_group flow answer s ≡ (
            let (s', done) = synack_received p ts flow (disarmed flow_group s) in
            if done then some s' else conn_failed hash s')
    unfolding conn_packet conn_syn_sent_packet conn_timeout_disarm
    syn_sent-accepted ts x y = ground (arith, e, on)

  pub synack-ConnOk :
      (p : Packet) (ts : ℕ) (flow : Option ℕ) (s : Tcp)
      → Registered hash config s
      → s.conn.to_armed ≡ false
      → Gives hash config (
          let (s', done) = synack_received p ts flow s in
          if done then some s' else conn_failed hash s')
  unfolding synack_received send_control
  synack-ConnOk p ts none s r off = conn_failed-ConnOk hash config _ r
  synack-ConnOk p ts (some id) s r off = (_, refl, (r, off))

  -- A segment for a connection that waits for its SYN-ACK.
  pub syn_sent-ConnOk :
      (p : Packet) (opts : TcpOpts) (flow_group : ℕ) (flow : Option ℕ) (answer : Option Disabled)
      (s : Tcp)
      → s.conn.status ≡ Status.syn_sent
      → Registered hash config s
      → s.conn.to_armed ≡ true
      → Gives hash config (conn_packet hash p opts flow_group flow answer s)
  syn_sent-ConnOk p opts flow_group flow answer s e r on =
      let out = conn_failed-ConnOk hash config (disarmed flow_group s) r in
      elim (Bool-cases (p.flags.syn && p.flags.ack)) [
        | inr x ↦
            Gives-same hash config _ _
              (syn_sent-rejected p opts flow_group flow answer s e on (inl x)) out
        | inl x ↦ elim (Option-cases opts.ts) [
          | inl y ↦
              Gives-same hash config _ _
                (syn_sent-rejected p opts flow_group flow answer s e on (inr y)) out
          | inr (ts, y) ↦
              Gives-same hash config _ _
                (syn_sent-accepted p opts flow_group flow answer s e on ts x y)
                (synack-ConnOk p ts flow (disarmed flow_group s) r refl)
        ]
      ]

  abbrev pub closing : Disabled → Tcp → Tcp
  closing d s = call (Effect.timeout_arm 10000 Timer.close_wait) (
      call Effect.control_remove (record s {
        conn = record s.conn {
          status = Status.closed;
          to_armed = true;
          to_timer = Timer.close_wait;
        };
      }))

  abbrev pub disabled : Disabled → Tcp → Tcp
  disabled d s =
      call Effect.nicif_connection_disable
        (record s { conn = record s.conn { remote_seq = d.rx_seq; local_seq = d.tx_seq } })

  pub close-ConnOk :
      (answer : Option Disabled) (s : Tcp)
      → s.conn.status ≡ Status.opened
      → Registered hash config s
      → s.conn.to_armed ≡ false
      → (s' : Tcp) × (done : Bool) × (tcp_close answer s ≡ some (s', done)) × ConnOk hash config s'
  unfolding tcp_close send_control
  close-ConnOk none s e r off = (
    call Effect.nicif_connection_disable s,
    false,
    ground (arith, e),
    subst (λ x. StatusOk hash config x (call Effect.nicif_connection_disable s)) (sym e) (r, off),
  )
  close-ConnOk (some d) s e r off = elim (Bool-cases (not d.tx_c || not d.rx_c)) [
    | inl y ↦ (
      closing d (send_control (record control_flags { rst = true }) none (disabled d s)),
      true,
      ground (arith, e, off, y),
      (r, (refl, refl)),
    )
    | inr n ↦ (closing d (disabled d s), true, ground (arith, e, off, n), (r, (refl, refl)))
  ]

  pub open_packet-ConnOk :
      (p : Packet) (opts : TcpOpts) (answer : Option Disabled) (s : Tcp)
      → s.conn.status ≡ Status.opened
      → Registered hash config s
      → s.conn.to_armed ≡ false
      → Gives hash config (open_packet hash p opts answer s)
  unfolding open_packet send_control
  open_packet-ConnOk p opts answer s e r off =
      let kept = λ (r' : Option Tcp) (q : r' ≡ some s).
        same-ConnOk hash config r' Status.opened s e (r, off) q in
      let (s', done, k, ok) = close-ConnOk answer s e r off in
      elim (Bool-cases (only_syn p.flags)) [
        | inl x ↦ elim (Option-cases opts.ts) [
          | inl y ↦
              Gives-same hash config _ _ (ground (arith, x, y)) (conn_failed-ConnOk hash config s r)
          | inr (ts, y) ↦
              let flags = record control_flags { syn = true; ack = true; ece = s.conn.ecn } in
              let sent = send_control flags (some (ts_val p ts)) s in
              (
                sent,
                ground (arith, x, y),
                subst (λ st. StatusOk hash config st sent) (sym e) (r, off),
              )
        ]
        | inr x ↦ elim (Bool-cases p.flags.syn) [
          | inl y ↦ kept _ (ground (arith, x, y))
          | inr y ↦ elim (Bool-cases p.flags.rst) [
            | inl z ↦ (s', ground (arith, x, y, z, k), ok)
            | inr z ↦ kept _ (ground (arith, x, y, z))
          ]
        ]
      ]

  pub closed_packet-ConnOk :
      (p : Packet) (opts : TcpOpts) (flow_group : ℕ) (flow : Option ℕ) (answer : Option Disabled)
      (s : Tcp)
      → s.conn.status ≡ Status.closed
      → StatusOk hash config Status.closed s
      → Gives hash config (conn_packet hash p opts flow_group flow answer s)
  unfolding conn_packet send_control
  closed_packet-ConnOk p opts flow_group flow answer s e h =
      let sent = send_control (record control_flags { ack = true }) (some 0) s in
      elim (Bool-cases p.flags.fin) [
        | inl x ↦ (sent, ground (arith, e, x), subst (λ st. StatusOk hash config st sent) (sym e) h)
        | inr x ↦ same-ConnOk hash config _ _ s e h (ground (arith, e, x))
      ]

  pub conn_packet-StatusOk :
      (p : Packet) (opts : TcpOpts) (flow_group : ℕ) (flow : Option ℕ) (answer : Option Disabled)
      (st : Status) (s : Tcp)
      → s.conn.status ≡ st
      → StatusOk hash config st s
      → Gives hash config (conn_packet hash p opts flow_group flow answer s)
  unfolding conn_packet
  conn_packet-StatusOk p opts g flow answer Status.syn_sent s e h =
      syn_sent-ConnOk p opts g flow answer s e h.0 h.1.0
  conn_packet-StatusOk p opts g flow answer Status.opened s e h =
      Gives-same hash config _ _ (ground (arith, e)) (open_packet-ConnOk p opts answer s e h.0 h.1)
  conn_packet-StatusOk p opts g flow answer Status.closed s e h =
      closed_packet-ConnOk p opts g flow answer s e h
  conn_packet-StatusOk p opts g flow answer Status.syn_wait s e h =
      same-ConnOk hash config _ _ s e h (ground (arith, e))
  conn_packet-StatusOk p opts g flow answer Status.arp_pending s e h =
      same-ConnOk hash config _ _ s e h (ground (arith, e))
  conn_packet-StatusOk p opts g flow answer Status.reg_synack s e h =
      same-ConnOk hash config _ _ s e h (ground (arith, e))
  conn_packet-StatusOk p opts g flow answer Status.failed s e h =
      same-ConnOk hash config _ _ s e h (ground (arith, e))
