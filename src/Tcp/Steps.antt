-- ===== src/Tcp/Steps.antt =====
-- The events of a connection of user/tcp.c, in any status.
use flex_toe.Prelude.{
  ℕ, ◌*◌, ◌+◌, ◌-◌, ◌^◌, ◌∷◌, ◌≡◌, ◌≤◌, ◌⊎◌, Bool, Bool-cases, Option, ap, arith, false, inl, inr,
  ltb, none, refl, some, subst, suc, sym, true, update,
}
use flex_toe.Prelude.Words.{doubled, mul32}
use flex_toe.Tcp.Conn.{Effect, Status, Tcp, TcpConfig, Timer, call, send_control}
use flex_toe.Tcp.ConnInv.{
  ConfigOk, ConnOk, Doubles, Gives, Gives-same, Registered, StatusOk, Unregistered,
  conn_failed-ConnOk, doubled-ge, poll-StatusOk, same-ConnOk, timeout_arm-total, with_timeout,
}
use flex_toe.Tcp.Handshake.{syn_ecn, tcp_poll}
use flex_toe.Tcp.Life.{Disabled, conn_close_timeout, conn_packet, tcp_close, tcp_timeout}
use flex_toe.Tcp.Lookup.{unregister-Absent}
use flex_toe.Tcp.Ports.{Port}
use flex_toe.Tcp.Segments.{close-ConnOk, conn_packet-StatusOk}
use flex_toe.Tcp.State.{Packet, TcpOpts}

-- What may happen to a connection: a completion, a segment, its timeout, a call of `tcp_close`.
pub data Event : Type 0 where
  completed : ℕ → Bool → Event
  segment : Packet → TcpOpts → ℕ → Option ℕ → Option Disabled → Event
  fired : ℕ → Event
  closed_by_app : Option Disabled → Event

-- A timeout fires when it is armed.
abbrev pub Expected : Event → Tcp → Type 0
Expected (fired random) s = s.conn.to_armed ≡ true
Expected _ s = Unit {0}

abbrev pub forget : Option (Tcp × Bool) → Option Tcp
forget none = none
forget (some (s, done)) = some s

module _ (hash : ℕ → ℕ → ℕ → ℕ → ℕ) (config : TcpConfig) where
  -- The handler of each event.
  abbrev pub step : Event → Tcp → Option Tcp
  step (completed random comp) s = tcp_poll hash config random comp s
  step (segment p opts flow_group flow answer) s = conn_packet hash p opts flow_group flow answer s
  step (fired random) s = tcp_timeout hash config random s.conn.to_timer s
  step (closed_by_app answer) s = forget (tcp_close answer s)

  -- A timeout of the handshake.
  timeout-ConnOk :
      (random : ℕ) (s : Tcp)
      → s.conn.status ≡ Status.syn_sent
      → StatusOk hash config Status.syn_sent s
      → Gives hash config (tcp_timeout hash config random Timer.handshake s)
  unfolding tcp_timeout send_control
  timeout-ConnOk random s e h =
      let (r, on, dbl) = h in
      let c = s.conn in
      elim (Bool-cases (ltb config.tcp_handshake_retries (c.to_attempts + 1))) [
        | inl x ↦ Gives-same hash config _ _ (ground (arith, e, on.0, x)) (
            conn_failed-ConnOk hash config
              (record s { conn = record c { to_armed = false; to_attempts = c.to_attempts + 1 } })
              r)
        | inr x ↦
            let left = config.tcp_handshake_retries - (c.to_attempts + 1) in
            let some_left : config.tcp_handshake_retries - c.to_attempts ≡ suc left =
              ground arith in
            let bound = subst (λ n. doubled n c.timeout ≤ 2 ^ 26) some_left dbl.2 in
            let ge = doubled-ge hash config left (2 * c.timeout) in
            let twice : 2 * c.timeout ≡ mul32 c.timeout 2 = omega arith in
            let again = record s {
              conn = record c {
                to_armed = false;
                to_attempts = c.to_attempts + 1;
                timeout = mul32 c.timeout 2;
              };
            } in
            let (to, k) =
              timeout_arm-total hash config random again refl (omega arith) (omega arith) in
            let sent = send_control syn_ecn (some 0) (with_timeout hash config to again) in
            let more : Doubles config again.conn =
              (omega arith, ground arith, subst (λ t. doubled left t ≤ 2 ^ 26) twice bound) in
            (
              sent,
              ground (arith, e, on.0, x, k),
              subst (λ st. StatusOk hash config st sent) (sym e) (r, (refl, refl), more),
            )
      ]

  -- The connection is out of the table, with no timeout armed, and its structure is freed.
  abbrev pub Ends : Tcp → Option Tcp → Type 0
  Ends s r =
      (s' : Tcp) × (r ≡ some s')
      × Unregistered hash config s'
      × (s'.conn.to_armed ≡ false)
      × (s'.calls
          ≡ Effect.free_conn ∷ Effect.appif_conn_closed ∷ Effect.nicif_connection_free ∷ s.calls)

  -- A handler ends a closed connection, or leaves one in order for its status.
  abbrev pub Settles : Tcp → Option Tcp → Type 0
  Settles s r = Gives hash config r ⊎ ((s.conn.status ≡ Status.closed) × Ends s r)

  close_timeout-Ends :
      (random : ℕ) (s : Tcp)
      → Registered hash config s
      → s.conn.to_armed ≡ true
      → Ends s (tcp_timeout hash config random Timer.close_wait s)
  unfolding tcp_timeout conn_close_timeout
  close_timeout-Ends random s r on =
      let (t, k, gone) = unregister-Absent hash s.conn.entry s.table r in
      let port = s.conn.entry.local_port in
      let free : Port = elim (s.ports port) [ Port.connected _ ↦ Port.unused | e ↦ e ] in
      (
        call Effect.free_conn (
            call Effect.appif_conn_closed (
              call Effect.nicif_connection_free (record s {
                conn = record s.conn { to_armed = false };
                table = t;
                ports = update s.ports port free;
              }))),
        ground (arith, on, k),
        gone,
        refl,
        refl,
      )

  fired-StatusOk :
      (random : ℕ) (st : Status) (s : Tcp)
      → s.conn.status ≡ st
      → StatusOk hash config st s
      → s.conn.to_armed ≡ true
      → Settles s (tcp_timeout hash config random s.conn.to_timer s)
  fired-StatusOk random Status.syn_sent s e h a = inl (
      subst (λ t. Gives hash config (tcp_timeout hash config random t s)) (sym h.1.1)
        (timeout-ConnOk random s e h))
  fired-StatusOk random Status.closed s e h a = inr (
    e,
    subst (λ t. Ends s (tcp_timeout hash config random t s)) (sym h.1.1)
        (close_timeout-Ends random s h.0 a),
  )
  fired-StatusOk random Status.syn_wait s e h a = cc
  fired-StatusOk random Status.arp_pending s e h a = cc
  fired-StatusOk random Status.reg_synack s e h a = cc
  fired-StatusOk random Status.opened s e h a = cc
  fired-StatusOk random Status.failed s e h a = cc

  tcp_close-StatusOk :
      (answer : Option Disabled) (st : Status) (s : Tcp)
      → s.conn.status ≡ st
      → StatusOk hash config st s
      → Gives hash config (forget (tcp_close answer s))
  unfolding tcp_close
  tcp_close-StatusOk answer Status.opened s e h =
      let (s', done, k, ok) = close-ConnOk hash config answer s e h.0 h.1 in (s', ap forget k, ok)
  tcp_close-StatusOk answer Status.syn_wait s e h =
      same-ConnOk hash config _ _ s e h (ground (arith, e))
  tcp_close-StatusOk answer Status.arp_pending s e h =
      same-ConnOk hash config _ _ s e h (ground (arith, e))
  tcp_close-StatusOk answer Status.syn_sent s e h =
      same-ConnOk hash config _ _ s e h (ground (arith, e))
  tcp_close-StatusOk answer Status.reg_synack s e h =
      same-ConnOk hash config _ _ s e h (ground (arith, e))
  tcp_close-StatusOk answer Status.closed s e h =
      same-ConnOk hash config _ _ s e h (ground (arith, e))
  tcp_close-StatusOk answer Status.failed s e h =
      same-ConnOk hash config _ _ s e h (ground (arith, e))

  -- Whatever of a completion, a segment, its timeout and a call of `tcp_close` happens to a
  -- connection, in any status, its handler runs to the end, so
  -- no assertion fails and the program does not abort, and afterwards the status again says where
  -- the connection is. From ARP on until it has failed it is in the chain of its address once; once it
  -- has failed, no entry there has its number; its timeout is armed while a SYN is unanswered and
  -- after closing, and only then. Or the timeout of a closed connection has fired: then the
  -- connection is out of its chain, the NIC and the application are told, and it is freed. A
  -- timeout fires only where it is armed, and the configured timeout is above 0 and at most 2 ^ 26
  -- microseconds after all doublings.
  pub step-ConnOk :
      (ev : Event) (s : Tcp)
      → ConfigOk hash config
      → ConnOk hash config s
      → Expected ev s
      → Settles s (step ev s)
  step-ConnOk (completed random comp) s ok h x =
      inl (poll-StatusOk hash config random comp s.conn.status s ok refl h)
  step-ConnOk (segment p opts flow_group flow answer) s ok h x =
      inl (conn_packet-StatusOk hash config p opts flow_group flow answer s.conn.status s refl h)
  step-ConnOk (fired random) s ok h x = fired-StatusOk random s.conn.status s refl h x
  step-ConnOk (closed_by_app answer) s ok h x =
      inl (tcp_close-StatusOk answer s.conn.status s refl h)
