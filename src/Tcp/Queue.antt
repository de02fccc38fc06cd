-- ===== src/Tcp/Queue.antt =====
-- The backlog of a listener of user/tcp.c as a queue of SYNs.
use flex_toe.Prelude.{
  if◌then◌else◌, ℕ, ◌++◌, ◌+◌, ◌-◌, ◌<◌, ◌==◌, ◌∙◌, ◌∷◌, ◌≡◌, ◌≢◌, ◌≤◌, Bool-cases, List, Option,
  Option-cases, [], ap, arith, false, inl, inr, none, refl, some, suc, true, update,
}
use flex_toe.Prelude.Rings.{slots_from, slots_from-update, wrap}
use flex_toe.Tcp.Backlog.{
  Accepting, Listener, Slot, drop_slot, is_syn, known, listener_accept, listener_packet, slot_size,
  start_conn, store, stored_len,
}
use flex_toe.Tcp.Conn.{Connection, TcpConfig}
use flex_toe.Tcp.Options.{Parsed, parse_options}
use flex_toe.Tcp.State.{Packet}

abbrev pub queue : Listener → List Slot
queue l = slots_from l.backlog l.backlog_len l.backlog_pos l.backlog_used

-- The position is in the ring, and the ring is not overfull.
pub record RingOk (l : Listener) : Type 0 where
  pub inside : l.backlog_pos < l.backlog_len
  pub not_over : l.backlog_used ≤ l.backlog_len

module _ (hash : ℕ → ℕ → ℕ → ℕ → ℕ) (config : TcpConfig) where
  -- Giving up the slot takes the first packet off the queue.
  drop_slot-queue :
      (s : Accepting)
      → 0 < s.listener.backlog_used
      → RingOk s.listener
      → (queue s.listener
          ≡ s.listener.backlog s.listener.backlog_pos ∷ queue (drop_slot hash config s).listener)
        × RingOk (drop_slot hash config s).listener
  unfolding drop_slot
  drop_slot-queue s p r =
      let l = s.listener in
      let used : l.backlog_used ≡ suc (l.backlog_used - 1) = omega arith in
      let record { inside = h; not_over = k } = r in
      (
        ap (slots_from l.backlog l.backlog_len l.backlog_pos) used,
        record { inside = ground arith; not_over = omega arith },
      )

  -- The queue, when the slot of a state with the same ring is given up.
  abbrev Takes : Accepting → Option Accepting → Type 0
  Takes s r =
      (s' : Accepting) × (r ≡ some s')
      × (queue s.listener ≡ s.listener.backlog s.listener.backlog_pos ∷ queue s'.listener)
      × RingOk s'.listener

  drop_slot-Takes :
      (s : Accepting)
      → 0 < s.listener.backlog_used
      → RingOk s.listener
      → Takes s (some (drop_slot hash config s))
  drop_slot-Takes s p r = let q = drop_slot-queue s p r in (drop_slot hash config s, refl, q.0, q.1)

  start_conn-Takes :
      (flow : Option ℕ) (ts : ℕ) (c : Connection) (waiting : List Connection) (s : Accepting)
      → 0 < s.listener.backlog_used
      → RingOk s.listener
      → Takes s (some (drop_slot hash config (start_conn hash config flow ts c waiting s)))
  unfolding start_conn
  start_conn-Takes none ts c waiting s p r =
      drop_slot-Takes (start_conn hash config none ts c waiting s) p
        (record { inside = r.inside; not_over = r.not_over })
  start_conn-Takes (some id) ts c waiting s p r =
      drop_slot-Takes (start_conn hash config (some id) ts c waiting s) p
        (record { inside = r.inside; not_over = r.not_over })

  -- `listener_accept` by what the options of the oldest SYN come to.
  accept-by :
      (flow : Option ℕ) (s : Accepting) (c : Connection) (waiting : List Connection) (o : Parsed)
      → RingOk s.listener
      → 0 < s.listener.backlog_used
      → s.listener.wait_conns ≡ c ∷ waiting
      → parse_options
          (s.listener.backlog s.listener.backlog_pos).buf
          (s.listener.backlog s.listener.backlog_pos).len
        ≡ o
      → Takes s (listener_accept hash config flow s)
  unfolding listener_accept
  accept-by flow s c waiting Parsed.looking r p w e =
      let (s', q, t, u) = drop_slot-Takes s p r in (s', ground (arith, w, e) ∙ q, t, u)
  accept-by flow s c waiting Parsed.failed r p w e =
      let (s', q, t, u) = drop_slot-Takes s p r in (s', ground (arith, w, e) ∙ q, t, u)
  accept-by flow s c waiting (Parsed.parsed opts) r p w e = elim (Option-cases opts.ts) [
    | inl y ↦ let (s', q, t, u) = drop_slot-Takes s p r in (s', ground (arith, w, e, y) ∙ q, t, u)
    | inr (ts, y) ↦
        let (s', q, t, u) = start_conn-Takes flow ts c waiting s p r in
        (s', ground (arith, w, e, y) ∙ q, t, u)
  ]

  -- `listener_accept`, with a SYN in the backlog and a connection that waits, takes the oldest SYN off
  -- the queue, also one with bad options or that the NIC does not take, and keeps the ring in order.
  pub listener_accept-queue :
      (flow : Option ℕ) (s : Accepting) (c : Connection) (waiting : List Connection)
      → RingOk s.listener
      → 0 < s.listener.backlog_used
      → s.listener.wait_conns ≡ c ∷ waiting
      → (s' : Accepting) × (listener_accept hash config flow s ≡ some s')
        × (queue s.listener ≡ s.listener.backlog s.listener.backlog_pos ∷ queue s'.listener)
        × RingOk s'.listener
  listener_accept-queue flow s c waiting r p w =
      let bls = s.listener.backlog s.listener.backlog_pos in
      accept-by flow s c waiting (parse_options bls.buf bls.len) r p w refl

  store-queue :
      (p : Packet) (flow_group : ℕ) (s : Accepting)
      → RingOk s.listener
      → s.listener.backlog_used ≢ s.listener.backlog_len
      → (queue (store hash config p flow_group s).listener
          ≡ queue s.listener ++ record { buf = p; len = stored_len p; fg = flow_group } ∷ [])
        × RingOk (store hash config p flow_group s).listener
  unfolding store
  store-queue p flow_group s r n =
      let l = s.listener in
      let record { inside = h; not_over = k } = r in
      let next : l.backlog_used + 1 ≡ suc l.backlog_used = omega arith in
      let i = wrap l.backlog_len (l.backlog_pos + l.backlog_used) in
      let x : Slot = record { buf = p; len = stored_len p; fg = flow_group } in
      (
        ap (slots_from (update l.backlog i x) l.backlog_len l.backlog_pos) next
            ∙ slots_from-update l.backlog l.backlog_len l.backlog_pos l.backlog_used i x h
                (omega arith) refl,
        record { inside = h; not_over = omega arith },
      )

  store-newconns :
      (p : Packet) (flow_group : ℕ) (s : Accepting)
      → (store hash config p flow_group s).newconns ≡ p ∷ s.newconns
  unfolding store
  store-newconns p flow_group s = refl

  -- A SYN that fits a slot, from a peer that is not in the backlog yet, while no connection waits:
  -- with a free slot it joins the queue at its end, and the application is told of a new connection
  -- with this packet; with none the SYN is dropped, and the application is told nothing.
  pub listener_packet-queue :
      (p : Packet) (flow_group : ℕ) (flow : Option ℕ) (s : Accepting)
      → RingOk s.listener
      → is_syn p.flags ≡ true
      → stored_len p ≤ slot_size
      → known p s.listener.backlog s.listener.backlog_len s.listener.backlog_pos
          s.listener.backlog_used
        ≡ false
      → s.listener.wait_conns ≡ []
      → (s' : Accepting) × (listener_packet hash config p flow_group flow s ≡ some s')
        × (queue s'.listener ≡ (
            if s.listener.backlog_len == s.listener.backlog_used
            then queue s.listener
            else queue s.listener ++ record { buf = p; len = stored_len p; fg = flow_group } ∷ []))
        × (s'.newconns ≡ (
            if s.listener.backlog_len == s.listener.backlog_used
            then s.newconns
            else p ∷ s.newconns))
        × RingOk s'.listener
  unfolding listener_packet
  listener_packet-queue p flow_group flow s r syn small fresh w =
      elim (Bool-cases (s.listener.backlog_len == s.listener.backlog_used)) [
        | inl full ↦ (s, ground (arith, syn, small, fresh, full), rw full refl, rw full refl, r)
        | inr room ↦
            let q = store-queue p flow_group s r (ground (arith, room)) in
            (
              store hash config p flow_group s,
              ground (arith, syn, small, fresh, room, w),
              rw room q.0,
              rw room (store-newconns p flow_group s),
              q.1,
            )
      ]
