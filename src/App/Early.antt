-- ===== src/App/Early.antt =====
-- Updates that come before the slow path confirms a connection, in lib/tas/init.c: one that the
-- application opened, or one that it accepts.
-- The events report all that is used.
use mathlib.Core.List.{append-nil}
use flex_toe.Prelude.{
  if◌then◌else◌, ℕ, ◌%◌, ◌++◌, ◌+◌, ◌<◌, ◌^◌, ◌||◌, ◌∙◌, ◌∷◌, ◌≡◌, ◌≤◌, ◌⊎◌, Bool, Bool-cases, List,
  [], ap, arith, false, inl, inr, ltb, refl, subst, suc, sym, true, zero,
}
use flex_toe.Prelude.Rings.{ring_positions, ring_positions-stretch, stretch}
use flex_toe.Prelude.Words.{add32}
use flex_toe.App.Buffers.{BufOk}
use flex_toe.App.Confirm.{
  SpOpened, event_kappin_accept_conn, event_kappin_conn_opened, injected, no_event_room, set_flow,
}
use flex_toe.App.Events.{AppEvent, ArxUpdate, Handled, count_if, event_arx_connupdate}
use flex_toe.App.Received.{reported}
use flex_toe.App.Requests.{connection_init}
use flex_toe.App.State.{AppConn, AppStatus}

closed_event-reported :
    (b : Bool) (id : ℕ) → reported (if b then AppEvent.rxclosed id ∷ [] else []) ≡ []
closed_event-reported true id = refl
closed_event-reported false id = refl

injected_used : ℕ → ℕ → Bool → List AppEvent
injected_used id zero b = if b then AppEvent.rxclosed id ∷ [] else []
injected_used id (suc n) b =
    AppEvent.received id 0 (suc n) ∷ (if b then AppEvent.rxclosed id ∷ [] else [])

injected-used :
    (id n : ℕ) (c : AppConn) → c.rxb_used ≡ n → injected id c ≡ injected_used id n c.rx_closed
unfolding injected_used
injected-used id zero c e =
    let none_used : ltb 0 c.rxb_used ≡ false = ground (arith, e) in rw none_used refl
injected-used id (suc n) c e =
    let some_used : ltb 0 c.rxb_used ≡ true = ground (arith, e) in rw (some_used, e) refl

used-reported : (id n : ℕ) (b : Bool) → reported (injected_used id n b) ≡ stretch 0 n
unfolding injected_used
used-reported id zero b = closed_event-reported b id
used-reported id (suc n) b =
    ap (λ l. stretch 0 (suc n) ++ l) (closed_event-reported b id) ∙ append-nil (stretch 0 (suc n))

-- How many events say that the stream has ended.
abbrev pub closings : List AppEvent → ℕ
closings [] = 0
closings (ev ∷ evs) = elim ev [ AppEvent.rxclosed id ↦ suc (closings evs) | _ ↦ closings evs ]

used-closings : (id n : ℕ) (b : Bool) → closings (injected_used id n b) ≡ count_if b
unfolding injected_used
used-closings id zero true = refl
used-closings id zero false = refl
used-closings id (suc n) true = refl
used-closings id (suc n) false = refl

-- A connection that waits for its confirmation, after updates with `n` bytes.
abbrev pub waiting : AppStatus → ℕ → ℕ → ℕ → Bool → ℕ → AppConn
waiting status ip port lport closed n = record connection_init {
  status = status;
  remote_ip = ip;
  remote_port = port;
  local_port = lport;
  rx_closed = closed;
  rxb_head = n;
  rxb_used = n;
}

-- Updates one after the other, with all their events.
pub updates : ℕ → ℕ → List ArxUpdate → AppConn → Handled
updates id outn [] c = Handled.handled c false []
updates id outn (u ∷ us) c = elim (event_arx_connupdate id u outn c) [
  | Handled.handled c' marked evs ↦ elim (updates id outn us c') [
    | Handled.handled c'' marked' evs' ↦ Handled.handled c'' (marked || marked') (evs ++ evs')
    | other ↦ other
  ]
  | other ↦ other
]

-- The bytes that updates report as received, and whether the last one says that the stream ends.
abbrev pub bytes_of : List ArxUpdate → ℕ
bytes_of [] = 0
bytes_of (u ∷ us) = u.rx_bump + bytes_of us

abbrev pub ended : Bool → List ArxUpdate → Bool
ended closed [] = closed
ended closed (u ∷ us) = ended u.flrxdone us

-- Nothing that was sent is acknowledged: no byte was sent yet.
abbrev pub NoAcks : List ArxUpdate → Type 0
NoAcks [] = Unit {0}
NoAcks (u ∷ us) = (u.tx_bump ≡ 0) × NoAcks us

updates-waiting :
    (status : AppStatus) (id outn ip port lport : ℕ) (us : List ArxUpdate) (closed : Bool) (n : ℕ)
    → (status ≡ AppStatus.open_requested) ⊎ (status ≡ AppStatus.accept_requested)
    → NoAcks us
    → n + bytes_of us < 2 ^ 32
    → updates id outn us (waiting status ip port lport closed n)
      ≡ Handled.handled (waiting status ip port lport (ended closed us) (n + bytes_of us)) false []
unfolding updates event_arx_connupdate
updates-waiting status id outn ip port lport [] closed n w t h =
    let same : n ≡ n + 0 = omega arith in
    ap (λ k. Handled.handled (waiting status ip port lport closed k) false []) same
updates-waiting status id outn ip port lport (u ∷ us) closed n w t h =
    let rest =
      updates-waiting status id outn ip port lport us u.flrxdone (n + u.rx_bump) w t.1
        (omega arith) in
    let sum : n + u.rx_bump + bytes_of us ≡ n + (u.rx_bump + bytes_of us) = omega arith in
    let word : add32 n u.rx_bump ≡ n + u.rx_bump = omega arith in
    ground (arith, w, t.0, rest, sum, word)

-- The event of the slow path that confirms a connection, and the one that the application gets.
abbrev pub confirm : Bool → ℕ → SpOpened → ℕ → AppConn → Handled
confirm passive id m avail c =
    if passive then event_kappin_accept_conn id m avail c else event_kappin_conn_opened id m avail c

abbrev pub confirmed : Bool → ℕ → AppEvent
confirmed passive id = if passive then AppEvent.listen_accept id 0 else AppEvent.conn_open id 0

abbrev pub requested : Bool → AppStatus
requested passive = if passive then AppStatus.accept_requested else AppStatus.open_requested

requested-cases :
    (passive : Bool)
    → (requested passive ≡ AppStatus.open_requested)
      ⊎ (requested passive ≡ AppStatus.accept_requested)
requested-cases true = inr refl
requested-cases false = inl refl

fresh-BufOk :
    (c : AppConn) (n : ℕ)
    → n < c.rxb_len
    → c.rxb_len < 2 ^ 31
    → 0 < c.txb_len
    → c.txb_len < 2 ^ 31
    → (c.rxb_head ≡ n) × (c.rxb_used ≡ n)
    → (c.txb_head ≡ 0)
      × (c.txb_sent ≡ 0)
      × (c.txb_allocated ≡ 0)
      × (c.txeos ≡ false)
      × (c.txeos_alloc ≡ false)
      × (c.txeos_ack ≡ false)
    → BufOk c
fresh-BufOk c n r l z s (h, u) (a, b, d, e, f, g) = record {
  rx_short = omega (arith, l);
  rx_head = omega (arith, r, h);
  rx_fits = omega (arith, r, u);
  tx_short = omega (arith, s);
  tx_head = omega (arith, a, z);
  tx_fits = omega (arith, b, d);
  no_alloc = λ q. d;
  alloc_eos = λ q. absurd (ground (arith, q, f));
  acked_eos = λ q. absurd (ground (arith, q, g));
}

confirm-waiting :
    (passive : Bool) (id avail ip port lport : ℕ) (m : SpOpened) (closed : Bool) (n : ℕ)
    → n < m.rx_len
    → m.rx_len < 2 ^ 31
    → 0 < m.tx_len
    → m.tx_len < 2 ^ 31
    → m.status ≡ 0
    → 3 ≤ avail
    → let c1 = waiting (requested passive) ip port lport closed n in
      (c2 : AppConn) × (confirm passive id m avail c1
        ≡ Handled.handled c2 false (confirmed passive id ∷ injected id c1))
      × (c2.rxb_used ≡ n)
      × (c2.seq_rx % 2 ^ 32 ≡ (m.seq_rx + n) % 2 ^ 32)
      × (c2.rx_closed ≡ closed)
      × (c2.status ≡ AppStatus.opened)
      × BufOk c2
unfolding event_kappin_conn_opened event_kappin_accept_conn
confirm-waiting passive id avail ip port lport m closed n r l z s e k =
    let c1 = waiting (requested passive) ip port lport closed n in
    let room : no_event_room avail c1 ≡ false = ground (arith, k) in
    elim (Bool-cases passive) [
      | inl p ↦ (
        record (set_flow m c1) { remote_ip = m.remote_ip; remote_port = m.remote_port },
        rw p (rw (e, room) refl),
        refl,
        ground arith,
        refl,
        refl,
        fresh-BufOk _ n r l z s (refl, refl) (refl, refl, refl, refl, refl, refl),
      )
      | inr p ↦ (
        record (set_flow m c1) { local_port = m.local_port },
        rw p (rw (e, room) refl),
        refl,
        ground arith,
        refl,
        refl,
        fresh-BufOk _ n r l z s (refl, refl) (refl, refl, refl, refl, refl, refl),
      )
    ]

-- What the NIC tells about a connection before its confirmation, in updates that leave some of the
-- receive buffer free and acknowledge nothing, is reported with the confirmation, which has room for
-- three events; this holds of a connection that the application opened (`passive` is false) and of
-- one that it accepts. The updates themselves give no event. With the confirmation come all the
-- bytes received, from the start of the buffer on, and one event for the end of the stream if
-- the last update told it. The bytes are counted as used and in the next sequence number, the end of
-- the stream is noted, and the buffers of the open connection are in order.
pub conn_opened-early :
    (passive : Bool) (id outn avail port ip lport : ℕ) (m : SpOpened) (us : List ArxUpdate)
    → NoAcks us
    → bytes_of us < m.rx_len
    → m.rx_len < 2 ^ 31
    → 0 < m.tx_len
    → m.tx_len < 2 ^ 31
    → m.status ≡ 0
    → 3 ≤ avail
    → (c1 : AppConn) × (c2 : AppConn) × (evs : List AppEvent) × (updates id outn us
          (waiting (requested passive) ip port lport false 0)
        ≡ Handled.handled c1 false [])
      × (confirm passive id m avail c1 ≡ Handled.handled c2 false (confirmed passive id ∷ evs))
      × (reported evs ≡ ring_positions m.rx_len 0 (bytes_of us))
      × (closings evs ≡ count_if (ended false us))
      × (c2.rxb_used ≡ bytes_of us)
      × (c2.seq_rx % 2 ^ 32 ≡ (m.seq_rx + bytes_of us) % 2 ^ 32)
      × (c2.rx_closed ≡ ended false us)
      × (c2.status ≡ AppStatus.opened)
      × BufOk c2
conn_opened-early passive id outn avail port ip lport m us t r l z s e k =
    let n = bytes_of us in
    let closed = ended false us in
    let c1 = waiting (requested passive) ip port lport closed n in
    let (c2, run, used, seq, closed_so, opened_so, ok) =
      confirm-waiting passive id avail ip port lport m closed n r l z s e k in
    let told = injected-used id n c1 refl in
    let sum : 0 + n ≡ n = omega arith in
    (
      c1,
      c2,
      injected id c1,
      subst
          (λ k.
            updates id outn us (waiting (requested passive) ip port lport false 0)
            ≡ Handled.handled (waiting (requested passive) ip port lport closed k) false [])
          sum
          (updates-waiting (requested passive) id outn ip port lport us false 0
            (requested-cases passive) t (omega arith)),
      run,
      ap reported told
          ∙ (used-reported id n closed
              ∙ sym (ring_positions-stretch m.rx_len 0 n (omega (arith, r)))),
      ap closings told ∙ used-closings id n closed,
      used,
      seq,
      closed_so,
      opened_so,
      ok,
    )
