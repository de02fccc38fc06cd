-- ===== src/App/Events.antt =====
-- The events of a connection in lib/tas/init.c.
use flex_toe.Prelude.{
  if◌then◌else◌, ℕ, ◌&&◌, ◌++◌, ◌+◌, ◌==◌, ◌∷◌, Bool, List, [], false, ltb, not, true,
}
use flex_toe.Prelude.Rings.{wrap}
use flex_toe.Prelude.Words.{add32, sub32}
use flex_toe.App.Buffers.{Pushed, conn_tx_allocbytes, push_txeos}
use flex_toe.App.State.{AppConn, AppStatus}

-- An update from the NIC: `struct flextcp_pl_arx_t`.
pub record ArxUpdate : Type 0 where
  pub rx_bump : ℕ
  pub tx_bump : ℕ
  pub flrxdone : Bool

-- `struct flextcp_event`; the first number of an event of a connection is the connection.
pub data AppEvent : Type 0 where
  received : ℕ → ℕ → ℕ → AppEvent
  sendbuf rxclosed txclosed : ℕ → AppEvent
  conn_open listen_accept moved conn_closed : ℕ → ℕ → AppEvent
  listen_opened : ℕ → ℕ → AppEvent
  listen_newconn : ℕ → ℕ → ℕ → AppEvent

-- What a handler comes to: an assertion fails or the program aborts; there is no room for the
-- events; or the connection, whether it is marked for the NIC, and the events.
pub data Handled : Type 0 where
  assertion later : Handled
  handled : AppConn → Bool → List AppEvent → Handled

abbrev pub count_if : Bool → ℕ
count_if b = if b then 1 else 0

-- Received bytes that run over the end of the buffer.
abbrev pub rx_wraps : ArxUpdate → AppConn → Bool
rx_wraps u c = ltb c.rxb_len (add32 c.rxb_head u.rx_bump)

abbrev pub tx_avail_ev : ArxUpdate → AppConn → Bool
tx_avail_ev u c = ltb 0 u.tx_bump && (conn_tx_allocbytes c == 0)

abbrev pub evs_needed : ArxUpdate → AppConn → ℕ
evs_needed u c =
    (if ltb 0 u.rx_bump then 1 + count_if (rx_wraps u c) else 0)
    + count_if (tx_avail_ev u c)
    + count_if (c.txeos_alloc && (sub32 c.txb_sent u.tx_bump == 0))
    + count_if u.flrxdone

-- The events for the bytes received, and the connection after them.
unfoldable pub rx_events : ℕ → ArxUpdate → AppConn → List AppEvent
rx_events id u c =
    let rx_len = sub32 c.rxb_len c.rxb_head in
    if ltb 0 u.rx_bump
    then (if rx_wraps u c
        then AppEvent.received id c.rxb_head rx_len
          ∷ AppEvent.received id 0 (sub32 u.rx_bump rx_len)
          ∷ []
        else AppEvent.received id c.rxb_head u.rx_bump ∷ [])
    else []

unfoldable pub rx_moved : ArxUpdate → AppConn → AppConn
rx_moved u c =
    if ltb 0 u.rx_bump
    then record c {
      seq_rx = add32 c.seq_rx u.rx_bump;
      rxb_head = wrap c.rxb_len (add32 c.rxb_head u.rx_bump);
      rxb_used = add32 c.rxb_used u.rx_bump;
    }
    else c

-- The end of the stream, when bytes of the send buffer were acknowledged.
unfoldable pub tx_eos : ℕ → AppConn → Handled
tx_eos id c =
    if c.txeos && not c.txeos_alloc
    then elim (push_txeos c) [
      | Pushed.pushed c' ↦ Handled.handled c' true []
      | _ ↦ Handled.assertion
    ]
    else if c.txeos_alloc
    then if c.txeos_ack
      then Handled.assertion
      else if c.txb_sent == 0
      then Handled.handled (record c { txeos_ack = true }) false (AppEvent.txclosed id ∷ [])
      else Handled.handled c false []
    else Handled.handled c false []

unfoldable pub tx_acked : ℕ → ArxUpdate → AppConn → Handled
tx_acked id u c =
    if ltb 0 u.tx_bump
    then tx_eos id (record c { txb_sent = sub32 c.txb_sent u.tx_bump })
    else Handled.handled c false []

-- All parts of an update of an open connection.
unfoldable pub arx_opened : ℕ → ArxUpdate → AppConn → Handled
arx_opened id u c =
    let avail = if tx_avail_ev u c then AppEvent.sendbuf id ∷ [] else [] in
    let eos = if u.flrxdone then AppEvent.rxclosed id ∷ [] else [] in
    elim (tx_acked id u (rx_moved u c)) [
      | Handled.handled c' marked evs ↦
          Handled.handled (if u.flrxdone then record c' { rx_closed = true } else c') marked
            (rx_events id u c ++ (avail ++ (evs ++ eos)))
      | _ ↦ Handled.assertion
    ]

-- `event_arx_connupdate` with room for `outn` events.
unfoldable pub event_arx_connupdate : ℕ → ArxUpdate → ℕ → AppConn → Handled
event_arx_connupdate id u outn c =
    let early =
      if u.tx_bump == 0
      then Handled.handled
          (record c {
            rx_closed = u.flrxdone;
            rxb_head = add32 c.rxb_head u.rx_bump;
            rxb_used = add32 c.rxb_used u.rx_bump;
          })
          false []
      else Handled.assertion in
    let dropped = Handled.handled c false [] in
    elim c.status [
      | AppStatus.open_requested ↦ early
      | AppStatus.accept_requested ↦ early
      | AppStatus.closed ↦ dropped
      | AppStatus.close_requested ↦ dropped
      | AppStatus.opened ↦ if ltb outn (evs_needed u c) then Handled.later else arx_opened id u c
    ]
