-- ===== src/App/Delivery.antt =====
-- Updates of an open connection in lib/tas/init.c.
use mathlib.Core.List.{append-nil}
use flex_toe.Prelude.{
  if◌then◌else◌, ℕ, ◌&&◌, ◌++◌, ◌+◌, ◌==◌, ◌∙◌, ◌∷◌, ◌≡◌, ◌≤◌, Bool, List, [], ap, arith, false,
  length, length-append, refl, subst, true,
}
use flex_toe.Prelude.Rings.{ring_positions}
use flex_toe.Prelude.Words.{sub32}
use flex_toe.App.Acked.{tx_acked-Stage}
use flex_toe.App.Buffers.{BufOk}
use flex_toe.App.Events.{
  AppEvent, ArxUpdate, Handled, arx_opened, count_if, event_arx_connupdate, evs_needed, rx_events,
  rx_moved, tx_avail_ev,
}
use flex_toe.App.Received.{
  FitsBuffers, length-rx_events, reported, reported-append, rx_events-reported, rx_moved-BufOk,
}
use flex_toe.App.State.{AppConn, AppStatus}

-- The other events, which report no bytes.
abbrev pub others : Bool → List AppEvent → Bool → ℕ → List AppEvent
others avail evs eos id =
    (if avail then AppEvent.sendbuf id ∷ [] else [])
    ++ (evs ++ (if eos then AppEvent.rxclosed id ∷ [] else []))

others-reported :
    (avail : Bool) (evs : List AppEvent) (eos : Bool) (id : ℕ)
    → reported evs ≡ []
    → reported (others avail evs eos id) ≡ []
others-reported true evs true id e = reported-append evs _ ∙ ap (λ l. l ++ []) e
others-reported true evs false id e = reported-append evs _ ∙ ap (λ l. l ++ []) e
others-reported false evs true id e = reported-append evs _ ∙ ap (λ l. l ++ []) e
others-reported false evs false id e = reported-append evs _ ∙ ap (λ l. l ++ []) e

pub length-others :
    (avail : Bool) (evs : List AppEvent) (eos : Bool) (id : ℕ)
    → length (others avail evs eos id) ≡ count_if avail + length evs + count_if eos
length-others true evs true id = omega (arith, length-append evs (AppEvent.rxclosed id ∷ []))
length-others true evs false id = omega (arith, ap length (append-nil evs))
length-others false evs true id = omega (arith, length-append evs (AppEvent.rxclosed id ∷ []))
length-others false evs false id = omega (arith, ap length (append-nil evs))

-- The mark that the peer has closed its side.
closed_if-BufOk :
    (eos : Bool) (c : AppConn)
    → BufOk c
    → BufOk (if eos then record c { rx_closed = true } else c)
      × ((if eos then record c { rx_closed = true } else c).rxb_used ≡ c.rxb_used)
closed_if-BufOk false c b = (b, refl)
closed_if-BufOk true c b = (
  record {
    rx_short = b.rx_short;
    rx_head = b.rx_head;
    rx_fits = b.rx_fits;
    tx_short = b.tx_short;
    tx_head = b.tx_head;
    tx_fits = b.tx_fits;
    no_alloc = b.no_alloc;
    alloc_eos = b.alloc_eos;
    acked_eos = b.acked_eos;
  },
  refl,
)

-- An update of an open connection, with room for the events that it needs, is handled without a failed
-- assertion. Its events report exactly the bytes received, by their positions in the ring and in
-- order, and count them as used; there are not more events than room, and the buffers stay in order.
-- What the NIC reports fits the buffers.
pub event_arx_connupdate-reported :
    (id : ℕ) (u : ArxUpdate) (outn : ℕ) (c : AppConn)
    → BufOk c
    → FitsBuffers u c
    → c.status ≡ AppStatus.opened
    → evs_needed u c ≤ outn
    → (c' : AppConn) × (marked : Bool) × (evs : List AppEvent) × (event_arx_connupdate id u outn c
        ≡ Handled.handled c' marked evs)
      × (reported evs ≡ ring_positions c.rxb_len c.rxb_head u.rx_bump)
      × (c'.rxb_used ≡ c.rxb_used + u.rx_bump)
      × (length evs ≤ outn)
      × BufOk c'
unfolding event_arx_connupdate arx_opened
event_arx_connupdate-reported id u outn c b f open_conn room =
    let (o, used, kept, same) = rx_moved-BufOk id u c b f in
    let acks : u.tx_bump ≤ (rx_moved u c).txb_sent = omega (arith, f.tx, kept) in
    let (c', m, evs, q, r, n, rx, o') = tx_acked-Stage id u (rx_moved u c) o acks in
    let rest = others (tx_avail_ev u c) evs u.flrxdone id in
    let silent = others-reported (tx_avail_ev u c) evs u.flrxdone id r in
    let here = rx_events-reported id u c b f in
    let closed_ok = closed_if-BufOk u.flrxdone c' o' in
    let none_more = ap (λ l. reported (rx_events id u c) ++ l) silent in
    let count = length-others (tx_avail_ev u c) evs u.flrxdone id in
    let sum = length-append (rx_events id u c) rest in
    let acked =
      subst (λ x. length evs ≤ x)
        (ap (λ x. count_if (x && (sub32 (rx_moved u c).txb_sent u.tx_bump == 0))) same
          ∙ ap (λ x. count_if (c.txeos_alloc && (sub32 x u.tx_bump == 0))) kept)
        n in
    (
      (if u.flrxdone then record c' { rx_closed = true } else c'),
      m,
      rx_events id u c ++ rest,
      ground (arith, open_conn, room, q),
      reported-append (rx_events id u c) rest ∙ (none_more ∙ (append-nil _ ∙ here)),
      closed_ok.1 ∙ (rx ∙ used),
      omega (arith, sum, count, acked, room, length-rx_events id u c),
      closed_ok.0,
    )
