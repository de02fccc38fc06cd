-- ===== src/App/Room.antt =====
-- The events of the polling loops of lib/tas/init.c, and the room for them.
-- A handler gives out no more events than there is room for.
use flex_toe.Prelude.{
  if◌then◌else◌, ℕ, ◌&&◌, ◌++◌, ◌+◌, ◌<◌, ◌==◌, ◌∙◌, ◌∷◌, ◌≡◌, ◌≤◌, Bool, Bool-cases, List, [], ap,
  arith, false, inl, inr, length, length-append, ltb, not, true,
}
use flex_toe.Prelude.Words.{sub32}
use flex_toe.App.Buffers.{Pushed, push_txeos}
use flex_toe.App.Confirm.{
  SpOpened, event_kappin_accept_conn, event_kappin_conn_opened, injected, no_event_room,
}
use flex_toe.App.Delivery.{length-others, others}
use flex_toe.App.Events.{
  AppEvent, ArxUpdate, Handled, arx_opened, count_if, event_arx_connupdate, evs_needed, rx_events,
  rx_moved, tx_acked, tx_avail_ev, tx_eos,
}
use flex_toe.App.Received.{length-rx_events}
use flex_toe.App.State.{AppConn, AppStatus}

abbrev pub FitsRoom : ℕ → Handled → Type 0
FitsRoom n Handled.assertion = Unit {0}
FitsRoom n Handled.later = Unit {0}
FitsRoom n (Handled.handled c marked evs) = length evs ≤ n

pushed-FitsRoom :
    (n : ℕ) (p : Pushed)
    → FitsRoom n (elim p as (λ x. Handled) [
      | Pushed.pushed c' ↦ Handled.handled c' true []
      | _ ↦ Handled.assertion
    ])
pushed-FitsRoom n Pushed.assertion = tt
pushed-FitsRoom n Pushed.no_room = tt
pushed-FitsRoom n (Pushed.pushed c') = omega arith

tx_eos-FitsRoom :
    (id : ℕ) (c : AppConn) → FitsRoom (count_if (c.txeos_alloc && (c.txb_sent == 0))) (tx_eos id c)
unfolding tx_eos
tx_eos-FitsRoom id c = elim (Bool-cases (c.txeos && not c.txeos_alloc)) [
  | inl q ↦ rw q (pushed-FitsRoom (count_if (c.txeos_alloc && (c.txb_sent == 0))) (push_txeos c))
  | inr q ↦ elim (Bool-cases c.txeos_alloc) [
    | inr a ↦ rw (q, a) (omega arith)
    | inl a ↦ elim (Bool-cases c.txeos_ack) [
      | inl k ↦ rw (q, a, k) tt
      | inr k ↦ elim (Bool-cases (c.txb_sent == 0)) [
        | inl z ↦ rw (q, a, k, z) (omega arith)
        | inr z ↦ rw (q, a, k, z) (omega arith)
      ]
    ]
  ]
]

tx_acked-FitsRoom :
    (id : ℕ) (u : ArxUpdate) (c : AppConn)
    → FitsRoom (count_if (c.txeos_alloc && (sub32 c.txb_sent u.tx_bump == 0))) (tx_acked id u c)
unfolding tx_acked
tx_acked-FitsRoom id u c = elim (Bool-cases (ltb 0 u.tx_bump)) [
  | inl t ↦ rw t (tx_eos-FitsRoom id (record c { txb_sent = sub32 c.txb_sent u.tx_bump }))
  | inr t ↦ rw t (omega arith)
]

-- What moves the receive side leaves the send side.
rx_moved-sent :
    (u : ArxUpdate) (c : AppConn)
    → ((rx_moved u c).txb_sent ≡ c.txb_sent) × ((rx_moved u c).txeos_alloc ≡ c.txeos_alloc)
unfolding rx_moved
rx_moved-sent u c = (ground arith, ground arith)

joined-FitsRoom :
    (id n : ℕ) (pre : List AppEvent) (avail eos : Bool) (h : Handled)
    → FitsRoom n h
    → FitsRoom (length pre + (count_if avail + n + count_if eos)) (elim h as (λ x. Handled) [
      | Handled.handled c' marked evs ↦
          Handled.handled
            (if eos then record c' { rx_closed = true } else c')
            marked
            (pre ++ others avail evs eos id)
      | _ ↦ Handled.assertion
    ])
joined-FitsRoom id n pre avail eos Handled.assertion f = tt
joined-FitsRoom id n pre avail eos Handled.later f = tt
joined-FitsRoom id n pre avail eos (Handled.handled c' marked evs) f =
    omega (arith, length-append pre (others avail evs eos id), length-others avail evs eos id, f)

FitsRoom-more : (m n : ℕ) (h : Handled) → m ≤ n → FitsRoom m h → FitsRoom n h
FitsRoom-more m n Handled.assertion k f = tt
FitsRoom-more m n Handled.later k f = tt
FitsRoom-more m n (Handled.handled c marked evs) k f = omega (arith, k, f)

arx_opened-FitsRoom :
    (id : ℕ) (u : ArxUpdate) (c : AppConn) → FitsRoom (evs_needed u c) (arx_opened id u c)
unfolding arx_opened
arx_opened-FitsRoom id u c =
    let (same_sent, same_alloc) = rx_moved-sent u c in
    let d = rx_moved u c in
    let n = count_if (d.txeos_alloc && (sub32 d.txb_sent u.tx_bump == 0)) in
    let same : n ≡ count_if (c.txeos_alloc && (sub32 c.txb_sent u.tx_bump == 0)) =
      ap (λ x. count_if (x && (sub32 d.txb_sent u.tx_bump == 0))) same_alloc
      ∙ ap (λ x. count_if (c.txeos_alloc && (sub32 x u.tx_bump == 0))) same_sent in
    let all =
      joined-FitsRoom id n (rx_events id u c) (tx_avail_ev u c) u.flrxdone (tx_acked id u d)
        (tx_acked-FitsRoom id u d) in
    FitsRoom-more
      (length (rx_events id u c) + (count_if (tx_avail_ev u c) + n + count_if u.flrxdone))
      (evs_needed u c) (arx_opened id u c) (omega (arith, same, length-rx_events id u c)) all

-- By the status of the connection.
module _ (id : ℕ) (u : ArxUpdate) (outn : ℕ) (c : AppConn) where
  early-FitsRoom :
      (c' : AppConn)
      → FitsRoom outn (if u.tx_bump == 0 then Handled.handled c' false [] else Handled.assertion)
  early-FitsRoom c' = elim (Bool-cases (u.tx_bump == 0)) [
    | inl z ↦ rw z (omega arith)
    | inr z ↦ rw z tt
  ]

  opened-FitsRoom :
      FitsRoom outn (if ltb outn (evs_needed u c) then Handled.later else arx_opened id u c)
  opened-FitsRoom = elim (Bool-cases (ltb outn (evs_needed u c))) [
    | inl z ↦ rw z tt
    | inr z ↦ rw z (
        FitsRoom-more (evs_needed u c) outn (arx_opened id u c) (ground (arith, z))
          (arx_opened-FitsRoom id u c))
  ]

  pub event_arx_connupdate-FitsRoom :
      (s : AppStatus) → c.status ≡ s → FitsRoom outn (event_arx_connupdate id u outn c)
  unfolding event_arx_connupdate
  event_arx_connupdate-FitsRoom AppStatus.closed e = rw (e, event_arx_connupdate) (omega arith)
  event_arx_connupdate-FitsRoom AppStatus.close_requested e =
      rw (e, event_arx_connupdate) (omega arith)
  event_arx_connupdate-FitsRoom AppStatus.open_requested e =
      rw (e, event_arx_connupdate) (early-FitsRoom _)
  event_arx_connupdate-FitsRoom AppStatus.accept_requested e =
      rw (e, event_arx_connupdate) (early-FitsRoom _)
  event_arx_connupdate-FitsRoom AppStatus.opened e = rw (e, event_arx_connupdate) opened-FitsRoom

-- The confirmations of the slow path.
module _ (id avail : ℕ) (c : AppConn) (h : 0 < avail) where
  injected-room : no_event_room avail c ≡ false → 1 + length (injected id c) ≤ avail
  injected-room r = ground (arith, r)

  confirmed-FitsRoom :
      (ev : AppEvent) (good bad : AppConn) (status : ℕ)
      → FitsRoom avail (
          if status == 0
          then if no_event_room avail c
            then Handled.later
            else Handled.handled good false (ev ∷ injected id c)
          else Handled.handled bad false (ev ∷ []))
  confirmed-FitsRoom ev good bad status = elim (Bool-cases (status == 0)) [
    | inr z ↦ rw z (omega arith)
    | inl z ↦ elim (Bool-cases (no_event_room avail c)) [
      | inl r ↦ rw (z, r) tt
      | inr r ↦ rw (z, r) (omega (arith, injected-room r))
    ]
  ]

  pub conn_opened-FitsRoom : (m : SpOpened) → FitsRoom avail (event_kappin_conn_opened id m avail c)
  unfolding event_kappin_conn_opened
  conn_opened-FitsRoom m = confirmed-FitsRoom _ _ _ m.status

  pub accept_conn-FitsRoom : (m : SpOpened) → FitsRoom avail (event_kappin_accept_conn id m avail c)
  unfolding event_kappin_accept_conn
  accept_conn-FitsRoom m = confirmed-FitsRoom _ _ _ m.status
