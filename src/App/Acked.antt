-- ===== src/App/Acked.antt =====
-- The send side of an update from the NIC, in lib/tas/init.c.
use flex_toe.Prelude.{
  ℕ, ◌&&◌, ◌<◌, ◌==◌, ◌∷◌, ◌≡◌, ◌≢◌, ◌≤◌, Bool, Bool-cases, List, [], arith, false, inl, inr,
  length, ltb, refl, true,
}
use flex_toe.Prelude.Rings.{wrap}
use flex_toe.Prelude.Words.{add32, sub32}
use flex_toe.App.Buffers.{BufOk, Pushed, conn_tx_allocbytes, push_txeos}
use flex_toe.App.Events.{AppEvent, ArxUpdate, Handled, count_if, tx_acked, tx_eos}
use flex_toe.App.Received.{reported}
use flex_toe.App.State.{AppConn}

-- The result of a stage: no assertion fails, the buffers are in order, the receive side is as
-- before, and at most so many events are there, none of them for received bytes.
abbrev pub Stage : AppConn → ℕ → Handled → Type 0
Stage d n h =
    (c' : AppConn) × (marked : Bool) × (evs : List AppEvent) × (h ≡ Handled.handled c' marked evs)
    × (reported evs ≡ [])
    × (length evs ≤ n)
    × (c'.rxb_used ≡ d.rxb_used)
    × BufOk c'

-- The send side of an update, from a connection that is in order.
module _ (id : ℕ) (c : AppConn) (b : BufOk c) where
  push_txeos-BufOk :
      c.txeos ≡ true
      → c.txeos_alloc ≡ false
      → c.txb_sent < c.txb_len
      → (c' : AppConn) × (push_txeos c ≡ Pushed.pushed c') × (c'.rxb_used ≡ c.rxb_used) × BufOk c'
  unfolding push_txeos
  push_txeos-BufOk e a room =
      let none_left = b.no_alloc e in
      let c' = record c {
        txb_sent = add32 c.txb_sent 1;
        txb_head = wrap c.txb_len (add32 c.txb_head 1);
        txeos_alloc = true;
        txb_bump = add32 c.txb_bump 1;
      } in
      let free : conn_tx_allocbytes c ≢ 0 = omega (arith, none_left) in
      (
        c',
        ground (arith, e, none_left, free),
        refl,
        record {
          rx_short = b.rx_short;
          rx_head = b.rx_head;
          rx_fits = b.rx_fits;
          tx_short = b.tx_short;
          tx_head = ground arith;
          tx_fits = omega (arith, none_left);
          no_alloc = b.no_alloc;
          alloc_eos = λ t. e;
          acked_eos = λ t. let (x, z) = b.acked_eos t in cc;
        },
      )

  tx_eos-Stage :
      c.txb_sent < c.txb_len
      → c.txeos_ack ≡ false
      → Stage c (count_if (c.txeos_alloc && (c.txb_sent == 0))) (tx_eos id c)
  unfolding tx_eos
  tx_eos-Stage room k = elim (Bool-cases c.txeos_alloc) [
    | inl a ↦ elim (Bool-cases (c.txb_sent == 0)) [
      | inl z ↦ (
        record c { txeos_ack = true },
        false,
        AppEvent.txclosed id ∷ [],
        ground (arith, a, k, z),
        refl,
        rw (a, z) (omega arith),
        refl,
        record {
          rx_short = b.rx_short;
          rx_head = b.rx_head;
          rx_fits = b.rx_fits;
          tx_short = b.tx_short;
          tx_head = b.tx_head;
          tx_fits = b.tx_fits;
          no_alloc = b.no_alloc;
          alloc_eos = b.alloc_eos;
          acked_eos = λ t. (a, ground (arith, z));
        },
      )
      | inr z ↦ (c, false, [], ground (arith, a, k, z), refl, omega arith, refl, b)
    ]
    | inr a ↦ elim (Bool-cases c.txeos) [
      | inl e ↦
          let (c', q, r, o) = push_txeos-BufOk e a room in
          (c', true, [], ground (arith, e, a, q), refl, omega arith, r, o)
      | inr e ↦ (c, false, [], ground (arith, e, a), refl, omega arith, refl, b)
    ]
  ]

module _ (id : ℕ) (u : ArxUpdate) (c : AppConn) (b : BufOk c) where
  pub tx_acked-Stage :
      u.tx_bump ≤ c.txb_sent
      → Stage c (count_if (c.txeos_alloc && (sub32 c.txb_sent u.tx_bump == 0))) (tx_acked id u c)
  unfolding tx_acked
  tx_acked-Stage h = elim (Bool-cases (ltb 0 u.tx_bump)) [
    | inr z ↦ (c, false, [], ground (arith, z), refl, omega arith, refl, b)
    | inl p ↦
        let left = sub32 c.txb_sent u.tx_bump in
        let less : left < c.txb_sent = ground arith in
        let some_sent : c.txb_sent ≢ 0 = omega (arith, less) in
        let open_end : c.txeos_ack ≡ false = elim (Bool-cases c.txeos_ack) [
          | inl t ↦ absurd (some_sent (b.acked_eos t).1)
          | inr t ↦ t
        ] in
        let b' : BufOk (record c { txb_sent = left }) = record {
          rx_short = b.rx_short;
          rx_head = b.rx_head;
          rx_fits = b.rx_fits;
          tx_short = b.tx_short;
          tx_head = b.tx_head;
          tx_fits = omega (arith, less);
          no_alloc = b.no_alloc;
          alloc_eos = b.alloc_eos;
          acked_eos = λ t. cc;
        } in
        let room : left < c.txb_len = omega (arith, less) in
        let (c', m, evs, q, r, n, same, o) =
          tx_eos-Stage id (record c { txb_sent = left }) b' room open_end in
        (c', m, evs, ground (arith, p, q), r, n, same, o)
  ]
