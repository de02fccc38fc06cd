-- ===== src/App/Space.antt =====
-- Space in the send buffer of lib/tas/conn.c.
use mathlib.Core.List.{append-nil}
use flex_toe.Prelude.{
  ℕ, ◌++◌, ◌+◌, ◌-◌, ◌<◌, ◌∙◌, ◌≡◌, ◌≤◌, Bool-cases, List, ap, arith, false, inl, inr, ltb, min,
  refl, some, sym,
}
use flex_toe.Prelude.Rings.{
  ring_positions, ring_positions-split, ring_positions-stretch, stretch, wrap,
}
use flex_toe.Prelude.Words.{add32, sub32}
use flex_toe.App.Buffers.{BufOk, Piece, alloc_head, conn_tx_allocbytes, sent, tx_alloc2}
use flex_toe.App.State.{AppConn}

-- The positions of a piece.
abbrev pub covers : Piece → List ℕ
covers p = stretch p.off p.len

module _ (c : AppConn) (b : BufOk c) where
  allocbytes-eq : conn_tx_allocbytes c ≡ c.txb_len - c.txb_sent - c.txb_allocated
  allocbytes-eq = omega arith

  alloc_head-eq : alloc_head c ≡ wrap c.txb_len (c.txb_head + c.txb_allocated)
  alloc_head-eq =
      let plain : add32 c.txb_head c.txb_allocated ≡ c.txb_head + c.txb_allocated = omega arith in
      ap (wrap c.txb_len) plain

  alloc_head-lt : alloc_head c < c.txb_len
  alloc_head-lt = let e = alloc_head-eq in ground (arith, e)

  allocated-BufOk :
      (n : ℕ)
      → n ≤ conn_tx_allocbytes c
      → c.txeos ≡ false
      → BufOk (record c { txb_allocated = add32 c.txb_allocated n })
  allocated-BufOk n h e =
      let free = allocbytes-eq in
      record {
        rx_short = b.rx_short;
        rx_head = b.rx_head;
        rx_fits = b.rx_fits;
        tx_short = b.tx_short;
        tx_head = b.tx_head;
        tx_fits = omega (arith, free);
        no_alloc = λ t. cc;
        alloc_eos = b.alloc_eos;
        acked_eos = b.acked_eos;
      }

  -- An open connection gets as much of its send buffer as it asks for and as is free, in the order
  -- of the ring behind what is allocated already, as one piece or, over the end of the buffer, as
  -- two. The buffers stay in order.
  pub tx_alloc2-ring :
      (len : ℕ)
      → c.txeos ≡ false
      → (c' : AppConn) × (p : Piece) × (q : Piece) × (tx_alloc2 len c ≡ some (c', p, q))
        × (c'.txb_allocated ≡ c.txb_allocated + min (c.txb_len - c.txb_sent - c.txb_allocated) len)
        × (covers p ++ covers q
            ≡ ring_positions c.txb_len
                (wrap c.txb_len (c.txb_head + c.txb_allocated))
                (min (c.txb_len - c.txb_sent - c.txb_allocated) len))
        × BufOk c'
  unfolding tx_alloc2
  tx_alloc2-ring len e =
      let free = allocbytes-eq in
      let lt = alloc_head-lt in
      let h = alloc_head c in
      let n = min (conn_tx_allocbytes c) len in
      let same =
        ap (ring_positions c.txb_len h) (ap (λ i. min i len) free)
        ∙ ap (λ i. ring_positions c.txb_len i (min (c.txb_len - c.txb_sent - c.txb_allocated) len))
            alloc_head-eq in
      let ok = allocated-BufOk n (omega arith) e in
      let more = record c { txb_allocated = add32 c.txb_allocated n } in
      elim (Bool-cases (ltb c.txb_len (h + n))) [
        | inl x ↦ (
          more,
          record { off = h; len = c.txb_len - h },
          record { off = 0; len = n - (c.txb_len - h) },
          ground (arith, e, x),
          omega (arith, free),
          sym (ring_positions-split c.txb_len h n lt (omega (arith, free)) (ground (arith, x)))
              ∙ same,
          ok,
        )
        | inr x ↦ (
          more,
          record { off = h; len = n },
          record { off = 0; len = 0 },
          ground (arith, e, x),
          omega (arith, free),
          append-nil (stretch h n)
              ∙ (sym (ring_positions-stretch c.txb_len h n (ground (arith, x))) ∙ same),
          ok,
        )
      ]

  -- Sending at most what is allocated takes it from the start of the allocated bytes: these end where
  -- they ended, and the count for the NIC grows by as much, in 32 bits. The buffers stay in order.
  pub sent-BufOk :
      (len : ℕ)
      → len ≤ c.txb_allocated
      → (c' : AppConn) × (sent len c ≡ some c')
        × (c'.txb_sent ≡ c.txb_sent + len)
        × (c'.txb_allocated ≡ c.txb_allocated - len)
        × (alloc_head c' ≡ alloc_head c)
        × (c'.txb_bump ≡ add32 c.txb_bump len)
        × BufOk c'
  unfolding sent
  sent-BufOk len h =
      let head = wrap c.txb_len (add32 c.txb_head len) in
      let c' = record c {
        txb_allocated = sub32 c.txb_allocated len;
        txb_sent = add32 c.txb_sent len;
        txb_head = head;
        txb_bump = add32 c.txb_bump len;
      } in
      (
        c',
        ground arith,
        omega arith,
        omega arith,
        ground arith,
        refl,
        record {
          rx_short = b.rx_short;
          rx_head = b.rx_head;
          rx_fits = b.rx_fits;
          tx_short = b.tx_short;
          tx_head = ground arith;
          tx_fits = omega arith;
          no_alloc = λ t. let z = b.no_alloc t in omega (arith, z);
          alloc_eos = b.alloc_eos;
          acked_eos = λ t.
              let (a, z) = b.acked_eos t in
              let none_left = b.no_alloc (b.alloc_eos a) in (a, omega (arith, z, none_left));
        },
      )
