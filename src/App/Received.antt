-- ===== src/App/Received.antt =====
-- The bytes that an update from the NIC reports, in lib/tas/init.c.
use mathlib.Core.List.{append-nil, append_assoc}
use flex_toe.Prelude.{
  if◌then◌else◌, ℕ, ◌++◌, ◌+◌, ◌-◌, ◌<◌, ◌∙◌, ◌∷◌, ◌≡◌, ◌≤◌, Bool-cases, List, [], ap, arith, inl,
  inr, length, ltb, refl, sym,
}
use flex_toe.Prelude.Rings.{ring_positions, ring_positions-split, ring_positions-stretch, stretch}
use flex_toe.Prelude.Words.{sub32}
use flex_toe.App.Buffers.{BufOk}
use flex_toe.App.Events.{AppEvent, ArxUpdate, count_if, rx_events, rx_moved, rx_wraps}
use flex_toe.App.State.{AppConn}

-- The positions of the bytes that events report.
abbrev pub reported : List AppEvent → List ℕ
reported [] = []
reported (AppEvent.received id off len ∷ evs) = stretch off len ++ reported evs
reported (AppEvent.sendbuf id ∷ evs) = reported evs
reported (AppEvent.rxclosed id ∷ evs) = reported evs
reported (AppEvent.txclosed id ∷ evs) = reported evs
reported (AppEvent.conn_open a e ∷ evs) = reported evs
reported (AppEvent.listen_accept a e ∷ evs) = reported evs
reported (AppEvent.moved a e ∷ evs) = reported evs
reported (AppEvent.conn_closed a e ∷ evs) = reported evs
reported (AppEvent.listen_opened a e ∷ evs) = reported evs
reported (AppEvent.listen_newconn a e f ∷ evs) = reported evs

pub reported-append : (xs ys : List AppEvent) → reported (xs ++ ys) ≡ reported xs ++ reported ys
reported-append [] ys = refl
reported-append (AppEvent.received id off len ∷ evs) ys =
    ap (λ l. stretch off len ++ l) (reported-append evs ys)
    ∙ sym (append_assoc (stretch off len) (reported evs) (reported ys))
reported-append (AppEvent.sendbuf id ∷ evs) ys = reported-append evs ys
reported-append (AppEvent.rxclosed id ∷ evs) ys = reported-append evs ys
reported-append (AppEvent.txclosed id ∷ evs) ys = reported-append evs ys
reported-append (AppEvent.conn_open a e ∷ evs) ys = reported-append evs ys
reported-append (AppEvent.listen_accept a e ∷ evs) ys = reported-append evs ys
reported-append (AppEvent.moved a e ∷ evs) ys = reported-append evs ys
reported-append (AppEvent.conn_closed a e ∷ evs) ys = reported-append evs ys
reported-append (AppEvent.listen_opened a e ∷ evs) ys = reported-append evs ys
reported-append (AppEvent.listen_newconn a e f ∷ evs) ys = reported-append evs ys

-- What the NIC reports fits the buffers.
pub record FitsBuffers (u : ArxUpdate) (c : AppConn) : Type 0 where
  pub rx : c.rxb_used + u.rx_bump ≤ c.rxb_len
  pub tx : u.tx_bump ≤ c.txb_sent

pub length-rx_events :
    (id : ℕ) (u : ArxUpdate) (c : AppConn)
    → length (rx_events id u c) ≤ (if ltb 0 u.rx_bump then 1 + count_if (rx_wraps u c) else 0)
unfolding rx_events
length-rx_events id u c = ground arith

module _ (id : ℕ) (u : ArxUpdate) (c : AppConn) (b : BufOk c) (f : FitsBuffers u c) where
  pub rx_events-reported :
      reported (rx_events id u c) ≡ ring_positions c.rxb_len c.rxb_head u.rx_bump
  unfolding rx_events
  rx_events-reported = elim (Bool-cases (ltb 0 u.rx_bump)) [
    | inr z ↦
        let nothing : u.rx_bump ≡ 0 = ground (arith, z) in
        rw z (ap (ring_positions c.rxb_len c.rxb_head) (sym nothing))
    | inl p ↦ elim (Bool-cases (rx_wraps u c)) [
      | inl w ↦
          let over : c.rxb_len < c.rxb_head + u.rx_bump = ground (arith, w) in
          let first : sub32 c.rxb_len c.rxb_head ≡ c.rxb_len - c.rxb_head = omega arith in
          let second : sub32 u.rx_bump (sub32 c.rxb_len c.rxb_head)
              ≡ u.rx_bump - (c.rxb_len - c.rxb_head) =
            omega arith in
          rw (p, w)
            (ap (λ l. stretch c.rxb_head (sub32 c.rxb_len c.rxb_head) ++ l) (append-nil _)
              ∙ (ap
                    (λ i.
                      stretch c.rxb_head i
                      ++ stretch 0 (sub32 u.rx_bump (sub32 c.rxb_len c.rxb_head)))
                    first
                  ∙ (ap (λ i. stretch c.rxb_head (c.rxb_len - c.rxb_head) ++ stretch 0 i) second
                      ∙ sym (
                          ring_positions-split c.rxb_len c.rxb_head u.rx_bump b.rx_head
                            (omega arith) over))))
      | inr w ↦
          rw (p, w)
            (append-nil _
              ∙ sym (ring_positions-stretch c.rxb_len c.rxb_head u.rx_bump (ground (arith, w))))
    ]
  ]

  pub rx_moved-BufOk :
      BufOk (rx_moved u c)
      × ((rx_moved u c).rxb_used ≡ c.rxb_used + u.rx_bump)
      × ((rx_moved u c).txb_sent ≡ c.txb_sent)
      × ((rx_moved u c).txeos_alloc ≡ c.txeos_alloc)
  unfolding rx_moved
  rx_moved-BufOk = (
    elim (Bool-cases (ltb 0 u.rx_bump)) [
      | inr z ↦ rw z b
      | inl p ↦ rw p (record {
        rx_short = b.rx_short;
        rx_head = ground arith;
        rx_fits = omega arith;
        tx_short = b.tx_short;
        tx_head = b.tx_head;
        tx_fits = b.tx_fits;
        no_alloc = b.no_alloc;
        alloc_eos = b.alloc_eos;
        acked_eos = b.acked_eos;
      })
    ],
    ground arith,
    ground arith,
    ground arith,
  )
