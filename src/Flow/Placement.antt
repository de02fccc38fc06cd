-- ===== src/Flow/Placement.antt =====
-- Where `flows_seg` of firmware/flows.c puts the payload in the receive buffer.
use flex_toe.Prelude.{
  ℕ, ◌&&◌, ◌+◌, ◌<◌, ◌==◌, ◌^◌, ◌≡◌, ◌≤◌, ◌⊎◌, Bool-cases, Option-cases, arith, false, inl, inr,
  not, refl, true,
}
use flex_toe.Prelude.Words.{add32, sub32, u32_mod}
use flex_toe.Flow.Ack.{Run, ack_taken, finish, reply, unchanged}
use flex_toe.Flow.Checks.{Trim, tcp_trim_rxbuf}
use flex_toe.Flow.Inv.{RxInv}
use flex_toe.Flow.RxLaws.Seg.{SameRx, seg_ack-SameRx}
use flex_toe.Flow.RxLaws.Trim.{Fits, trim_rxbuf-Fits}
use flex_toe.Flow.Seg.{
  catch_up, copy_payload, flows_seg, merge_interval, seg_ack, seg_body, seg_fin, seg_in_sequence,
  seg_out_of_order, seg_payload, seg_start, seg_trimmed,
}
use flex_toe.Flow.Send.{bump_qm}
use flex_toe.Flow.State.{FlowState, Pkt, Result, WorkIo}

-- The bytes from `offset` on, `len` of them, go where their sequence numbers belong, and within
-- the receive window that the segment met.
pub record Placed (fs : FlowState) (seq plen pos len offset : ℕ) : Type 0 where
  pub within_segment : offset + len ≤ plen
  pub position : pos ≡ add32 fs.rx_next_pos (sub32 (add32 seq offset) fs.rx_next_seq)
  pub within_window : sub32 (add32 seq offset) fs.rx_next_seq + len ≤ fs.rx_avail

-- A result whose payload, if it has one, is placed.
abbrev pub WellPlaced : FlowState → ℕ → ℕ → Result → Type 0
WellPlaced fs seq plen out =
    (out.flags.dma_payload ≡ false) ⊎ Placed fs seq plen out.dma_pos out.dma_len out.dma_offset

module _ (fs : FlowState) (seq plen : ℕ) where
  catch_up-out : (run : Run) → (catch_up run).out ≡ run.out
  unfolding catch_up merge_interval
  catch_up-out run = ground arith

  dma-WellPlaced :
      (run : Run) (t : Trim)
      → RxInv fs
      → SameRx fs run.fs
      → plen < 2 ^ 11
      → Fits fs seq plen t
      → let at = sub32 (add32 seq t.trim_start) fs.rx_next_seq in
        let bytes = sub32 plen (add32 t.trim_start t.trim_end) in
        WellPlaced fs seq plen
          (copy_payload run.out (add32 run.fs.rx_next_pos at) bytes t.trim_start)
  unfolding copy_payload
  dma-WellPlaced run t v s k f = inr (ground arith)

  out_of_order-WellPlaced :
      (run : Run) (t : Trim)
      → RxInv fs
      → SameRx fs run.fs
      → run.out.flags.dma_payload ≡ false
      → plen < 2 ^ 11
      → Fits fs seq plen t
      → WellPlaced fs seq plen
          (seg_out_of_order
            (add32 seq t.trim_start)
            (sub32 plen (add32 t.trim_start t.trim_end))
            t.trim_start
            run).out
  unfolding seg_out_of_order
  out_of_order-WellPlaced run t v s n k f = ground (arith, dma-WellPlaced run t v s k f)

  seg_fin-WellPlaced :
      (pkt : Pkt) (run : Run)
      → WellPlaced fs seq plen run.out
      → WellPlaced fs seq plen (seg_fin pkt plen run).out
  unfolding seg_fin
  seg_fin-WellPlaced pkt run p = elim p [ inl e ↦ inl (ground arith) | inr q ↦ inr (ground arith) ]

  seg_payload-WellPlaced :
      (run : Run) (t : Trim)
      → RxInv fs
      → SameRx fs run.fs
      → run.out.flags.dma_payload ≡ false
      → plen < 2 ^ 11
      → Fits fs seq plen t
      → add32 seq t.trim_start ≡ fs.rx_next_seq
      → WellPlaced fs seq plen
          (seg_payload (sub32 plen (add32 t.trim_start t.trim_end)) t.trim_start run).out
  unfolding seg_payload copy_payload
  seg_payload-WellPlaced run t v s n k f e =
      elim (Bool-cases (sub32 plen (add32 t.trim_start t.trim_end) == 0)) [
        | inl y ↦ rw (y, seg_payload) (inl n)
        | inr y ↦ rw (y, seg_payload, catch_up-out) (inr (ground arith))
      ]

  in_sequence-WellPlaced :
      (pkt : Pkt) (run : Run) (t : Trim)
      → RxInv fs
      → SameRx fs run.fs
      → run.out.flags.dma_payload ≡ false
      → plen < 2 ^ 11
      → Fits fs seq plen t
      → add32 seq t.trim_start ≡ fs.rx_next_seq
      → WellPlaced fs seq plen
          (seg_in_sequence pkt plen
            (sub32 plen (add32 t.trim_start t.trim_end))
            t.trim_start
            run).out
  unfolding seg_in_sequence
  in_sequence-WellPlaced pkt run t v s n k f e =
      let fs' = record (run.fs) { tx_next_ts = pkt.ts_val; tx_remote_avail = pkt.win } in
      let run' = record run { fs = fs' } in
      let bytes = sub32 plen (add32 t.trim_start t.trim_end) in
      elim (Bool-cases (run.fs.flags.rxfin && not (bytes == 0))) [
        | inl y ↦ rw (y, seg_in_sequence) (inl n)
        | inr y ↦
            rw (y, seg_in_sequence)
              (seg_fin-WellPlaced pkt (seg_payload bytes t.trim_start run')
                (seg_payload-WellPlaced run' t v (ground arith) n k f e))
      ]

seg_ack-no_payload :
    (pkt : Pkt) (fs : FlowState) (out : Result)
    → out.flags.dma_payload ≡ false
    → (seg_ack pkt fs out).out.flags.dma_payload ≡ false
unfolding seg_ack unchanged ack_taken
seg_ack-no_payload pkt fs out n = ground arith

seg_trimmed-WellPlaced :
    (fs : FlowState) (pkt : Pkt) (plen : ℕ) (t : Trim) (run : Run)
    → RxInv fs
    → SameRx fs run.fs
    → run.out.flags.dma_payload ≡ false
    → plen < 2 ^ 11
    → Fits fs pkt.seq plen t
    → WellPlaced fs pkt.seq plen (seg_trimmed pkt plen t run).out
unfolding seg_trimmed
seg_trimmed-WellPlaced fs pkt plen t run v s n k f =
    elim (Bool-cases (add32 pkt.seq t.trim_start == run.fs.rx_next_seq)) [
      | inl y ↦
          rw (y, seg_trimmed)
            (in_sequence-WellPlaced fs pkt.seq plen pkt run t v s n k f (ground arith))
      | inr y ↦ rw (y, seg_trimmed) (out_of_order-WellPlaced fs pkt.seq plen run t v s n k f)
    ]

seg_body-WellPlaced :
    (fs : FlowState) (pkt : Pkt) (plen : ℕ) (out : Result)
    → RxInv fs
    → pkt.seq < u32_mod
    → plen < 2 ^ 11
    → out.flags.dma_payload ≡ false
    → WellPlaced fs pkt.seq plen (seg_body pkt plen fs out).out
unfolding seg_body unchanged
seg_body-WellPlaced fs pkt plen out v h k n = elim (Option-cases (tcp_trim_rxbuf fs pkt.seq plen)) [
  | inl e ↦ rw (e, seg_body) (inl n)
  | inr (t, e) ↦
      rw (e, seg_body)
        (seg_trimmed-WellPlaced fs pkt plen t (seg_ack pkt fs out) v (seg_ack-SameRx pkt fs out).0
          (seg_ack-no_payload pkt fs out n) k
          (trim_rxbuf-Fits fs pkt.seq plen t v h (omega arith) e))
]

-- When a segment's result asks for its payload to be copied, the bytes copied lie in the segment,
-- go to the buffer positions of their sequence numbers, and lie within the receive window.
pub flows_seg-Placed :
    (w : WorkIo) (pkt : Pkt) (fs : FlowState) (r : Result)
    → RxInv fs
    → pkt.seq < u32_mod
    → w.plen < 2 ^ 11
    → (flows_seg w pkt fs r).1.flags.dma_payload ≡ true
    → let out = (flows_seg w pkt fs r).1 in
      Placed fs pkt.seq w.plen out.dma_pos out.dma_len out.dma_offset
unfolding flows_seg reply finish bump_qm seg_start
flows_seg-Placed w pkt fs r v h k e =
    elim (seg_body-WellPlaced fs pkt w.plen (seg_start w r) v h k refl) [
      | inl n ↦ absurd (ground arith)
      | inr p ↦ ground arith
    ]
