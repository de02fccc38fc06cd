-- ===== src/Flow/TxLaws/Seg.antt =====
-- The send side of `flows_seg` of firmware/flows.c.
use flex_toe.Prelude.{ℕ, ◌<◌, ◌==◌, Bool-cases, Option-cases, arith, inl, inr}
use flex_toe.Prelude.Words.{add32, sub32, u32_mod}
use flex_toe.Flow.Ack.{Run, reply}
use flex_toe.Flow.Checks.{tcp_trim_rxbuf, tcp_txavail, tcp_valid_rxack}
use flex_toe.Flow.Inv.{TxInv, TxStep}
use flex_toe.Flow.Seg.{
  catch_up, deliver, flows_seg, merge_interval, seg_ack, seg_body, seg_fin, seg_in_sequence,
  seg_out_of_order, seg_payload, seg_trimmed, trim_interval,
}
use flex_toe.Flow.State.{FlowState, Pkt, Result, WorkIo}
use flex_toe.Flow.TxLaws.Ack.{
  Acked, ack_taken-Acked, finish-Acked, unchanged-Acked, valid_rxack-bounds,
}

pub seg_ack-Acked :
    (fs : FlowState) (pkt : Pkt) (out : Result) → TxInv fs → Acked fs (seg_ack pkt fs out)
unfolding seg_ack
seg_ack-Acked fs pkt out v = elim (Option-cases (tcp_valid_rxack fs pkt.ack)) [
  | inl e ↦ ground (arith, unchanged-Acked fs out v)
  | inr (bump, e) ↦ ground (
    arith,
    unchanged-Acked fs out v,
    ack_taken-Acked fs out bump v (valid_rxack-bounds fs pkt.ack v e).0,
  )
]

pub seg_out_of_order-Acked :
    (fs : FlowState) (seq bytes start : ℕ) (run : Run)
    → Acked fs run
    → Acked fs (seg_out_of_order seq bytes start run)
unfolding seg_out_of_order
seg_out_of_order-Acked fs seq bytes start run a = ground arith

pub merge_interval-Acked :
    (fs : FlowState) (run : Run) → Acked fs run → Acked fs (merge_interval run)
unfolding merge_interval deliver
merge_interval-Acked fs run a = ground arith

pub catch_up-Acked : (fs : FlowState) (run : Run) → Acked fs run → Acked fs (catch_up run)
unfolding catch_up trim_interval
catch_up-Acked fs run a =
    elim (Option-cases (tcp_trim_rxbuf run.fs run.fs.rx_ooo_start run.fs.rx_ooo_len)) [
      | inl e ↦ ground arith
      | inr (t, e) ↦
          ground (arith, merge_interval-Acked fs (record run { fs = trim_interval run.fs t }))
    ]

pub seg_payload-Acked :
    (fs : FlowState) (bytes start : ℕ) (run : Run)
    → Acked fs run
    → Acked fs (seg_payload bytes start run)
unfolding seg_payload deliver
seg_payload-Acked fs bytes start run a = elim (Bool-cases (bytes == 0)) [
  | inl e ↦ ground arith
  | inr e ↦ rw e (catch_up-Acked fs _ (ground arith))
]

pub seg_in_sequence-Acked :
    (fs : FlowState) (pkt : Pkt) (plen bytes start : ℕ) (run : Run)
    → pkt.win < u32_mod
    → Acked fs run
    → Acked fs (seg_in_sequence pkt plen bytes start run)
unfolding seg_in_sequence seg_fin
seg_in_sequence-Acked fs pkt plen bytes start run h a = ground (
  arith,
  seg_payload-Acked fs bytes start
      (record run { fs = record (run.fs) { tx_next_ts = pkt.ts_val; tx_remote_avail = pkt.win } }),
)

pub seg_body-Acked :
    (fs : FlowState) (pkt : Pkt) (plen : ℕ) (out : Result)
    → pkt.win < u32_mod
    → TxInv fs
    → Acked fs (seg_body pkt plen fs out)
unfolding seg_body seg_trimmed
seg_body-Acked fs pkt plen out h v = elim (Option-cases (tcp_trim_rxbuf fs pkt.seq plen)) [
  | inl e ↦ rw (e, seg_body) (unchanged-Acked fs out v)
  | inr (t, e) ↦
      let a = seg_ack-Acked fs pkt out v in
      let bytes = sub32 plen (add32 t.trim_start t.trim_end) in
      ground (
        arith,
        seg_in_sequence-Acked fs pkt plen bytes t.trim_start (seg_ack pkt fs out) h a,
        seg_out_of_order-Acked fs (add32 pkt.seq t.trim_start) bytes t.trim_start
            (seg_ack pkt fs out) a,
      )
]

-- A segment with payload treats the send side in the same way.
pub flows_seg-TxStep :
    (w : WorkIo) (pkt : Pkt) (fs : FlowState) (r : Result)
    → pkt.win < u32_mod
    → TxInv fs
    → let (fs', out) = flows_seg w pkt fs r in TxStep fs fs' out.ac_tx_bump
unfolding flows_seg reply
flows_seg-TxStep w pkt fs r h v =
    finish-Acked fs (tcp_txavail fs 0) pkt (seg_body pkt w.plen fs _)
      (seg_body-Acked fs pkt w.plen _ h v)
