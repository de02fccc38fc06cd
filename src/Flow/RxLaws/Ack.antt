-- ===== src/Flow/RxLaws/Ack.antt =====
-- The receive side of the other handlers of firmware/flows.c.
use flex_toe.Prelude.{ℕ, ◌%◌, ◌+◌, ◌^◌, ◌≡◌, ◌≤◌, Option-cases, arith, inl, inr, refl}
use flex_toe.Flow.Ack.{
  Run, ack_body, ack_duplicate, ack_fin, ack_in_sequence, ack_reply, ack_start, ack_taken,
  advance_ack, finish, flows_ack, reply, unchanged, want_ack,
}
use flex_toe.Flow.Checks.{tcp_valid_rxack}
use flex_toe.Flow.Inv.{RxInv, RxStep}
use flex_toe.Flow.RxLaws.CatchUp.{Received}
use flex_toe.Flow.RxLaws.Seg.{SameRx, SameRx-RxInv, keep-RxStep}
use flex_toe.Flow.Send.{
  flows_ac, flows_reset_retransmit, flows_retx, flows_tx, host_update, sent_more,
}
use flex_toe.Flow.State.{FlowState, Pkt, Result, WorkAc, WorkIo}

pub ack_in_sequence-Received :
    (fs : FlowState) (pkt : Pkt) (run : Run)
    → SameRx fs run.fs
    → run.rx_bump ≡ 0
    → RxInv fs
    → Received fs (ack_in_sequence pkt run)
unfolding ack_in_sequence ack_fin want_ack
ack_in_sequence-Received fs pkt run s z v = ground arith

pub ack_body-Received :
    (fs : FlowState) (pkt : Pkt) (out : Result) → RxInv fs → Received fs (ack_body pkt fs out)
unfolding ack_body want_ack unchanged ack_duplicate ack_taken advance_ack flows_reset_retransmit
ack_body-Received fs pkt out v = elim (Option-cases (tcp_valid_rxack fs pkt.ack)) [
  | inl e ↦ ground (
    arith,
    keep-RxStep fs v,
    ack_in_sequence-Received fs pkt (unchanged fs out) (ground arith) refl v,
  )
  | inr (bump, e) ↦ ground (
    arith,
    keep-RxStep fs v,
    ack_in_sequence-Received fs pkt (ack_taken fs out bump) (ground arith) refl v,
    ack_in_sequence-Received fs pkt
        (unchanged (record fs { dupack_cnt = (fs.dupack_cnt + 1) % 2 ^ 16 }) out) (ground arith)
        refl v,
  )
]

pub ack_in_sequence-rx_bump :
    (pkt : Pkt) (run : Run) → (ack_in_sequence pkt run).rx_bump ≡ run.rx_bump
unfolding ack_in_sequence ack_fin want_ack
ack_in_sequence-rx_bump pkt run = ground arith

pub ack_body-rx_bump :
    (fs : FlowState) (pkt : Pkt) (out : Result) → (ack_body pkt fs out).rx_bump ≡ 0
unfolding ack_body want_ack unchanged ack_duplicate ack_taken
ack_body-rx_bump fs pkt out = grind (arith, ack_in_sequence-rx_bump)

-- A segment without payload delivers nothing, and moves the receive side at most over its FIN.
pub flows_ack-RxStep :
    (w : WorkIo) (pkt : Pkt) (fs : FlowState) (r : Result)
    → RxInv fs
    → let (fs', out) = flows_ack w pkt fs r in RxStep fs fs' 0 × (out.ac_rx_bump ≡ 0)
unfolding flows_ack ack_reply reply finish
flows_ack-RxStep w pkt fs r v =
    let z = ack_body-rx_bump fs pkt (ack_start w r) in
    ground (arith, ack_body-Received fs pkt (ack_start w r) v, z)

pub flows_tx-SameRx : (w : WorkIo) (fs : FlowState) (r : Result) → SameRx fs (flows_tx w fs r).0
unfolding flows_tx sent_more
flows_tx-SameRx w fs r = ground arith

pub flows_tx-RxInv :
    (w : WorkIo) (fs : FlowState) (r : Result) → RxInv fs → RxInv (flows_tx w fs r).0
flows_tx-RxInv w fs r v = SameRx-RxInv (flows_tx-SameRx w fs r) v

pub flows_retx-RxInv :
    (flow_id : ℕ) (fs : FlowState) (r : Result) → RxInv fs → RxInv (flows_retx flow_id fs r).0
unfolding flows_retx flows_reset_retransmit
flows_retx-RxInv flow_id fs r v = ground arith

pub flows_ac-RxInv :
    (w : WorkAc) (fs : FlowState) (r : Result)
    → RxInv fs
    → fs.rx_avail + w.rx_bump ≤ fs.rx_len
    → RxInv (flows_ac w fs r).0
unfolding flows_ac host_update
flows_ac-RxInv w fs r v h = ground arith
