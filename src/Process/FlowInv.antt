-- ===== src/Process/FlowInv.antt =====
-- The invariant of a flow and the handlers that firmware/process.c calls.
use flex_toe.Prelude.{ℕ, ◌%◌, ◌+◌, ◌-◌, ◌<◌, ◌==◌, ◌^◌, ◌≡◌, ◌≢◌, ◌≤◌, Bool-cases, arith, inl, inr}
use flex_toe.Prelude.Words.{u32_mod}
use flex_toe.Flow.Inv.{RxInv, TxInv}
use flex_toe.Flow.RxLaws.Ack.{flows_ac-RxInv, flows_ack-RxStep, flows_retx-RxInv, flows_tx-RxInv}
use flex_toe.Flow.RxLaws.Seg.{flows_seg-RxStep}
use flex_toe.Flow.State.{FlowState, Pkt, Result, Work}
use flex_toe.Flow.TxLaws.Ack.{flows_ack-TxStep}
use flex_toe.Flow.TxLaws.Host.{flows_ac-bytes, flows_retx-TxStep, flows_tx-TxStep}
use flex_toe.Flow.TxLaws.Seg.{flows_seg-TxStep}
use flex_toe.Process.{Cache, dispatch, fetch, handle_miss, init_caches, numbered}

pub record FlowInv (fs : FlowState) : Type 0 where
  pub send : TxInv fs
  pub receive : RxInv fs

-- What a work item may say of a flow: numbers of a packet fit their fields, and the host hands
-- over no more than its buffers hold.
abbrev pub Allowed : Work → Pkt → FlowState → Type 0
Allowed (Work.rx w) pkt fs = (w.plen < 2 ^ 11) × (pkt.seq < u32_mod) × (pkt.win < u32_mod)
Allowed (Work.tx w) pkt fs = Unit {0}
Allowed (Work.ac w) pkt fs =
    (fs.tx_avail + fs.tx_sent + w.tx_bump ≤ fs.tx_len) × (fs.rx_avail + w.rx_bump ≤ fs.rx_len)
Allowed (Work.retx flow_id) pkt fs = Unit {0}

-- Whatever the work item, the handler leaves the flow with its invariant: queued and unacknowledged
-- bytes within the send buffer, the receive window within its buffer, the out-of-order interval
-- ahead of the next expected byte and within the window. The item's numbers fit their fields, and
-- an update from the host stays within the buffers.
pub dispatch-FlowInv :
    (work : Work) (pkt : Pkt) (seq : ℕ) (fs : FlowState) (r : Result)
    → FlowInv fs
    → Allowed work pkt fs
    → FlowInv (dispatch work pkt seq fs r).0
unfolding dispatch
dispatch-FlowInv (Work.rx w) pkt seq fs r v a = elim (Bool-cases (w.plen == 0)) [
  | inl y ↦
      rw (y, dispatch)
        (record {
          send = (flows_ack-TxStep (numbered seq w) pkt fs r a.2 v.send).1.inv;
          receive = (flows_ack-RxStep (numbered seq w) pkt fs r v.receive).0.inv;
        })
  | inr y ↦
      rw (y, dispatch)
        (record {
          send = (flows_seg-TxStep (numbered seq w) pkt fs r a.2 v.send).inv;
          receive = (flows_seg-RxStep (numbered seq w) pkt fs r a.1 a.0 v.receive).inv;
        })
]
dispatch-FlowInv (Work.tx w) pkt seq fs r v a = record {
  send = (flows_tx-TxStep (numbered seq w) fs r v.send).inv;
  receive = flows_tx-RxInv (numbered seq w) fs r v.receive;
}
dispatch-FlowInv (Work.ac w) pkt seq fs r v a = record {
  send = (flows_ac-bytes w fs r v.send a.0).0;
  receive = flows_ac-RxInv w fs r v.receive a.1;
}
dispatch-FlowInv (Work.retx flow_id) pkt seq fs r v a = record {
  send = (flows_retx-TxStep flow_id fs r v.send).0.inv;
  receive = flows_retx-RxInv flow_id fs r v.receive;
}

-- `FLEXNIC_PL_FLOWST_NUM`, the length of the array of flow states in EMEM.
abbrev flowst_num : ℕ
flowst_num = 16384

-- An entry of LM starts with a tag that is no flow's number. When a flow of the same CLS slot is
-- the entry's first and another flow its second, the second miss writes the entry's first contents
-- to EMEM under that tag, beyond the end of the array of flow states.
pub handle_miss-stray_write :
    (c : Cache) (e first second : ℕ)
    → e < 16
    → first < 2 ^ 16
    → second < 2 ^ 16
    → first ≢ 0
    → second ≢ first
    → first % 512 ≡ 511 - e
    → let c' = handle_miss e second (handle_miss e first (init_caches c)) in
      (c'.emem (2 ^ 32 - 1 - e) ≡ c.lm e) × (flowst_num ≤ 2 ^ 32 - 1 - e)
unfolding handle_miss fetch init_caches
handle_miss-stray_write c e first second h f g z n s = ground arith
