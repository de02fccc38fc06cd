-- ===== src/Flow/TxLaws/Host.antt =====
-- The send side of the handlers of firmware/flows.c that no packet triggers.
use flex_toe.Prelude.{ℕ, ◌+◌, ◌≡◌, ◌≤◌, arith, refl}
use flex_toe.Flow.Checks.{tcp_txavail}
use flex_toe.Flow.Inv.{TxInv, TxStep, snd_una}
use flex_toe.Flow.Send.{
  flows_ac, flows_reset_retransmit, flows_retx, flows_tx, host_update, sent_more,
}
use flex_toe.Flow.State.{FlowState, Result, WorkAc, WorkIo}
use flex_toe.Flow.TxLaws.Ack.{reset-TxStep}

-- A retransmission request puts every unacknowledged byte back before the send point.
pub flows_retx-TxStep :
    (flow_id : ℕ) (fs : FlowState) (r : Result)
    → TxInv fs
    → let fs' = (flows_retx flow_id fs r).0 in
      TxStep fs fs' 0 × (fs'.tx_sent ≡ 0) × (fs'.tx_next_seq ≡ snd_una fs)
unfolding flows_retx flows_reset_retransmit
flows_retx-TxStep flow_id fs r v = (unfold flows_reset_retransmit in reset-TxStep fs v, refl, refl)

-- A transmission moves bytes from the queue into flight.
pub flows_tx-TxStep :
    (w : WorkIo) (fs : FlowState) (r : Result) → TxInv fs → TxStep fs (flows_tx w fs r).0 0
unfolding flows_tx sent_more tcp_txavail
flows_tx-TxStep w fs r v = ground arith

pub flows_ac-bytes :
    (w : WorkAc) (fs : FlowState) (r : Result)
    → TxInv fs
    → fs.tx_avail + fs.tx_sent + w.tx_bump ≤ fs.tx_len
    → let fs' = (flows_ac w fs r).0 in
      TxInv fs' × (fs'.tx_avail ≡ fs.tx_avail + w.tx_bump) × (fs'.tx_sent ≡ fs.tx_sent)
unfolding flows_ac host_update
flows_ac-bytes w fs r v h = ground arith
