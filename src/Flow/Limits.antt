-- ===== src/Flow/Limits.antt =====
-- What `flows_tx` of firmware/flows.c does at the edges: a closed window, and the end of a stream.
use flex_toe.Prelude.{◌+◌, ◌-◌, ◌<◌, ◌^◌, ◌≡◌, ◌≤◌, arith, min, true}
use flex_toe.Flow.Checks.{tcp_txavail}
use flex_toe.Flow.Inv.{TxInv}
use flex_toe.Flow.Send.{flows_tx, sent_more, tcp_mss, tx_result}
use flex_toe.Flow.State.{FlowState, Result, WorkIo}

-- Within the remote window, what may be sent is the smaller of the queued bytes and the room left
-- in that window, and one transmission takes at most one segment of it.
pub flows_tx-amount :
    (w : WorkIo) (fs : FlowState) (r : Result)
    → TxInv fs
    → fs.tx_sent ≤ fs.tx_remote_avail
    → (tcp_txavail fs 0 ≡ min fs.tx_avail (fs.tx_remote_avail - fs.tx_sent))
      × ((flows_tx w fs r).0.tx_sent
          ≡ fs.tx_sent + min (min fs.tx_avail (fs.tx_remote_avail - fs.tx_sent)) tcp_mss)
unfolding flows_tx sent_more tcp_txavail
flows_tx-amount w fs r v h = ground arith

-- When the peer has shrunk its window below what is in flight, the room left wraps round, and the
-- flow sends from its queue as if no window were there.
pub flows_tx-past_window :
    (w : WorkIo) (fs : FlowState) (r : Result)
    → TxInv fs
    → fs.tx_remote_avail < fs.tx_sent
    → (flows_tx w fs r).0.tx_sent ≡ fs.tx_sent + min fs.tx_avail tcp_mss
unfolding flows_tx sent_more tcp_txavail
flows_tx-past_window w fs r v h = ground arith

-- A segment is flagged as the last one only on a forced transmission that carries nothing, and its
-- copy length is then 65535 bytes. So a transmission that empties the queue never carries the FIN.
pub flows_tx-fin :
    (w : WorkIo) (fs : FlowState) (r : Result)
    → TxInv fs
    → fs.tx_sent ≤ fs.tx_remote_avail
    → (flows_tx w fs r).1.flags.fin ≡ true
    → (w.force ≡ true)
      × ((flows_tx w fs r).0.tx_sent ≡ fs.tx_sent)
      × ((flows_tx w fs r).1.dma_len ≡ 2 ^ 16 - 1)
unfolding flows_tx sent_more tx_result tcp_txavail
flows_tx-fin w fs r v h e = ground arith
