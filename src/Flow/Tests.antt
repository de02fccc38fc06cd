-- ===== src/Flow/Tests.antt =====
-- Runs of the handlers of firmware/flows.c on concrete flows, and the theorems at them.
use flex_toe.Prelude.{◌≡◌, arith, false, refl, true}
use flex_toe.Flow.Ack.{
  ack_body, ack_duplicate, ack_start, ack_taken, advance_ack, finish, flows_ack, reply, unchanged,
}
use flex_toe.Flow.Checks.{tcp_rxseq_inwindow, tcp_trim_rxbuf, tcp_txavail, tcp_valid_rxack}
use flex_toe.Flow.Inv.{RxInv, RxStep, TxInv, TxStep}
use flex_toe.Flow.Limits.{flows_tx-amount, flows_tx-past_window}
use flex_toe.Flow.Placement.{Placed, flows_seg-Placed}
use flex_toe.Flow.RxLaws.Seg.{flows_seg-RxStep}
use flex_toe.Flow.Seg.{
  catch_up, copy_payload, deliver, flows_seg, merge_interval, seg_ack, seg_body, seg_fin,
  seg_in_sequence, seg_payload, seg_start, seg_trimmed, trim_interval,
}
use flex_toe.Flow.Send.{bump_qm, flows_reset_retransmit, flows_tx}
use flex_toe.Flow.State.{FlowFlags, FlowState, Pkt, Result, Work, WorkIo, no_flags}
use flex_toe.Flow.TxLaws.Ack.{flows_ack-TxStep, newly_acked}

abbrev pub plain_flags : FlowFlags
plain_flags = record { ecn = false; txfin = false; slowpath = false; rxfin = false }

-- 1000 bytes in flight and 3000 queued; 500 bytes held 1000 bytes ahead.
abbrev pub sample : FlowState
sample = record {
  tx_len = 8192;
  tx_avail = 3000;
  tx_remote_avail = 5000;
  tx_sent = 1000;
  tx_next_seq = 5000;
  tx_next_pos = 200;
  tx_next_ts = 7;
  flags = plain_flags;
  dupack_cnt = 2;
  rx_len = 8192;
  rx_avail = 4000;
  rx_next_seq = 1000;
  rx_next_pos = 50;
  rx_ooo_len = 500;
  rx_ooo_start = 2000;
}

abbrev pub item : WorkIo
item = record { flow_id = 3; seq = 0; force = false; plen = 1000 }

abbrev pub empty_item : WorkIo
empty_item = record { flow_id = 3; seq = 0; force = false; plen = 0 }

-- The next expected byte, and an acknowledgement of half of what is in flight.
abbrev pub pkt : Pkt
pkt = record {
  seq = 1000;
  ack = 4500;
  ecn = false;
  fin = false;
  ece = false;
  win = 6000;
  ts_val = 9;
  ts_ecr = 8;
}

abbrev pub no_result : Result
no_result = record {
  work = Work.retx 0;
  seq = 0;
  ack = 0;
  win = 0;
  ts_val = 0;
  ts_ecr = 0;
  qm_bump = 0;
  dma_pos = 0;
  dma_len = 0;
  dma_offset = 0;
  ac_rx_bump = 0;
  ac_tx_bump = 0;
  flags = no_flags;
}

pub sample-TxInv : TxInv sample
sample-TxInv = omega arith

pub sample-RxInv : RxInv sample
sample-RxInv = ground arith

-- The segment fills the gap: 1000 bytes of its own and the 500 held.
segment_fills_gap :
    let (fs, out) = flows_seg item pkt sample no_result in
    (out.ac_rx_bump ≡ 1500)
    × (out.ac_tx_bump ≡ 500)
    × (fs.rx_next_seq ≡ 2500)
    × (fs.rx_ooo_len ≡ 0)
    × (out.dma_pos ≡ 50)
unfolding flows_seg seg_body seg_trimmed seg_in_sequence seg_payload seg_fin catch_up merge_interval
    trim_interval deliver copy_payload seg_ack seg_start tcp_trim_rxbuf tcp_valid_rxack ack_taken
    advance_ack unchanged finish reply bump_qm tcp_txavail
segment_fills_gap = (refl, refl, refl, refl, refl)

-- The third duplicate acknowledgement puts the bytes in flight back into the queue.
third_duplicate :
    let fs = (flows_ack empty_item (record pkt { ack = 4000 }) sample no_result).0 in
    (fs.tx_sent ≡ 0) × (fs.tx_avail ≡ 4000) × (fs.tx_next_seq ≡ 4000)
unfolding flows_ack ack_body ack_duplicate ack_start tcp_rxseq_inwindow tcp_valid_rxack unchanged
    flows_reset_retransmit finish
third_duplicate = (refl, refl, refl)

flows_seg-RxStep_example :
    let (fs, out) = flows_seg item pkt sample no_result in RxStep sample fs out.ac_rx_bump
flows_seg-RxStep_example =
    flows_seg-RxStep item pkt sample no_result (omega arith) (omega arith) sample-RxInv

flows_seg-Placed_example :
    let out = (flows_seg item pkt sample no_result).1 in
    Placed sample 1000 1000 out.dma_pos out.dma_len out.dma_offset
unfolding flows_seg seg_body seg_trimmed seg_in_sequence seg_payload seg_fin catch_up merge_interval
    trim_interval deliver copy_payload seg_ack seg_start tcp_trim_rxbuf tcp_valid_rxack ack_taken
    advance_ack unchanged finish reply bump_qm tcp_txavail
flows_seg-Placed_example =
    flows_seg-Placed item pkt sample no_result sample-RxInv (omega arith) (omega arith) refl

flows_ack-TxStep_example :
    let (fs, out) = flows_ack empty_item pkt sample no_result in
    (out.ac_tx_bump ≡ newly_acked sample pkt) × TxStep sample fs out.ac_tx_bump
flows_ack-TxStep_example =
    flows_ack-TxStep empty_item pkt sample no_result (omega arith) sample-TxInv

flows_tx-amount_example :
    (tcp_txavail sample 0 ≡ 3000) × ((flows_tx item sample no_result).0.tx_sent ≡ 2448)
flows_tx-amount_example = flows_tx-amount item sample no_result sample-TxInv (omega arith)

-- The peer shrinks its window to 600 bytes with 1000 in flight.
abbrev shrunk : FlowState
shrunk = record sample { tx_remote_avail = 600 }

flows_tx-past_window_example : (flows_tx item shrunk no_result).0.tx_sent ≡ 2448
flows_tx-past_window_example =
    flows_tx-past_window item shrunk no_result (omega arith) (omega arith)

-- Everything is sent and the host has closed the connection.
abbrev closing : FlowState
closing = record sample { tx_avail = 0; flags = record plain_flags { txfin = true } }
