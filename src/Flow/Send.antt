-- ===== src/Flow/Send.antt =====
-- The handlers of firmware/flows.c that no packet triggers: transmission, updates from the host,
-- and retransmission.
use flex_toe.Prelude.{if◌then◌else◌, ℕ, ◌&&◌, ◌==◌, ltb, min, not, true}
use flex_toe.Prelude.Words.{add32, sub32}
use flex_toe.Flow.Checks.{tcp_txavail}
use flex_toe.Flow.State.{FlowState, Result, Work, WorkAc, WorkIo, no_flags, set_dma}

-- `TCP_MSS` of firmware/config.h.
abbrev pub tcp_mss : ℕ
tcp_mss = 1448

-- The state after `payload_len` bytes are handed to the network.
unfoldable pub sent_more : FlowState → ℕ → FlowState
sent_more fs payload_len = record fs {
  tx_next_seq = add32 fs.tx_next_seq payload_len;
  tx_next_pos = add32 fs.tx_next_pos payload_len;
  tx_sent = add32 fs.tx_sent payload_len;
  tx_avail = sub32 fs.tx_avail payload_len;
}

-- The segment that announces `payload_len` bytes. As in the source, the test for the end of the
-- stream reads `tx_avail` before these bytes are taken off.
unfoldable pub tx_result : WorkIo → FlowState → Result → ℕ → Result
tx_result w fs r payload_len =
    let fin = fs.flags.txfin && (fs.tx_avail == 0) in
    let out = record r {
      work = Work.tx w;
      seq = fs.tx_next_seq;
      ack = fs.rx_next_seq;
      win = fs.rx_avail;
      ts_ecr = fs.tx_next_ts;
      flags = record no_flags { tx = true; dma_payload = true; fin = fin };
    } in
    set_dma out fs.tx_next_pos (if fin then sub32 payload_len 1 else payload_len) 0

unfoldable pub flows_tx : WorkIo → FlowState → Result → FlowState × Result
flows_tx w fs r =
    let avail = tcp_txavail fs 0 in
    let payload_len = min avail tcp_mss in
    if (avail == 0) && not w.force
    then (fs, record r { work = Work.tx w; flags = no_flags })
    else (sent_more fs payload_len, tx_result w fs r payload_len)

-- `WORK_RESULT_QM` and its bump, when the bytes that may be sent have grown. The flags so far are
-- those of the result.
unfoldable pub bump_qm : ℕ → ℕ → Result → Result
bump_qm old_avail new_avail r =
    if ltb old_avail new_avail
    then record r { qm_bump = sub32 new_avail old_avail; flags = record (r.flags) { qm = true } }
    else r

-- The state after the host has given `tx_bump` bytes to send and freed `rx_bump` bytes.
unfoldable pub host_update : WorkAc → FlowState → FlowState
host_update w fs = record fs {
  flags = if w.fin then record (fs.flags) { txfin = true } else fs.flags;
  rx_avail = add32 fs.rx_avail w.rx_bump;
  tx_avail = add32 fs.tx_avail w.tx_bump;
}

unfoldable pub flows_ac : WorkAc → FlowState → Result → FlowState × Result
flows_ac w fs r =
    let old_avail = tcp_txavail fs 0 in
    let new_avail = tcp_txavail fs w.tx_bump in
    let fs' = host_update w fs in
    let window_opened = (new_avail == 0) && ((fs.rx_avail == 0) && not (fs'.rx_avail == 0)) in
    let out = bump_qm old_avail new_avail (record r { work = Work.ac w; flags = no_flags }) in
    (fs', record out { flags = record (out.flags) { qm_force = window_opened } })

-- As if the unacknowledged bytes had never been sent.
unfoldable pub flows_reset_retransmit : FlowState → FlowState
flows_reset_retransmit fs =
    let x = fs.tx_sent in
    record fs {
      dupack_cnt = 0;
      tx_avail = add32 fs.tx_avail x;
      tx_remote_avail = add32 fs.tx_remote_avail x;
      tx_next_seq = sub32 fs.tx_next_seq x;
      tx_next_pos = sub32 fs.tx_next_pos x;
      tx_sent = 0;
    }

unfoldable pub flows_retx : ℕ → FlowState → Result → FlowState × Result
flows_retx flow_id fs r =
    let fs' = flows_reset_retransmit fs in
    (
      fs',
      bump_qm (tcp_txavail fs 0) (tcp_txavail fs' 0)
          (record r { work = Work.retx flow_id; flags = no_flags }),
    )
