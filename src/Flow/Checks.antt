-- ===== src/Flow/Checks.antt =====
-- The tests of firmware/flows.c on sequence numbers and windows.
use flex_toe.Prelude.{if◌then◌else◌, ℕ, Bool, Option, leb, ltb, min, none, not, some}
use flex_toe.Prelude.Words.{add32, sub32}
use flex_toe.Flow.State.{FlowState}

-- Bytes that may be sent once `bump` more are in the send buffer.
unfoldable pub tcp_txavail : FlowState → ℕ → ℕ
tcp_txavail fs bump = min (add32 bump fs.tx_avail) (sub32 fs.tx_remote_avail fs.tx_sent)

-- The number of bytes that an acknowledgement covers, if it is acceptable. As configured
-- (`ALLOW_FUTURE_ACKS`), it may cover bytes that were queued and not sent.
unfoldable pub tcp_valid_rxack : FlowState → ℕ → Option ℕ
tcp_valid_rxack fs ack =
    let next_ack = sub32 fs.tx_next_seq fs.tx_sent in
    let tx_sent = add32 fs.tx_sent fs.tx_avail in
    let hole = sub32 ack next_ack in if ltb tx_sent hole then none else some hole

-- `true` for the C result 0.
unfoldable pub tcp_rxseq_inwindow : FlowState → ℕ → Bool
tcp_rxseq_inwindow fs pkt_seq = not (ltb fs.rx_avail (sub32 pkt_seq fs.rx_next_seq))

pub record Trim : Type 0 where
  pub trim_start : ℕ
  pub trim_end : ℕ

-- What to cut off a segment so that the rest fits the receive buffer; `none` to drop it.
unfoldable pub tcp_trim_rxbuf : FlowState → ℕ → ℕ → Option Trim
tcp_trim_rxbuf fs pkt_seq pkt_bytes =
    let avail = fs.rx_avail in
    let trim = sub32 fs.rx_next_seq pkt_seq in
    let rest = sub32 pkt_bytes trim in
    let ahead = sub32 0 trim in
    let room = sub32 avail ahead in
    if leb trim pkt_bytes
    then some
        (record { trim_start = trim; trim_end = if leb rest avail then 0 else sub32 rest avail })
    else if leb avail ahead
    then none
    else some (record {
      trim_start = 0;
      trim_end = if leb pkt_bytes room then 0 else sub32 pkt_bytes room;
    })
