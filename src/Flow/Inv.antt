-- ===== src/Flow/Inv.antt =====
-- What holds of a flow between two handlers of firmware/flows.c, and what one handler may do to
-- the send side and to the receive side.
use flex_toe.Prelude.{if◌then◌else◌, ℕ, ◌&&◌, ◌+◌, ◌<◌, ◌^◌, ◌≡◌, ◌≤◌, ◌⊎◌, not}
use flex_toe.Prelude.Words.{add32, sub32, u32_mod}
use flex_toe.Flow.State.{FlowState}

-- The send side: words in range, and the bytes queued and in flight fit the send buffer.
pub record TxInv (fs : FlowState) : Type 0 where
  pub seq_word : fs.tx_next_seq < u32_mod
  pub pos_word : fs.tx_next_pos < u32_mod
  pub window_word : fs.tx_remote_avail < u32_mod
  pub fits : fs.tx_avail + fs.tx_sent ≤ fs.tx_len
  pub small : fs.tx_len < 2 ^ 31

-- The first unacknowledged sequence number.
abbrev pub snd_una : FlowState → ℕ
snd_una fs = sub32 fs.tx_next_seq fs.tx_sent

-- Where in the send buffer sequence number 0 would lie.
abbrev pub tx_origin : FlowState → ℕ
tx_origin fs = sub32 fs.tx_next_pos fs.tx_next_seq

-- A step of the send side that acknowledges `acked` bytes.
pub record TxStep (fs fs' : FlowState) (acked : ℕ) : Type 0 where
  pub inv : TxInv fs'
  pub bytes : fs'.tx_avail + fs'.tx_sent + acked ≡ fs.tx_avail + fs.tx_sent
  pub una : snd_una fs' ≡ add32 (snd_una fs) acked
  pub origin : tx_origin fs' ≡ tx_origin fs
  pub length_kept : fs'.tx_len ≡ fs.tx_len

-- How far the out-of-order interval lies ahead of the next expected byte.
abbrev pub ooo_ahead : FlowState → ℕ
ooo_ahead fs = sub32 fs.rx_ooo_start fs.rx_next_seq

-- The receive side: words in range, the window within the buffer, and the out-of-order interval
-- strictly ahead of the next expected byte and within the window.
pub record RxInv (fs : FlowState) : Type 0 where
  pub seq_word : fs.rx_next_seq < u32_mod
  pub pos_word : fs.rx_next_pos < u32_mod
  pub start_word : fs.rx_ooo_start < u32_mod
  pub fits : fs.rx_avail ≤ fs.rx_len
  pub small : fs.rx_len < 2 ^ 31
  pub interval :
      (fs.rx_ooo_len ≡ 0) ⊎ ((0 < ooo_ahead fs) × (ooo_ahead fs + fs.rx_ooo_len ≤ fs.rx_avail))

-- The sequence number that a FIN takes up, in the step that accepts it.
abbrev pub fin_taken : FlowState → FlowState → ℕ
fin_taken fs fs' = if fs'.flags.rxfin && not fs.flags.rxfin then 1 else 0

-- A step of the receive side that delivers `bytes` bytes to the application.
pub record RxStep (fs fs' : FlowState) (bytes : ℕ) : Type 0 where
  pub inv : RxInv fs'
  pub room : fs'.rx_avail + bytes ≡ fs.rx_avail
  pub seq : fs'.rx_next_seq ≡ add32 fs.rx_next_seq (bytes + fin_taken fs fs')
  pub pos : fs'.rx_next_pos ≡ add32 fs.rx_next_pos bytes
  pub length_kept : fs'.rx_len ≡ fs.rx_len
