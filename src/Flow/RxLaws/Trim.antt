-- ===== src/Flow/RxLaws/Trim.antt =====
-- What `tcp_trim_rxbuf` of firmware/flows.c leaves of a segment, and of the out-of-order interval.
use flex_toe.Prelude.{ℕ, ◌+◌, ◌-◌, ◌<◌, ◌^◌, ◌≡◌, ◌≤◌, arith, none, some}
use flex_toe.Prelude.Words.{add32, sub32, u32_mod}
use flex_toe.Flow.Checks.{Trim, tcp_trim_rxbuf}
use flex_toe.Flow.Inv.{RxInv, ooo_ahead}
use flex_toe.Flow.Seg.{deliver}
use flex_toe.Flow.State.{FlowState}

-- What is left of a segment lies within the receive window.
pub record Fits (fs : FlowState) (seq plen : ℕ) (t : Trim) : Type 0 where
  pub trimmed : t.trim_start + t.trim_end ≤ plen
  pub inside :
      sub32 (add32 seq t.trim_start) fs.rx_next_seq + (plen - (t.trim_start + t.trim_end))
      ≤ fs.rx_avail

pub trim_rxbuf-Fits :
    (fs : FlowState) (seq plen : ℕ) (t : Trim)
    → RxInv fs
    → seq < u32_mod
    → plen < 2 ^ 31
    → tcp_trim_rxbuf fs seq plen ≡ some t
    → Fits fs seq plen t
unfolding tcp_trim_rxbuf
trim_rxbuf-Fits fs seq plen t v h k e = ground arith

-- The out-of-order interval after `bytes` bytes are delivered: ahead, reached, or passed.
pub trim-before :
    (fs : FlowState) (bytes : ℕ)
    → RxInv fs
    → ooo_ahead fs + fs.rx_ooo_len ≤ fs.rx_avail
    → 0 < fs.rx_ooo_len
    → bytes < ooo_ahead fs
    → tcp_trim_rxbuf (deliver fs bytes) fs.rx_ooo_start fs.rx_ooo_len
      ≡ some (record { trim_start = 0; trim_end = 0 })
unfolding tcp_trim_rxbuf deliver
trim-before fs bytes v i p h = ground arith

pub trim-reached :
    (fs : FlowState) (bytes : ℕ)
    → RxInv fs
    → ooo_ahead fs + fs.rx_ooo_len ≤ fs.rx_avail
    → ooo_ahead fs ≤ bytes
    → bytes ≤ ooo_ahead fs + fs.rx_ooo_len
    → tcp_trim_rxbuf (deliver fs bytes) fs.rx_ooo_start fs.rx_ooo_len
      ≡ some (record { trim_start = bytes - ooo_ahead fs; trim_end = 0 })
unfolding tcp_trim_rxbuf deliver
trim-reached fs bytes v i p h = ground arith

pub trim-passed :
    (fs : FlowState) (bytes : ℕ)
    → RxInv fs
    → ooo_ahead fs + fs.rx_ooo_len ≤ fs.rx_avail
    → ooo_ahead fs + fs.rx_ooo_len < bytes
    → bytes ≤ fs.rx_avail
    → tcp_trim_rxbuf (deliver fs bytes) fs.rx_ooo_start fs.rx_ooo_len ≡ none
unfolding tcp_trim_rxbuf deliver
trim-passed fs bytes v i p h = ground arith
