-- ===== src/Flow/RxLaws/Seg.antt =====
-- The receive side of `flows_seg` of firmware/flows.c.
use flex_toe.Prelude.{
  ℕ, ◌+◌, ◌<◌, ◌==◌, ◌^◌, ◌≡◌, ◌≢◌, ◌≤◌, Bool-cases, Option-cases, arith, inl, inr,
}
use flex_toe.Prelude.Words.{add32, sub32, u32_mod}
use flex_toe.Flow.Ack.{Run, ack_taken, advance_ack, finish, reply, unchanged}
use flex_toe.Flow.Checks.{Trim, tcp_trim_rxbuf}
use flex_toe.Flow.Inv.{RxInv, RxStep}
use flex_toe.Flow.RxLaws.CatchUp.{Received, catch_up-Received, catch_up-flags}
use flex_toe.Flow.RxLaws.Trim.{Fits, trim_rxbuf-Fits}
use flex_toe.Flow.Seg.{
  deliver, flows_seg, seg_ack, seg_body, seg_fin, seg_in_sequence, seg_out_of_order, seg_payload,
  seg_start, seg_trimmed,
}
use flex_toe.Flow.State.{FlowState, Pkt, Result, WorkIo}

-- A handler's run that received bytes and has not looked at a FIN.
pub record Open (fs : FlowState) (run : Run) : Type 0 where
  pub step : RxStep fs run.fs run.rx_bump
  pub flags : run.fs.flags ≡ fs.flags

pub keep-RxStep : (fs : FlowState) → RxInv fs → RxStep fs fs 0
keep-RxStep fs v = ground arith

pub seg_payload-Open :
    (bytes start : ℕ) (run : Run)
    → RxInv run.fs
    → run.rx_bump ≡ 0
    → bytes ≤ run.fs.rx_avail
    → Open run.fs (seg_payload bytes start run)
unfolding seg_payload deliver
seg_payload-Open bytes start run v z h = elim (Bool-cases (bytes == 0)) [
  | inl y ↦ ground (arith, keep-RxStep run.fs v)
  | inr y ↦
      rw (y, seg_payload)
        (record {
          step = catch_up-Received run.fs bytes _ run.tx_bump v h;
          flags = catch_up-flags _;
        })
]

pub seg_fin-Received :
    (fs : FlowState) (pkt : Pkt) (plen : ℕ) (run : Run)
    → Open fs run
    → Received fs (seg_fin pkt plen run)
unfolding seg_fin
seg_fin-Received fs pkt plen run o = ground arith

pub seg_out_of_order-Received :
    (fs : FlowState) (seq bytes start : ℕ) (run : Run)
    → RxInv run.fs
    → Received fs run
    → seq < u32_mod
    → seq ≢ run.fs.rx_next_seq
    → sub32 seq run.fs.rx_next_seq + bytes ≤ run.fs.rx_avail
    → Received fs (seg_out_of_order seq bytes start run)
unfolding seg_out_of_order
seg_out_of_order-Received fs seq bytes start run v a w n h = ground arith

pub seg_in_sequence-Received :
    (pkt : Pkt) (plen bytes start : ℕ) (run : Run)
    → RxInv run.fs
    → run.rx_bump ≡ 0
    → bytes ≤ run.fs.rx_avail
    → Received run.fs (seg_in_sequence pkt plen bytes start run)
unfolding seg_in_sequence
seg_in_sequence-Received pkt plen bytes start run v z h =
    let fs' = record (run.fs) { tx_next_ts = pkt.ts_val; tx_remote_avail = pkt.win } in
    let run' = record run { fs = fs' } in
    ground (
      arith,
      keep-RxStep run.fs v,
      seg_fin-Received fs' pkt plen (seg_payload bytes start run')
          (seg_payload-Open bytes start run' (ground arith) z h),
    )

-- What the acknowledgement of a segment leaves of the receive side.
pub record SameRx (fs fs' : FlowState) : Type 0 where
  pub avail : fs'.rx_avail ≡ fs.rx_avail
  pub len : fs'.rx_len ≡ fs.rx_len
  pub seq : fs'.rx_next_seq ≡ fs.rx_next_seq
  pub pos : fs'.rx_next_pos ≡ fs.rx_next_pos
  pub ooo_len : fs'.rx_ooo_len ≡ fs.rx_ooo_len
  pub ooo_start : fs'.rx_ooo_start ≡ fs.rx_ooo_start
  pub flags : fs'.flags ≡ fs.flags

pub seg_ack-SameRx :
    (pkt : Pkt) (fs : FlowState) (out : Result)
    → SameRx fs (seg_ack pkt fs out).fs × ((seg_ack pkt fs out).rx_bump ≡ 0)
unfolding seg_ack unchanged ack_taken advance_ack
seg_ack-SameRx pkt fs out = ground arith

pub SameRx-RxInv : {fs fs' : FlowState} → SameRx fs fs' → RxInv fs → RxInv fs'
SameRx-RxInv s v = ground arith

pub SameRx-RxStep :
    {fs fs' gs : FlowState} {n : ℕ} → SameRx fs fs' → RxStep fs' gs n → RxStep fs gs n
SameRx-RxStep s v = ground arith

pub seg_trimmed-Received :
    (fs : FlowState) (pkt : Pkt) (plen : ℕ) (t : Trim) (run : Run)
    → RxInv fs
    → SameRx fs run.fs
    → run.rx_bump ≡ 0
    → plen < 2 ^ 31
    → Fits fs pkt.seq plen t
    → Received run.fs (seg_trimmed pkt plen t run)
unfolding seg_trimmed
seg_trimmed-Received fs pkt plen t run v s z small f =
    let bytes = sub32 plen (add32 t.trim_start t.trim_end) in
    let at = add32 pkt.seq t.trim_start in
    ground (
      arith,
      SameRx-RxInv s v,
      keep-RxStep run.fs (SameRx-RxInv s v),
      seg_in_sequence-Received pkt plen bytes t.trim_start run (SameRx-RxInv s v) z,
      seg_out_of_order-Received run.fs at bytes t.trim_start run (SameRx-RxInv s v),
    )

pub seg_body-Received :
    (fs : FlowState) (pkt : Pkt) (plen : ℕ) (out : Result)
    → RxInv fs
    → pkt.seq < u32_mod
    → plen < 2 ^ 31
    → Received fs (seg_body pkt plen fs out)
unfolding seg_body unchanged
seg_body-Received fs pkt plen out v h k = elim (Option-cases (tcp_trim_rxbuf fs pkt.seq plen)) [
  | inl e ↦ rw (e, seg_body) (keep-RxStep fs v)
  | inr (t, e) ↦
      let s = seg_ack-SameRx pkt fs out in
      rw (e, seg_body)
        (SameRx-RxStep s.0 (
          seg_trimmed-Received fs pkt plen t (seg_ack pkt fs out) v s.0 s.1 k
            (trim_rxbuf-Fits fs pkt.seq plen t v h k e)))
]

-- A segment with payload: with `ac_rx_bump` the bytes handed to the application, the window
-- shrinks by exactly these, never below 0, the next expected number and the buffer position move
-- by exactly these, but for the number that an accepted FIN takes, and the out-of-order interval
-- stays strictly ahead and within the window.
pub flows_seg-RxStep :
    (w : WorkIo) (pkt : Pkt) (fs : FlowState) (r : Result)
    → pkt.seq < u32_mod
    → w.plen < 2 ^ 11
    → RxInv fs
    → let (fs', out) = flows_seg w pkt fs r in RxStep fs fs' out.ac_rx_bump
unfolding flows_seg reply finish
flows_seg-RxStep w pkt fs r h k v =
    seg_body-Received fs pkt w.plen (seg_start w r) v h (omega arith)
