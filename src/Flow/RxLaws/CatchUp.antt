-- ===== src/Flow/RxLaws/CatchUp.antt =====
-- The window and the out-of-order interval after a delivery in `flows_seg` of firmware/flows.c.
use native.Mathlib.Decide.{dec_lt}
use flex_toe.Prelude.{ℕ, ◌+◌, ◌<◌, ◌≡◌, ◌≤◌, ◌⊎◌, arith, inl, inr}
use flex_toe.Flow.Ack.{Run}
use flex_toe.Flow.Inv.{RxInv, RxStep, ooo_ahead}
use flex_toe.Flow.RxLaws.Trim.{trim-before, trim-passed, trim-reached}
use flex_toe.Flow.Seg.{catch_up, deliver, merge_interval, trim_interval}
use flex_toe.Flow.State.{FlowState, Result}

-- A delivery that does not reach the interval, with the window moved.
pub deliver-RxStep :
    (fs : FlowState) (bytes : ℕ)
    → RxInv fs
    → bytes ≤ fs.rx_avail
    → (fs.rx_ooo_len ≡ 0) ⊎ ((bytes < ooo_ahead fs) × (ooo_ahead fs + fs.rx_ooo_len ≤ fs.rx_avail))
    → RxStep fs (deliver fs bytes) bytes
unfolding deliver
deliver-RxStep fs bytes v h i = ground arith

abbrev pub delivered : FlowState → ℕ → Result → ℕ → Run
delivered fs bytes out acked = record {
  fs = deliver fs bytes;
  out = out;
  rx_bump = bytes;
  tx_bump = acked;
}

abbrev pub Received : FlowState → Run → Type 0
Received fs run = RxStep fs run.fs run.rx_bump

pub catch_up-before :
    (fs : FlowState) (bytes : ℕ) (out : Result) (acked : ℕ)
    → RxInv fs
    → bytes ≤ fs.rx_avail
    → 0 < fs.rx_ooo_len
    → bytes < ooo_ahead fs
    → ooo_ahead fs + fs.rx_ooo_len ≤ fs.rx_avail
    → Received fs (catch_up (delivered fs bytes out acked))
unfolding catch_up trim_interval merge_interval deliver
catch_up-before fs bytes out acked v b l h i = ground (arith, trim-before fs bytes v i l h)

pub catch_up-reached :
    (fs : FlowState) (bytes : ℕ) (out : Result) (acked : ℕ)
    → RxInv fs
    → bytes ≤ fs.rx_avail
    → 0 < fs.rx_ooo_len
    → ooo_ahead fs ≤ bytes
    → bytes ≤ ooo_ahead fs + fs.rx_ooo_len
    → ooo_ahead fs + fs.rx_ooo_len ≤ fs.rx_avail
    → Received fs (catch_up (delivered fs bytes out acked))
unfolding catch_up trim_interval merge_interval deliver
catch_up-reached fs bytes out acked v b l h k i = ground (arith, trim-reached fs bytes v i h k)

pub catch_up-passed :
    (fs : FlowState) (bytes : ℕ) (out : Result) (acked : ℕ)
    → RxInv fs
    → bytes ≤ fs.rx_avail
    → 0 < fs.rx_ooo_len
    → ooo_ahead fs + fs.rx_ooo_len < bytes
    → ooo_ahead fs + fs.rx_ooo_len ≤ fs.rx_avail
    → Received fs (catch_up (delivered fs bytes out acked))
unfolding catch_up trim_interval merge_interval deliver
catch_up-passed fs bytes out acked v b l h i = ground (arith, trim-passed fs bytes v i h b)

pub catch_up-none :
    (fs : FlowState) (bytes : ℕ) (out : Result) (acked : ℕ)
    → RxInv fs
    → bytes ≤ fs.rx_avail
    → fs.rx_ooo_len ≡ 0
    → Received fs (catch_up (delivered fs bytes out acked))
unfolding catch_up deliver
catch_up-none fs bytes out acked v b l = ground arith

pub catch_up-Received :
    (fs : FlowState) (bytes : ℕ) (out : Result) (acked : ℕ)
    → RxInv fs
    → bytes ≤ fs.rx_avail
    → Received fs (catch_up (delivered fs bytes out acked))
catch_up-Received fs bytes out acked v b = elim (v.interval) [
  | inl e ↦ catch_up-none fs bytes out acked v b e
  | inr (p, q) ↦ elim (dec_lt 0 fs.rx_ooo_len) [
    | no empty ↦ catch_up-none fs bytes out acked v b (omega arith)
    | yes l ↦ elim (dec_lt bytes (ooo_ahead fs)) [
      | yes h ↦ catch_up-before fs bytes out acked v b l h q
      | no h ↦ elim (dec_lt (ooo_ahead fs + fs.rx_ooo_len) bytes) [
        | yes k ↦ catch_up-passed fs bytes out acked v b l k q
        | no k ↦ catch_up-reached fs bytes out acked v b l (omega arith) (omega arith) q
      ]
    ]
  ]
]

pub catch_up-flags : (run : Run) → (catch_up run).fs.flags ≡ run.fs.flags
unfolding catch_up trim_interval merge_interval deliver
catch_up-flags run = ground arith
