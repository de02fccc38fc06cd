-- ===== src/Process/Tests.antt =====
-- Runs of the worker of firmware/process.c, and the theorems at them.
use native.Mathlib.Decide.{ℕ_discrete}
use flex_toe.Prelude.{if◌then◌else◌, ℕ, ◌<◌, ◌==◌, ◌∷◌, ◌≡◌, List, [], ap, arith, suc, zero}
use flex_toe.Flow.Tests.{item, no_result, pkt, sample, sample-RxInv, sample-TxInv}
use flex_toe.Flow.State.{Pkt, Work}
use flex_toe.Process.{Cache, Cam, Worker, dispatch, flow_of, init_caches}
use flex_toe.Process.FlowInv.{FlowInv, dispatch-FlowInv}
use flex_toe.Process.Miss.{CacheInv, current}
use flex_toe.Process.Reach.{flows_run, init_caches-CacheInv, process_run, process_run-refines}

abbrev start : Cache
start = init_caches (record {
  tag = λ e. 0;
  lm = λ e. sample;
  cls_status = λ s. 0;
  cls = λ s. sample;
  emem = λ f. record sample { tx_next_ts = f };
})

abbrev worker : Worker
worker = record { looked_up = []; cache = start; seq = 0; out = no_result }

-- The entry of a key is the last one that has it, or entry 0.
entry_below : ℕ → (ℕ → ℕ) → ℕ → ℕ
entry_below zero tag key = 0
entry_below (suc n) tag key = if tag n == key then n else entry_below n tag key

entry_below-lt : (n : ℕ) (tag : ℕ → ℕ) (key : ℕ) → 0 < n → entry_below n tag key < n
unfolding entry_below
entry_below-lt zero tag key h = h
entry_below-lt (suc zero) tag key h = ground arith
entry_below-lt (suc (suc n)) tag key h =
    ground (arith, entry_below-lt (suc n) tag key (omega arith))

entry_below-finds :
    (n : ℕ) (tag : ℕ → ℕ) (key e : ℕ) → e < n → tag e ≡ key → tag (entry_below n tag key) ≡ key
unfolding entry_below
entry_below-finds zero tag key e h t = elim h [ ]
entry_below-finds (suc n) tag key e h t = elim (ℕ_discrete e n) [
  | yes k ↦ ground (arith, ap tag k)
  | no k ↦ ground (arith, entry_below-finds n tag key e)
]

abbrev scanning : Cam
scanning = record {
  entry_num = λ past. entry_below 16;
  in_range = λ past tag key. entry_below-lt 16 tag key (omega arith);
  finds = λ past. entry_below-finds 16;
}

start-CacheInv : CacheInv start
start-CacheInv = init_caches-CacheInv _

abbrev items : List (Work × Pkt)
items =
    (Work.rx item, pkt) ∷ (Work.tx (record item { flow_id = 515 }), pkt) ∷ (Work.retx 3, pkt) ∷ []

process_run-refines_example :
    let t = flows_run items (record { states = current start; seq = 0; out = no_result }) in
    (current (process_run scanning items worker).cache 3 ≡ t.states 3)
    × ((process_run scanning items worker).out ≡ t.out)
unfolding flow_of
process_run-refines_example =
    process_run-refines scanning items worker 3 start-CacheInv (omega arith) (omega arith)

dispatch-FlowInv_example : FlowInv (dispatch (Work.rx item) pkt 5 sample no_result).0
dispatch-FlowInv_example =
    dispatch-FlowInv (Work.rx item) pkt 5 sample no_result
      (record { send = sample-TxInv; receive = sample-RxInv }) (omega arith)
