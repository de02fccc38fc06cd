-- ===== src/Process.antt =====
-- firmware/process.c: the worker that takes a work item, brings the flow's state into local memory
-- and runs the handler. Local memory (LM) holds 16 flows behind a content-addressable memory,
-- cluster scratch (CLS) a direct-mapped second level of 512, external memory (EMEM) the rest.
-- One worker thread at a time: its locks on a missing entry are not modelled.
pub mod Miss
pub mod Transparent
pub mod Reach
pub mod FlowInv
mod Tests
use flex_toe.Prelude.{if◌then◌else◌, ℕ, ◌%◌, ◌+◌, ◌-◌, ◌<◌, ◌==◌, ◌^◌, ◌∷◌, ◌≡◌, List, update}
use flex_toe.Flow.Ack.{flows_ack}
use flex_toe.Flow.Seg.{flows_seg}
use flex_toe.Flow.Send.{flows_ac, flows_retx, flows_tx}
use flex_toe.Flow.State.{FlowState, Pkt, Result, Work, WorkIo}

abbrev pub fs_cls_cache_size : ℕ
fs_cls_cache_size = 512

abbrev pub fs_lm_cache_size : ℕ
fs_lm_cache_size = 16

-- `flow_id & FS_CLS_CACHE_MASK`.
abbrev pub cls_slot : ℕ → ℕ
cls_slot flow_id = flow_id % fs_cls_cache_size

-- The CAM's tags, `fs_lm`, `fs_cls_status`, `flowst_cache`, and `fp_state.flows_tcp_state`.
pub record Cache : Type 0 where
  pub tag : ℕ → ℕ
  pub lm : ℕ → FlowState
  pub cls_status : ℕ → ℕ
  pub cls : ℕ → FlowState
  pub emem : ℕ → FlowState

-- `init_lm_cache` and `init_cls_cache`: the tags are distinct and no flow's; slot 0 means empty.
pub init_caches : Cache → Cache
init_caches c = record c { tag = λ e. 2 ^ 32 - 1 - e; cls_status = λ _. 0 }

-- The end of `handle_miss`: read the flow from CLS, if it is there, or from EMEM.
pub fetch : ℕ → ℕ → Cache → Cache
fetch entry_idx flow_id c =
    let slot = cls_slot flow_id in
    if c.cls_status slot == flow_id
    then record c {
      cls_status = update c.cls_status slot 0;
      lm = update c.lm entry_idx (c.cls slot);
    }
    else record c { lm = update c.lm entry_idx (c.emem flow_id) }

-- The flow in the entry goes to CLS; what stood there goes to EMEM, unless it is the flow wanted.
pub handle_miss : ℕ → ℕ → Cache → Cache
handle_miss entry_idx flow_id c =
    let lm_evicted_flowid = c.tag entry_idx in
    let evict_slot = cls_slot lm_evicted_flowid in
    let cls_evicted_flowid = c.cls_status evict_slot in
    let swapped = c.cls evict_slot in
    let c' = record c {
      tag = update c.tag entry_idx flow_id;
      cls_status = update c.cls_status evict_slot lm_evicted_flowid;
      cls = update c.cls evict_slot (c.lm entry_idx);
    } in
    if cls_evicted_flowid == 0
    then fetch entry_idx flow_id c'
    else if cls_evicted_flowid == flow_id
    then record c' { lm = update c.lm entry_idx swapped }
    else fetch entry_idx flow_id (record c' { emem = update c.emem cls_evicted_flowid swapped })

-- The `flow_id` that the three layouts of a work item share.
pub flow_of : Work → ℕ
flow_of (Work.rx w) = w.flow_id
flow_of (Work.tx w) = w.flow_id
flow_of (Work.ac w) = w.flow_id
flow_of (Work.retx flow_id) = flow_id

-- Received and sent segments are numbered; the number is a 32-bit register, of which a work item
-- keeps 16 bits.
abbrev pub numbered : ℕ → WorkIo → WorkIo
numbered seq w = record w { seq = seq % 2 ^ 16 }

abbrev pub next_seq : Work → ℕ → ℕ
next_seq (Work.rx w) seq = (seq + 1) % 2 ^ 32
next_seq (Work.tx w) seq = (seq + 1) % 2 ^ 32
next_seq (Work.ac w) seq = seq
next_seq (Work.retx flow_id) seq = seq

-- The `switch` of `process_work`. The packet summary is read for a received segment only.
pub dispatch : Work → Pkt → ℕ → FlowState → Result → FlowState × Result
dispatch (Work.rx w) pkt seq fs r =
    if w.plen == 0 then flows_ack (numbered seq w) pkt fs r else flows_seg (numbered seq w) pkt fs r
dispatch (Work.tx w) pkt seq fs r = flows_tx (numbered seq w) fs r
dispatch (Work.ac w) pkt seq fs r = flows_ac w fs r
dispatch (Work.retx flow_id) pkt seq fs r = flows_retx flow_id fs r

-- The content-addressable memory: which entry a lookup names, given the keys looked up before (the
-- latest first) and the tags. It finds the entry of a tag that is there; for one that is not it
-- names any entry, the one to replace, such as the least recently used one.
pub record Cam : Type 0 where
  pub entry_num : List ℕ → (ℕ → ℕ) → ℕ → ℕ
  pub in_range : (past : List ℕ) (tag : ℕ → ℕ) (key : ℕ) → entry_num past tag key < fs_lm_cache_size
  pub finds :
      (past : List ℕ) (tag : ℕ → ℕ) (key e : ℕ)
      → e < fs_lm_cache_size
      → tag e ≡ key
      → tag (entry_num past tag key) ≡ key

-- The variables of the worker: the keys that its CAM has looked up, the latest first, caches,
-- sequence number, and the transfer registers of the result.
pub record Worker : Type 0 where
  pub looked_up : List ℕ
  pub cache : Cache
  pub seq : ℕ
  pub out : Result

module _ (cam : Cam) where
  -- Steps 4 to 6 of the loop of `process_work`.
  pub look_up : List ℕ → ℕ → Cache → Cache
  look_up past flow_id c =
      let e = cam.entry_num past c.tag flow_id in
      if c.tag e == flow_id then c else handle_miss e flow_id c

  pub process_work : Work → Pkt → Worker → Worker
  process_work work pkt s =
      let e = cam.entry_num s.looked_up s.cache.tag (flow_of work) in
      let c = look_up s.looked_up (flow_of work) s.cache in
      let (fs, out) = dispatch work pkt s.seq (c.lm e) s.out in
      record {
        looked_up = flow_of work ∷ s.looked_up;
        cache = record c { lm = update c.lm e fs };
        seq = next_seq work s.seq;
        out = out;
      }
