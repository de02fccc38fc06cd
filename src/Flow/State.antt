-- ===== src/Flow/State.antt =====
-- The records that firmware/flows.c works on: flow state (include/flow_state.h), work items and
-- results (firmware/pipeline.h), packet summaries (firmware/packet_defs.h).
-- A word of flags is the record of its bits; a handler that leaves a result's field alone leaves
-- what stood there before, so every handler is given the old result.
use flex_toe.Prelude.{ℕ, ◌%◌, ◌^◌, Bool, false}

-- The four flags of `flowst_tcp_t.flags`.
pub record FlowFlags : Type 0 where
  pub ecn : Bool
  pub txfin : Bool
  pub slowpath : Bool
  pub rxfin : Bool

-- `struct flowst_tcp_t`.
pub record FlowState : Type 0 where
  pub tx_len : ℕ
  pub tx_avail : ℕ
  pub tx_remote_avail : ℕ
  pub tx_sent : ℕ
  pub tx_next_seq : ℕ
  pub tx_next_pos : ℕ
  pub tx_next_ts : ℕ
  pub flags : FlowFlags
  pub dupack_cnt : ℕ
  pub rx_len : ℕ
  pub rx_avail : ℕ
  pub rx_next_seq : ℕ
  pub rx_next_pos : ℕ
  pub rx_ooo_len : ℕ
  pub rx_ooo_start : ℕ

-- The `io` view of `struct work_t`: the fields that the flow handlers read or pass on.
pub record WorkIo : Type 0 where
  pub flow_id : ℕ
  pub seq : ℕ
  pub force : Bool
  pub plen : ℕ

-- The `ac` view of `struct work_t`.
pub record WorkAc : Type 0 where
  pub flow_id : ℕ
  pub desc_idx : ℕ
  pub fin : Bool
  pub rx_bump : ℕ
  pub tx_bump : ℕ

-- `struct work_t`, by its `type` field.
pub data Work : Type 0 where
  rx : WorkIo → Work
  tx : WorkIo → Work
  ac : WorkAc → Work
  retx : ℕ → Work

-- `struct pkt_summary_t`; of its TCP flags, the two that are read.
pub record Pkt : Type 0 where
  pub seq : ℕ
  pub ack : ℕ
  pub ecn : Bool
  pub fin : Bool
  pub ece : Bool
  pub win : ℕ
  pub ts_val : ℕ
  pub ts_ecr : ℕ

-- The `WORK_RESULT_*` bits.
pub record ResultFlags : Type 0 where
  pub tx : Bool
  pub dma_acdesc : Bool
  pub dma_payload : Bool
  pub retx : Bool
  pub fin : Bool
  pub qm : Bool
  pub qm_force : Bool
  pub ece : Bool
  pub txp_zero : Bool
  pub ecnb : Bool

abbrev pub no_flags : ResultFlags
no_flags = record {
  tx = false;
  dma_acdesc = false;
  dma_payload = false;
  retx = false;
  fin = false;
  qm = false;
  qm_force = false;
  ece = false;
  txp_zero = false;
  ecnb = false;
}

-- `struct work_result_t`.
pub record Result : Type 0 where
  pub work : Work
  pub seq : ℕ
  pub ack : ℕ
  pub win : ℕ
  pub ts_val : ℕ
  pub ts_ecr : ℕ
  pub qm_bump : ℕ
  pub dma_pos : ℕ
  pub dma_len : ℕ
  pub dma_offset : ℕ
  pub ac_rx_bump : ℕ
  pub ac_tx_bump : ℕ
  pub flags : ResultFlags

-- `WORK_DMA_OFFSET_LEN_SET`: a word with the length in its upper half and the offset in its lower.
-- The offset is at most the payload length, which has 11 bits, so the halves do not overlap.
abbrev pub set_dma : Result → ℕ → ℕ → ℕ → Result
set_dma r pos len offset = record r {
  dma_pos = pos;
  dma_len = len % 2 ^ 16;
  dma_offset = offset % 2 ^ 16;
}
