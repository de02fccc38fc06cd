-- ===== src/Dma.antt =====
-- The payload transfers of firmware/postprocess.c, `prepare_dma_cmd`, and firmware/dma.h. A word
-- of several fields is the record of its fields; of the packet's address the model has the low word,
-- since the high one is the same in all transfers. The size of a buffer is a power of 2, so that
-- masking a position is its remainder.
pub mod Copies
mod Tests
use flex_toe.Prelude.{
  if◌then◌else◌, ℕ, ◌%◌, ◌&&◌, ◌*◌, ◌+◌, ◌-◌, ◌/◌, ◌^◌, ◌∷◌, Bool, List, Option, [], false, leb,
  ltb, none, some, true,
}
use flex_toe.Prelude.Words.{add32}

-- `param1` to `param4` of `struct dma_pkt_cmd_t`; `param4` has the high byte of the host address, the
-- length of the second transfer, and that of the first less one.
pub record DmaCmd : Type 0 where
  pub param1 : ℕ
  pub param2 : ℕ
  pub param3 : ℕ
  pub addr_hi : ℕ
  pub second_len : ℕ
  pub first_len : ℕ

-- A transfer between a packet and the host's memory.
pub record Transfer : Type 0 where
  pub packet : ℕ
  pub host : ℕ
  pub bytes : ℕ

-- The part of `prepare_dma_cmd` for a payload; the Boolean is its result, two transfers.
unfoldable pub prepare_dma_cmd : ℕ → ℕ → ℕ → ℕ → ℕ → Bool × DmaCmd
prepare_dma_cmd buf_base buf_len dma_pos dma_len pkt_base =
    let pos = dma_pos % buf_len in
    let wraparound = buf_len - pos in
    let one : DmaCmd = record {
      param1 = pkt_base;
      param2 = 0;
      param3 = (buf_base + pos) % 2 ^ 32;
      addr_hi = (buf_base + pos) / 2 ^ 32 % 2 ^ 8;
      second_len = 0;
      first_len = (dma_len - 1) % 2 ^ 12;
    } in
    let two : DmaCmd = record {
      param1 = pkt_base;
      param2 = pos;
      param3 = buf_base % 2 ^ 32;
      addr_hi = buf_base / 2 ^ 32 % 2 ^ 8;
      second_len = (dma_len - wraparound) % 2 ^ 12;
      first_len = (wraparound - 1) % 2 ^ 12;
    } in
    if leb dma_len wraparound then (false, one) else (true, two)

abbrev pub host_address : ℕ → ℕ → ℕ
host_address hi lo = hi * 2 ^ 32 + lo

-- `issue_pkt_dma` and `issue_pkt_dma_2`.
unfoldable pub issue_pkt_dma : DmaCmd → List Transfer
issue_pkt_dma c =
    record { packet = c.param1; host = host_address c.addr_hi c.param3; bytes = c.first_len + 1 }
    ∷ []

unfoldable pub issue_pkt_dma_2 : DmaCmd → List Transfer
issue_pkt_dma_2 c =
    record {
      packet = c.param1;
      host = host_address c.addr_hi (add32 c.param3 c.param2);
      bytes = c.first_len + 1;
    }
    ∷ record {
      packet = add32 c.param1 (c.first_len + 1);
      host = host_address c.addr_hi c.param3;
      bytes = c.second_len;
    }
    ∷ []

-- The transfers that the two calls after `prepare_dma_cmd` choose by its result.
abbrev pub transfers : Bool × DmaCmd → List Transfer
transfers (false, c) = issue_pkt_dma c
transfers (true, c) = issue_pkt_dma_2 c

-- Where in the host's memory a byte of the packet goes.
abbrev pub lands : ℕ → List Transfer → Option ℕ
lands a [] = none
lands a (t ∷ ts) =
    if leb t.packet a && ltb a (t.packet + t.bytes)
    then some (t.host + (a - t.packet))
    else lands a ts
