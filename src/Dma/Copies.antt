-- ===== src/Dma/Copies.antt =====
-- The transfers of a payload in firmware/postprocess.c and firmware/dma.h, byte by byte.
use native.Mathlib.Nat.{mod-add-mod, mod-eq-sub-mod, mod-eq_of_lt, mod-lt}
use flex_toe.Prelude.{
  if◌then◌else◌, ℕ, ◌%◌, ◌+◌, ◌-◌, ◌<◌, ◌^◌, ◌∙◌, ◌≡◌, ◌≤◌, Bool-cases, arith, inl, inr, leb, ltb,
  some, sym,
}
use flex_toe.Dma.{issue_pkt_dma, issue_pkt_dma_2, lands, prepare_dma_cmd, transfers}

-- Where a position within the buffer is, before and behind the end.
around :
    (n a k : ℕ)
    → k ≤ n
    → a % n < n
    → (a + k) % n ≡ (if ltb (a % n + k) n then a % n + k else a % n + k - n)
around n a k h lt =
    let same = mod-add-mod a n k in
    elim (Bool-cases (ltb (a % n + k) n)) [
      | inl x ↦
          let l : a % n + k < n = ground arith in sym same ∙ (mod-eq_of_lt l ∙ ground (arith, x))
      | inr x ↦
          let g : n ≤ a % n + k = ground arith in
          let d : a % n + k - n < n = omega arith in
          sym same ∙ (mod-eq-sub-mod g ∙ (mod-eq_of_lt d ∙ ground (arith, x)))
    ]

-- Each byte of a payload goes to its place in the circular buffer, around the end of the buffer where
-- it reaches it. The payload is not empty and is shorter than 4096 bytes and than the buffer, the
-- buffer lies within 2 ^ 40 and does not cross a multiple of 2 ^ 32, and the packet's low addresses
-- do not wrap.
pub prepare_dma_cmd-lands :
    (buf_base buf_len dma_pos dma_len pkt_base k : ℕ)
    → 0 < dma_len
    → dma_len < 2 ^ 12
    → dma_len ≤ buf_len
    → buf_base < 2 ^ 40
    → buf_base % 2 ^ 32 + buf_len ≤ 2 ^ 32
    → pkt_base + dma_len < 2 ^ 32
    → k < dma_len
    → lands (pkt_base + k) (transfers (prepare_dma_cmd buf_base buf_len dma_pos dma_len pkt_base))
      ≡ some (buf_base + (dma_pos + k) % buf_len)
unfolding prepare_dma_cmd issue_pkt_dma issue_pkt_dma_2
prepare_dma_cmd-lands buf_base buf_len dma_pos dma_len pkt_base k pos small fits high carry packet
      inside =
    let here = dma_pos % buf_len in
    let lt : here < buf_len = mod-lt dma_pos (omega arith) in
    let place = around buf_len dma_pos k (omega arith) lt in
    elim (Bool-cases (leb dma_len (buf_len - here))) [
      | inl x ↦ let flat : here + k < buf_len = ground arith in ground (arith, x, place)
      | inr x ↦ elim (Bool-cases (ltb k (buf_len - here))) [
        | inl y ↦ ground (arith, x, y, place)
        | inr y ↦ ground (arith, x, y, place)
      ]
    ]
