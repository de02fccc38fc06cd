-- ===== src/Flow/TxLaws/Ack.antt =====
-- The send side of `flows_ack` of firmware/flows.c.
use flex_toe.Prelude.{
  if◌then◌else◌, ℕ, ◌%◌, ◌&&◌, ◌+◌, ◌<◌, ◌^◌, ◌≡◌, ◌≤◌, Option-cases, arith, inl, inr, leb, none,
  some,
}
use flex_toe.Prelude.Words.{sub32, u32_mod}
use flex_toe.Flow.Ack.{
  Run, ack_body, ack_duplicate, ack_fin, ack_in_sequence, ack_reply, ack_start, ack_taken,
  advance_ack, finish, flows_ack, reply, unchanged, want_ack,
}
use flex_toe.Flow.Checks.{tcp_rxseq_inwindow, tcp_txavail, tcp_valid_rxack}
use flex_toe.Flow.Inv.{TxInv, TxStep, snd_una}
use flex_toe.Flow.Send.{flows_reset_retransmit, sent_more}
use flex_toe.Flow.State.{FlowState, Pkt, Result, WorkIo}

pub valid_rxack-bounds :
    (fs : FlowState) (ack : ℕ) {bump : ℕ}
    → TxInv fs
    → tcp_valid_rxack fs ack ≡ some bump
    → (bump ≤ fs.tx_sent + fs.tx_avail) × (bump ≡ sub32 ack (snd_una fs))
unfolding tcp_valid_rxack
valid_rxack-bounds fs ack v e = ground arith

pub advance_ack-TxStep :
    (fs : FlowState) (bump : ℕ)
    → TxInv fs
    → bump ≤ fs.tx_sent + fs.tx_avail
    → TxStep fs (advance_ack fs bump) bump
unfolding advance_ack
advance_ack-TxStep fs bump v h = ground arith

pub reset-TxStep : (fs : FlowState) → TxInv fs → TxStep fs (flows_reset_retransmit fs) 0
unfolding flows_reset_retransmit
reset-TxStep fs v = ground arith

pub sent_more-TxStep :
    (fs : FlowState) (n : ℕ) → TxInv fs → n ≤ fs.tx_avail → TxStep fs (sent_more fs n) 0
unfolding sent_more
sent_more-TxStep fs n v h = ground arith

-- A step that changes no field of the send side but the remote window.
pub keep-TxStep : (fs : FlowState) → TxInv fs → TxStep fs fs 0
keep-TxStep fs v = ground arith

-- The parts of a packet handler that follow the acknowledgement leave the send side alone.
abbrev pub Acked : FlowState → Run → Type 0
Acked fs run = TxStep fs run.fs run.tx_bump

pub want_ack-Acked : (fs : FlowState) (run : Run) → Acked fs run → Acked fs (want_ack run)
unfolding want_ack
want_ack-Acked fs run a = a

pub ack_in_sequence-Acked :
    (fs : FlowState) (pkt : Pkt) (run : Run)
    → pkt.win < u32_mod
    → Acked fs run
    → Acked fs (ack_in_sequence pkt run)
unfolding ack_in_sequence ack_fin want_ack
ack_in_sequence-Acked fs pkt run h a = ground arith

pub ack_duplicate-Acked :
    (fs : FlowState) (pkt : Pkt) (out : Result)
    → pkt.win < u32_mod
    → TxInv fs
    → Acked fs (ack_duplicate pkt fs out)
unfolding ack_duplicate unchanged
ack_duplicate-Acked fs pkt out h v = ground (
  arith,
  reset-TxStep (record fs { dupack_cnt = (fs.dupack_cnt + 1) % 2 ^ 16 }),
  ack_in_sequence-Acked fs pkt
      (unchanged (record fs { dupack_cnt = (fs.dupack_cnt + 1) % 2 ^ 16 }) out),
)

pub ack_taken-Acked :
    (fs : FlowState) (out : Result) (bump : ℕ)
    → TxInv fs
    → bump ≤ fs.tx_sent + fs.tx_avail
    → Acked fs (ack_taken fs out bump)
unfolding ack_taken
ack_taken-Acked fs out bump v h = advance_ack-TxStep fs bump v h

pub unchanged-Acked : (fs : FlowState) (out : Result) → TxInv fs → Acked fs (unchanged fs out)
unfolding unchanged
unchanged-Acked fs out v = keep-TxStep fs v

pub ack_body-Acked :
    (fs : FlowState) (pkt : Pkt) (out : Result)
    → pkt.win < u32_mod
    → TxInv fs
    → Acked fs (ack_body pkt fs out)
unfolding ack_body want_ack
ack_body-Acked fs pkt out h v = elim (Option-cases (tcp_valid_rxack fs pkt.ack)) [
  | inl e ↦ ground (
    arith,
    unchanged-Acked fs out v,
    ack_in_sequence-Acked fs pkt (unchanged fs out) h (unchanged-Acked fs out v),
  )
  | inr (bump, e) ↦
      let t = ack_taken-Acked fs out bump v (valid_rxack-bounds fs pkt.ack v e).0 in
      ground (
        arith,
        unchanged-Acked fs out v,
        ack_duplicate-Acked fs pkt out h v,
        ack_in_sequence-Acked fs pkt (ack_taken fs out bump) h t,
      )
]

pub finish-Acked :
    (fs : FlowState) (old : ℕ) (pkt : Pkt) (run : Run)
    → Acked fs run
    → let (fs', out) = finish old pkt run in TxStep fs fs' out.ac_tx_bump
unfolding finish
finish-Acked fs old pkt run a = a

-- The bytes that the packet acknowledges anew: from the first unacknowledged number up to the
-- packet's, if that is within what was queued and the packet's own number is within the window.
abbrev pub newly_acked : FlowState → Pkt → ℕ
newly_acked fs pkt =
    let acked = sub32 pkt.ack (snd_una fs) in
    if leb (sub32 pkt.seq fs.rx_next_seq) fs.rx_avail && leb acked (fs.tx_avail + fs.tx_sent)
    then acked
    else 0

in_sequence-bump : (pkt : Pkt) (run : Run) → (ack_in_sequence pkt run).tx_bump ≡ run.tx_bump
unfolding ack_in_sequence ack_fin want_ack
in_sequence-bump pkt run = ground arith

duplicate-bump :
    (fs : FlowState) (pkt : Pkt) (out : Result) → (ack_duplicate pkt fs out).tx_bump ≡ 0
unfolding ack_duplicate unchanged
duplicate-bump fs pkt out = ground (
  arith,
  in_sequence-bump pkt (unchanged (record fs { dupack_cnt = (fs.dupack_cnt + 1) % 2 ^ 16 }) out),
)

valid_rxack-none :
    (fs : FlowState) (ack : ℕ)
    → TxInv fs
    → tcp_valid_rxack fs ack ≡ none
    → fs.tx_avail + fs.tx_sent < sub32 ack (snd_una fs)
unfolding tcp_valid_rxack
valid_rxack-none fs ack v e = ground arith

ack_body-bump :
    (fs : FlowState) (pkt : Pkt) (out : Result)
    → TxInv fs
    → (ack_body pkt fs out).tx_bump ≡ newly_acked fs pkt
unfolding ack_body want_ack unchanged ack_taken tcp_rxseq_inwindow
ack_body-bump fs pkt out v = elim (Option-cases (tcp_valid_rxack fs pkt.ack)) [
  | inl e ↦
      ground (arith, e, valid_rxack-none fs pkt.ack v e, in_sequence-bump pkt (unchanged fs out))
  | inr (bump, e) ↦
      let (within, is) = valid_rxack-bounds fs pkt.ack v e in
      ground (
        arith,
        e,
        within,
        is,
        duplicate-bump fs pkt out,
        in_sequence-bump pkt (ack_taken fs out bump),
      )
]

-- A segment without payload: `ac_tx_bump` is the number of bytes that it acknowledges anew, counted
-- from the first unacknowledged number, and 0 for a segment out of the window or an acknowledgement of
-- more than was queued. Exactly these bytes leave the send buffer, the first unacknowledged
-- number moves by as much, sequence numbers and buffer positions stay aligned, and the invariant
-- holds again. The packet's window is a word.
pub flows_ack-TxStep :
    (w : WorkIo) (pkt : Pkt) (fs : FlowState) (r : Result)
    → pkt.win < u32_mod
    → TxInv fs
    → let (fs', out) = flows_ack w pkt fs r in
      (out.ac_tx_bump ≡ newly_acked fs pkt) × TxStep fs fs' out.ac_tx_bump
unfolding flows_ack ack_reply reply finish
flows_ack-TxStep w pkt fs r h v = (
  ground (arith, ack_body-bump fs pkt (ack_start w r) v),
  ground (
    arith,
    finish-Acked fs (tcp_txavail fs 0) pkt (ack_body pkt fs (ack_start w r))
        (ack_body-Acked fs pkt (ack_start w r) h v),
  ),
)
