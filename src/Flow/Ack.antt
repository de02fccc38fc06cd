-- ===== src/Flow/Ack.antt =====
-- `flows_ack` of firmware/flows.c: a segment without payload. What it shares with `flows_seg`
-- (taking in an acknowledgement, `finalize`) is here too.
use flex_toe.Prelude.{if◌then◌else◌, ℕ, ◌%◌, ◌&&◌, ◌+◌, ◌==◌, ◌^◌, leb, ltb, none, not, some, true}
use flex_toe.Prelude.Words.{add32, sub32}
use flex_toe.Flow.Checks.{tcp_rxseq_inwindow, tcp_txavail, tcp_valid_rxack}
use flex_toe.Flow.Send.{bump_qm, flows_reset_retransmit}
use flex_toe.Flow.State.{FlowState, Pkt, Result, Work, WorkIo, no_flags}

-- The variables of a packet handler: the flow state, the result so far, and the two bumps.
pub record Run : Type 0 where
  pub fs : FlowState
  pub out : Result
  pub rx_bump : ℕ
  pub tx_bump : ℕ

-- The state after `bump` bytes are acknowledged: at most the sent ones, or queued ones too.
unfoldable pub advance_ack : FlowState → ℕ → FlowState
advance_ack fs bump =
    let tx_sent = fs.tx_sent in
    if ltb bump tx_sent
    then record fs { tx_sent = sub32 tx_sent bump; dupack_cnt = 0 }
    else record fs {
      tx_next_seq = sub32 (add32 fs.tx_next_seq bump) tx_sent;
      tx_avail = add32 (sub32 fs.tx_avail bump) tx_sent;
      tx_sent = 0;
      tx_next_pos = sub32 (add32 fs.tx_next_pos bump) tx_sent;
      dupack_cnt = 0;
    }

-- The result says that the host is owed a descriptor, and whether nothing is in flight now.
unfoldable pub ack_taken : FlowState → Result → ℕ → Run
ack_taken fs out bump =
    let fs' = advance_ack fs bump in
    let nothing_sent = fs'.tx_sent == 0 in
    record {
      fs = fs';
      out = record out {
        flags = record (out.flags) { dma_acdesc = true; txp_zero = nothing_sent };
      };
      rx_bump = 0;
      tx_bump = bump;
    }

unfoldable pub unchanged : FlowState → Result → Run
unchanged fs out = record { fs = fs; out = out; rx_bump = 0; tx_bump = 0 }

-- From the label `finalize` to the ECN echo, which both handlers share.
unfoldable pub finish : ℕ → Pkt → Run → FlowState × Result
finish old_avail pkt run =
    let out = bump_qm old_avail (tcp_txavail run.fs 0) run.out in
    (
      run.fs,
      record out {
        ac_rx_bump = run.rx_bump;
        ac_tx_bump = run.tx_bump;
        ts_val = pkt.ts_ecr;
        flags = record (out.flags) { ecnb = pkt.ece };
      },
    )

-- The fields of the segment to send back.
unfoldable pub reply : Pkt → FlowState → Result → Result
reply pkt fs out = record out {
  seq = fs.tx_next_seq;
  ack = fs.rx_next_seq;
  win = fs.rx_avail;
  ts_ecr = fs.tx_next_ts;
  flags = record (out.flags) { ece = pkt.ecn };
}

-- A flag for an acknowledgement to be sent.
unfoldable pub want_ack : Run → Run
want_ack run = record run {
  out = record (run.out) { flags = record (run.out.flags) { tx = true } };
}

-- A FIN counts if none was seen before and no out-of-order bytes are held.
unfoldable pub ack_fin : Pkt → Run → Run
ack_fin pkt run =
    let fs = run.fs in
    if pkt.fin && (not fs.flags.rxfin && (fs.rx_ooo_len == 0))
    then record run {
      fs = record fs {
        flags = record (fs.flags) { rxfin = true };
        rx_next_seq = add32 fs.rx_next_seq 1;
      };
      out = record (run.out) {
        flags = record (run.out.flags) { fin = true; tx = true; dma_acdesc = true };
      };
    }
    else run

-- What only an in-sequence packet may change.
unfoldable pub ack_in_sequence : Pkt → Run → Run
ack_in_sequence pkt run =
    if run.fs.rx_next_seq == pkt.seq
    then ack_fin pkt
        (record run { fs = record (run.fs) { tx_remote_avail = pkt.win; tx_next_ts = pkt.ts_val } })
    else want_ack run

-- A third duplicate acknowledgement, or one more than that, makes the flow send again.
unfoldable pub ack_duplicate : Pkt → FlowState → Result → Run
ack_duplicate pkt fs out =
    let dupack_cnt = fs.dupack_cnt + 1 in
    let fs' = record fs { dupack_cnt = dupack_cnt % 2 ^ 16 } in
    if leb 3 dupack_cnt
    then unchanged (flows_reset_retransmit fs')
        (record out { flags = record (out.flags) { retx = true } })
    else ack_in_sequence pkt (unchanged fs' out)

unfoldable pub ack_body : Pkt → FlowState → Result → Run
ack_body pkt fs out =
    if tcp_rxseq_inwindow fs pkt.seq
    then elim (tcp_valid_rxack fs pkt.ack) [
      | none ↦ ack_in_sequence pkt (unchanged fs out)
      | some bump ↦
          if bump == 0
          then ack_duplicate pkt fs out
          else ack_in_sequence pkt (ack_taken fs out bump)
    ]
    else want_ack (unchanged fs out)

-- An acknowledgement that is sent here echoes no timestamp to the statistics.
unfoldable pub ack_reply : Pkt → FlowState → Result → Result
ack_reply pkt fs out = if out.flags.tx then record (reply pkt fs out) { ts_val = 0 } else out

-- The result with the work item copied into it and no flag set.
unfoldable pub ack_start : WorkIo → Result → Result
ack_start w r = record r { work = Work.rx w; flags = no_flags }

unfoldable pub flows_ack : WorkIo → Pkt → FlowState → Result → FlowState × Result
flows_ack w pkt fs r =
    let run = ack_body pkt fs (ack_start w r) in
    let (fs', out) = finish (tcp_txavail fs 0) pkt run in (fs', ack_reply pkt fs' out)
