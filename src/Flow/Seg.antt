-- ===== src/Flow/Seg.antt =====
-- `flows_seg` of firmware/flows.c: a segment with payload, with one out-of-order interval.
use flex_toe.Prelude.{if◌then◌else◌, ℕ, ◌&&◌, ◌==◌, ltb, none, not, some, true}
use flex_toe.Prelude.Words.{add32, sub32}
use flex_toe.Flow.Ack.{Run, ack_taken, finish, reply, unchanged}
use flex_toe.Flow.Checks.{Trim, tcp_trim_rxbuf, tcp_txavail, tcp_valid_rxack}
use flex_toe.Flow.State.{FlowState, Pkt, Result, Work, WorkIo, no_flags, set_dma}

-- The acknowledgement number of a segment; one that acknowledges nothing is passed over.
unfoldable pub seg_ack : Pkt → FlowState → Result → Run
seg_ack pkt fs out = elim (tcp_valid_rxack fs pkt.ack) [
  | none ↦ unchanged fs out
  | some bump ↦ if bump == 0 then unchanged fs out else ack_taken fs out bump
]

-- The payload goes to the host, at a position of the receive buffer.
unfoldable pub copy_payload : Result → ℕ → ℕ → ℕ → Result
copy_payload out pos len offset =
    let out' = set_dma out pos len offset in
    record out' { flags = record (out'.flags) { dma_payload = true } }

-- Keep `bytes` bytes from `seq` on, if they are the first or extend the interval at an end.
unfoldable pub seg_out_of_order : ℕ → ℕ → ℕ → Run → Run
seg_out_of_order seq bytes trim_start run =
    let fs = run.fs in
    let pos = add32 fs.rx_next_pos (sub32 seq fs.rx_next_seq) in
    let out = copy_payload run.out pos bytes trim_start in
    if bytes == 0
    then run
    else if fs.rx_ooo_len == 0
    then record run { fs = record fs { rx_ooo_len = bytes; rx_ooo_start = seq }; out = out }
    else if add32 seq bytes == fs.rx_ooo_start
    then record run {
      fs = record fs { rx_ooo_len = add32 fs.rx_ooo_len bytes; rx_ooo_start = seq };
      out = out;
    }
    else if add32 fs.rx_ooo_start fs.rx_ooo_len == seq
    then record run { fs = record fs { rx_ooo_len = add32 fs.rx_ooo_len bytes }; out = out }
    else run

-- Move the receive window over `bytes` bytes.
unfoldable pub deliver : FlowState → ℕ → FlowState
deliver fs bytes = record fs {
  rx_avail = sub32 fs.rx_avail bytes;
  rx_next_seq = add32 fs.rx_next_seq bytes;
  rx_next_pos = add32 fs.rx_next_pos bytes;
}

-- The out-of-order interval without what the window has passed.
unfoldable pub trim_interval : FlowState → Trim → FlowState
trim_interval fs t = record fs {
  rx_ooo_start = add32 fs.rx_ooo_start t.trim_start;
  rx_ooo_len = sub32 (sub32 fs.rx_ooo_len t.trim_start) t.trim_end;
}

-- The interval that the window has reached is delivered with it.
unfoldable pub merge_interval : Run → Run
merge_interval run =
    let fs = run.fs in
    if ltb 0 fs.rx_ooo_len && (fs.rx_ooo_start == fs.rx_next_seq)
    then record run {
      fs = record (deliver fs fs.rx_ooo_len) { rx_ooo_len = 0 };
      rx_bump = add32 run.rx_bump fs.rx_ooo_len;
    }
    else run

-- After a delivery: drop, trim or merge the out-of-order interval.
unfoldable pub catch_up : Run → Run
catch_up run =
    let fs = run.fs in
    if fs.rx_ooo_len == 0 then run else elim (tcp_trim_rxbuf fs fs.rx_ooo_start fs.rx_ooo_len) [
      | none ↦ record run { fs = record fs { rx_ooo_len = 0 } }
      | some t ↦ merge_interval (record run { fs = trim_interval fs t })
    ]

-- In-sequence payload.
unfoldable pub seg_payload : ℕ → ℕ → Run → Run
seg_payload bytes trim_start run =
    let fs = run.fs in
    let out = copy_payload run.out fs.rx_next_pos bytes trim_start in
    if bytes == 0
    then run
    else catch_up (record run {
      fs = deliver fs bytes;
      out = record out { flags = record (out.flags) { dma_acdesc = true } };
      rx_bump = bytes;
    })

-- A FIN counts once all bytes before it are delivered. `orig_payload` is the untrimmed length.
unfoldable pub seg_fin : Pkt → ℕ → Run → Run
seg_fin pkt orig_payload run =
    let fs = run.fs in
    if pkt.fin
      && (not fs.flags.rxfin
          && ((fs.rx_next_seq == add32 pkt.seq orig_payload) && (fs.rx_ooo_len == 0)))
    then record run {
      fs = record fs {
        flags = record (fs.flags) { rxfin = true };
        rx_next_seq = add32 fs.rx_next_seq 1;
      };
      out = record (run.out) {
        flags = record (run.out.flags) { fin = true; dma_acdesc = true; tx = true };
      };
    }
    else run

-- A segment whose untrimmed part begins at the next expected byte.
unfoldable pub seg_in_sequence : Pkt → ℕ → ℕ → ℕ → Run → Run
seg_in_sequence pkt orig_payload bytes trim_start run =
    let fs = record (run.fs) { tx_next_ts = pkt.ts_val; tx_remote_avail = pkt.win } in
    let run' = record run { fs = fs } in
    if fs.flags.rxfin && not (bytes == 0)
    then run'
    else seg_fin pkt orig_payload (seg_payload bytes trim_start run')

-- An acceptable segment, once its acknowledgement is taken in.
unfoldable pub seg_trimmed : Pkt → ℕ → Trim → Run → Run
seg_trimmed pkt plen t run =
    let bytes = sub32 plen (add32 t.trim_start t.trim_end) in
    let seq = add32 pkt.seq t.trim_start in
    if seq == run.fs.rx_next_seq
    then seg_in_sequence pkt plen bytes t.trim_start run
    else seg_out_of_order seq bytes t.trim_start run

unfoldable pub seg_body : Pkt → ℕ → FlowState → Result → Run
seg_body pkt plen fs out = elim (tcp_trim_rxbuf fs pkt.seq plen) [
  | none ↦ unchanged fs out
  | some t ↦ seg_trimmed pkt plen t (seg_ack pkt fs out)
]

-- As configured (`SKIP_ACK` off), every segment is answered.
unfoldable pub seg_start : WorkIo → Result → Result
seg_start w r = record r { work = Work.rx w; flags = record no_flags { tx = true } }

unfoldable pub flows_seg : WorkIo → Pkt → FlowState → Result → FlowState × Result
flows_seg w pkt fs r =
    let run = seg_body pkt w.plen fs (seg_start w r) in
    let (fs', out) = finish (tcp_txavail fs 0) pkt run in (fs', reply pkt fs' out)
