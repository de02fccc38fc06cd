-- ===== src/App/Tests.antt =====
-- Runs of the library on small rings, and the uses of its theorems there.
use flex_toe.Prelude.{
  if◌then◌else◌, ℕ, ◌%◌, ◌*◌, ◌++◌, ◌+◌, ◌-◌, ◌==◌, ◌^◌, ◌||◌, ◌∷◌, ◌≡◌, ◌≤◌, ◌⊎◌, Bool, List, [],
  ap, arith, false, length, map, min, none, refl, some, true,
}
use flex_toe.Prelude.Rings.{ring_positions, slots_from, wrap}
use flex_toe.App.Buffers.{BufOk, Piece, tx_alloc2}
use flex_toe.App.Bumps.{conn_mark_bump, conns_bump, told, update_of}
use flex_toe.App.Close.{unlink_bump-BumpOk}
use flex_toe.App.Confirm.{SpOpened, event_kappin_accept_conn}
use flex_toe.App.Delivery.{event_arx_connupdate-reported}
use flex_toe.App.Early.{closings, conn_opened-early, updates, waiting}
use flex_toe.App.Events.{AppEvent, ArxUpdate, Handled, event_arx_connupdate}
use flex_toe.App.Full.{txq_probe-full}
use flex_toe.App.Grace.{Settled, canwait-Settled, canwait-granted}
use flex_toe.App.Marks.{conn_mark_bump-BumpOk}
use flex_toe.App.Pending.{BumpOk, member}
use flex_toe.App.Poll.{ArxEntry, PollContext, SpMessage, context_poll}
use flex_toe.App.Polls.{Within, context_poll-Within}
use flex_toe.App.Probe.{AllFree, txq_probe, txq_probe-AllFree}
use flex_toe.App.Received.{reported}
use flex_toe.App.Refill.{conns_bump-told, is_empty}
use flex_toe.App.Requests.{connection_close, connection_init, unlink_bump}
use flex_toe.App.Space.{covers, tx_alloc2-ring}
use flex_toe.App.Stale.{connection_close-stale, mark_all}
use flex_toe.App.State.{AppConn, AppContext, AppStatus}
use flex_toe.App.Unlink.{remove}
use flex_toe.App.Wait.{WaitOp, canwait, fresh_flags, wait_run}

abbrev conn0 : AppConn
conn0 = record connection_init {
  rxb_base = 100;
  rxb_len = 8;
  rxb_head = 6;
  rxb_used = 1;
  rxb_bump = 1;
  txb_base = 200;
  txb_len = 8;
  txb_head = 6;
  txb_sent = 2;
  txb_allocated = 3;
  status = AppStatus.opened;
}

conn0_ok : BufOk conn0
conn0_ok = record {
  rx_short = omega arith;
  rx_head = omega arith;
  rx_fits = omega arith;
  tx_short = omega arith;
  tx_head = omega arith;
  tx_fits = omega arith;
  no_alloc = λ e. absurd (ground (arith, e));
  alloc_eos = λ e. absurd (ground (arith, e));
  acked_eos = λ e. absurd (ground (arith, e));
}

-- Four bytes received over the end of the ring, one acknowledged, and the end of the stream.
abbrev update0 : ArxUpdate
update0 = record { rx_bump = 4; tx_bump = 1; flrxdone = true }

-- A context with connections 1 and 2 on its list, and one entry of the queue to write.
abbrev conns0 : ℕ → AppConn
conns0 i = record conn0 {
  flow_id = i;
  txb_bump = 10 + i;
  bump_next = if i == 1 then some 2 else none;
  bump_pending = (i == 1) || (i == 2);
}

abbrev context0 : AppContext
context0 = record {
  db_id = 0;
  conns = conns0;
  spin_len = 2;
  spin_head = 1;
  spin = λ i. none;
  txq_len = 4;
  txq_tail = 3;
  txq_avail = 1;
  txq = λ i. none;
  p_idx = 3;
  bump_pending_first = some 1;
  bump_pending_last = some 2;
}

context0_ok : BumpOk context0 (1 ∷ 2 ∷ [])
context0_ok = record {
  chain = (refl, (refl, refl));
  last = refl;
  distinct = (refl, (refl, tt));
  marked = λ i. ground arith;
}

-- The same with connection 1 alone.
abbrev context1 : AppContext
context1 = record context0 {
  conns = λ i. record (conns0 i) { bump_next = none; bump_pending = i == 1 };
  bump_pending_last = some 1;
}

context1_ok : BumpOk context1 (1 ∷ [])
context1_ok = record {
  chain = (refl, refl);
  last = refl;
  distinct = (refl, tt);
  marked = λ i. ground arith;
}

-- And with a queue of two entries that the NIC has emptied.
abbrev context2 : AppContext
context2 = record context0 { txq_len = 2; txq_tail = 1; txq_avail = 0; p_idx = 1 }

context2_ok : BumpOk context2 (1 ∷ 2 ∷ [])
context2_ok = record {
  chain = (refl, (refl, refl));
  last = refl;
  distinct = (refl, (refl, tt));
  marked = λ i. ground arith;
}

abbrev opened0 : SpOpened
opened0 = record {
  status = 0;
  rx_off = 100;
  rx_len = 8;
  tx_off = 200;
  tx_len = 8;
  seq_rx = 4294967295;
  seq_tx = 7;
  flow_id = 3;
  flow_group = 1;
  local_ip = 10;
  local_port = 20;
  remote_ip = 30;
  remote_port = 40;
}

abbrev early0 : ArxUpdate
early0 = record { rx_bump = 5; tx_bump = 0; flrxdone = true }

-- A context with a confirmation from the slow path and an update from the NIC.
abbrev polls0 : PollContext
polls0 = record {
  app = record context0 {
    conns = λ i.
        if i == 4 then record connection_init { status = AppStatus.open_requested } else conns0 i;
  };
  spout_len = 2;
  spout_head = 1;
  spout = λ i. if i == 1 then some (SpMessage.conn_opened 4 opened0) else none;
  rxq_len = 2;
  rxq_head = 0;
  rxq = λ i. if i == 0 then some (ArxEntry.connupdate 2 update0) else none;
  c_idx = 0;
  flags = fresh_flags;
}

abbrev calls0 : List WaitOp
calls0 = WaitOp.polled false ∷ WaitOp.asked 9 ∷ WaitOp.asked 2 ∷ WaitOp.polled false ∷ []

event_arx_connupdate-reported_example :
    (conn0' : AppConn) × (marked : Bool) × (evs : List AppEvent) × (event_arx_connupdate 1 update0 4
        conn0
      ≡ Handled.handled conn0' marked evs)
    × (reported evs ≡ ring_positions conn0.rxb_len conn0.rxb_head update0.rx_bump)
    × (conn0'.rxb_used ≡ conn0.rxb_used + update0.rx_bump)
    × (length evs ≤ 4)
    × BufOk conn0'
event_arx_connupdate-reported_example =
    event_arx_connupdate-reported 1 update0 4 conn0 conn0_ok
      (record { rx = omega arith; tx = omega arith }) refl (omega arith)

tx_alloc2-ring_example :
    (conn0' : AppConn) × (p : Piece) × (q : Piece) × (tx_alloc2 5 conn0 ≡ some (conn0', p, q))
    × (conn0'.txb_allocated
        ≡ conn0.txb_allocated + min (conn0.txb_len - conn0.txb_sent - conn0.txb_allocated) 5)
    × (covers p ++ covers q
        ≡ ring_positions conn0.txb_len
            (wrap conn0.txb_len (conn0.txb_head + conn0.txb_allocated))
            (min (conn0.txb_len - conn0.txb_sent - conn0.txb_allocated) 5))
    × BufOk conn0'
tx_alloc2-ring_example = tx_alloc2-ring conn0 conn0_ok 5 refl

conns_bump-told_example :
    (after : AppContext) × (now : List ℕ) × (later : List ℕ) × (conns_bump context0 ≡ some after)
    × ((1 ∷ 2 ∷ []) ≡ now ++ later)
    × (after.txq_avail + length now ≡ context0.txq_avail)
    × ((later ≡ []) ⊎ (after.txq_avail ≡ 0))
    × (slots_from after.txq context0.txq_len context0.txq_tail (length now)
        ≡ map (λ i. some (update_of (context0.conns i))) now)
    × ((i : ℕ)
        → after.conns i ≡ (if member i now then told (context0.conns i) else context0.conns i))
    × BumpOk after later
    × (after.p_idx ≡ (
        if is_empty now
        then context0.p_idx
        else wrap context0.txq_len (context0.txq_tail + length now) % 2 ^ 16))
conns_bump-told_example =
    conns_bump-told context0 (1 ∷ 2 ∷ []) context0_ok (λ i m. refl) (omega arith) (omega arith)

conn_mark_bump-BumpOk_example :
    BumpOk
      (conn_mark_bump 3 context0)
      (if member 3 (1 ∷ 2 ∷ []) then (1 ∷ 2 ∷ []) else (1 ∷ 2 ∷ []) ++ 3 ∷ [])
conn_mark_bump-BumpOk_example = conn_mark_bump-BumpOk 3 context0 (1 ∷ 2 ∷ []) context0_ok

unlink_bump-BumpOk_example :
    (context0' : AppContext) × (unlink_bump 2 2 context0 ≡ some context0')
    × BumpOk context0' (remove 2 (1 ∷ 2 ∷ []))
unlink_bump-BumpOk_example =
    unlink_bump-BumpOk 2 2 context0 (1 ∷ 2 ∷ []) context0_ok
      (λ e. absurd (ground (arith, ap length e))) (omega arith)

connection_close-stale_example :
    (context1' : AppContext) × (ok : Bool) × (connection_close 1 1 context1 ≡ some (context1', ok))
    × ((i : ℕ) → ((mark_all (2 ∷ 3 ∷ []) context1').conns i).bump_pending ≡ member i (2 ∷ 3 ∷ []))
    × (conns_bump (mark_all (2 ∷ 3 ∷ []) context1') ≡ some (mark_all (2 ∷ 3 ∷ []) context1'))
connection_close-stale_example = connection_close-stale 1 1 context1 (2 ∷ 3 ∷ []) context1_ok

txq_probe-AllFree_example :
    (k : ℕ) × (txq_probe 1 context0 ≡ record context0 { txq_avail = context0.txq_avail + k })
    × AllFree context0.txq context0.txq_len
        (wrap context0.txq_len (context0.txq_tail + context0.txq_avail))
        (k + 1)
    × (k ≤ 2 * 1)
    × (context0.txq_avail + k ≤ context0.txq_len)
txq_probe-AllFree_example = txq_probe-AllFree 1 context0 (omega arith) (omega arith) refl

txq_probe-full_example :
    (after : AppContext) × (conns_bump (txq_probe 1 context2) ≡ some after)
    × (slots_from after.txq context2.txq_len context2.txq_tail context2.txq_len
        ≡ map (λ i. some (update_of (context2.conns i))) (1 ∷ 2 ∷ []))
    × (after.txq_avail ≡ 0)
    × (after.p_idx ≡ context2.p_idx)
txq_probe-full_example =
    txq_probe-full 1 context2 (1 ∷ 2 ∷ []) context2_ok (λ i m. refl) (λ j. refl) (omega arith)
      (omega arith) (omega arith) refl refl

-- A connection that is accepted, and two updates before that.
abbrev early_updates : List ArxUpdate
early_updates = record early0 { rx_bump = 2; flrxdone = false } ∷ (early0 ∷ [])

conn_opened-early_example :
    let n = 2 + early0.rx_bump in
    (c1 : AppConn) × (c2 : AppConn) × (evs : List AppEvent) × (updates 1 3 early_updates
        (waiting AppStatus.accept_requested 30 40 80 false 0)
      ≡ Handled.handled c1 false [])
    × (event_kappin_accept_conn 1 opened0 3 c1
        ≡ Handled.handled c2 false (AppEvent.listen_accept 1 0 ∷ evs))
    × (reported evs ≡ ring_positions opened0.rx_len 0 n)
    × (closings evs ≡ 1)
    × (c2.rxb_used ≡ n)
    × (c2.seq_rx % 2 ^ 32 ≡ (opened0.seq_rx + n) % 2 ^ 32)
    × (c2.rx_closed ≡ true)
    × (c2.status ≡ AppStatus.opened)
    × BufOk c2
conn_opened-early_example =
    conn_opened-early true 1 3 3 40 30 80 opened0 early_updates (refl, (refl, tt)) (omega arith)
      (omega arith) (omega arith) (omega arith) refl (omega arith)

context_poll-Within_example : Within 6 (context_poll 6 polls0)
context_poll-Within_example = context_poll-Within 6 polls0 (omega arith)

canwait-Settled_example : Settled 5 calls0
unfolding canwait wait_run
canwait-Settled_example = canwait-Settled 5 12 calls0 refl

canwait-granted_example :
    (canwait (some 5) 31 (
      wait_run 5 (
        WaitOp.polled false
        ∷ WaitOp.asked 30
        ∷ WaitOp.asked 20
        ∷ WaitOp.polled false
        ∷ (WaitOp.asked 19 ∷ calls0)))).1
    ≡ true
canwait-granted_example =
    canwait-granted 5 19 20 30 31 calls0 (omega arith) (omega arith) (omega arith) (omega arith)
