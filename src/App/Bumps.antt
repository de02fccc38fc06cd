-- ===== src/App/Bumps.antt =====
-- The list of connections with news for the NIC, in lib/tas/conn.c and lib/tas/init.c, and the calls
-- of an application that put a connection on it.
use flex_toe.Prelude.{
  if◌then◌else◌, ℕ, ◌%◌, ◌+◌, ◌-◌, ◌==◌, ◌^◌, Bool, Option, false, none, some, suc, true, update,
  zero,
}
use flex_toe.Prelude.Rings.{wrap}
use flex_toe.Prelude.Words.{add32}
use flex_toe.App.Buffers.{Pushed, rx_freed, sent, tx_close}
use flex_toe.App.State.{AppConn, AppContext, AppStatus, AtxUpdate}

abbrev pub put_conn : ℕ → AppConn → AppContext → AppContext
put_conn id c ctx = record ctx { conns = update ctx.conns id c }

-- The field `bump_next` of a connection.
abbrev pub set_next : ℕ → Option ℕ → AppContext → AppContext
set_next id next ctx = put_conn id (record (ctx.conns id) { bump_next = next }) ctx

-- A connection that gets its mark and becomes the last of the list.
abbrev pub mark : ℕ → AppContext → AppContext
mark id ctx =
    record (put_conn id (record (ctx.conns id) { bump_next = none; bump_pending = true }) ctx) {
      bump_pending_last = some id;
    }

unfoldable pub conn_mark_bump : ℕ → AppContext → AppContext
conn_mark_bump id ctx = if (ctx.conns id).bump_pending then ctx else elim ctx.bump_pending_last [
  | some prev ↦ set_next prev (some id) (mark id ctx)
  | none ↦ record (mark id ctx) { bump_pending_first = some id }
]

-- The calls of an application; the Boolean says whether the result is 0, and `none` that an
-- assertion fails.
unfoldable pub tx_send : ℕ → ℕ → AppContext → AppContext × Bool
tx_send len id ctx = elim (sent len (ctx.conns id)) [
  | none ↦ (ctx, false)
  | some c ↦ (conn_mark_bump id (put_conn id c ctx), true)
]

unfoldable pub rx_done : ℕ → ℕ → AppContext → AppContext × Bool
rx_done len id ctx = elim (rx_freed len (ctx.conns id)) [
  | none ↦ (ctx, false)
  | some (c, tell) ↦
      let ctx' = put_conn id c ctx in (if tell then conn_mark_bump id ctx' else ctx', true)
]

unfoldable pub connection_tx_close : ℕ → AppContext → Option (AppContext × Bool)
connection_tx_close id ctx = elim (tx_close (ctx.conns id)) [
  | none ↦ some (ctx, false)
  | some (c, Pushed.assertion) ↦ none
  | some (c, Pushed.no_room) ↦ some (put_conn id c ctx, true)
  | some (c, Pushed.pushed c') ↦ some (conn_mark_bump id (put_conn id c' ctx), true)
]

-- The update that tells the NIC about a connection, and the connection once it is told.
abbrev pub update_of : AppConn → AtxUpdate
update_of c = record {
  rx_bump = c.rxb_bump;
  tx_bump = c.txb_bump;
  flow_id = c.flow_id;
  flow_grp = c.flow_group;
  bump_seq = c.bump_seq % 2 ^ 16;
}

abbrev pub told : AppConn → AppConn
told c = record c {
  rxb_bump = 0;
  txb_bump = 0;
  bump_pending = false;
  bump_seq = add32 c.bump_seq 1;
}

-- `flextcp_context_tx_alloc` with an entry to write, when the queue is not full.
abbrev pub push_atx : AtxUpdate → AppContext → AppContext
push_atx u ctx = record ctx {
  txq = update ctx.txq ctx.txq_tail (some u);
  txq_tail = wrap ctx.txq_len (ctx.txq_tail + 1);
  txq_avail = ctx.txq_avail - 1;
}

abbrev pub is_opened : AppStatus → Bool
is_opened AppStatus.opened = true
is_opened AppStatus.closed = false
is_opened AppStatus.open_requested = false
is_opened AppStatus.accept_requested = false
is_opened AppStatus.close_requested = false

-- The first of the list is told, and leaves it.
abbrev pub bump_first : ℕ → AppContext → AppContext
bump_first id ctx =
    let c = ctx.conns id in
    let last : Option ℕ = elim c.bump_next [ none ↦ none | some next ↦ ctx.bump_pending_last ] in
    record (put_conn id (told c) (push_atx (update_of c) ctx)) {
      bump_pending_first = c.bump_next;
      bump_pending_last = last;
    }

-- The loop of `conns_bump`, with as many rounds as entries are free; `none`: an assertion fails.
unfoldable pub bump_loop : ℕ → AppContext → Option AppContext
bump_loop zero ctx = elim ctx.bump_pending_first [
  | none ↦ some ctx
  | some id ↦ if is_opened (ctx.conns id).status then some ctx else none
]
bump_loop (suc n) ctx = elim ctx.bump_pending_first [
  | none ↦ some ctx
  | some id ↦ elim (is_opened (ctx.conns id).status) [
    | true ↦ bump_loop n (bump_first id ctx)
    | false ↦ none
  ]
]

-- `flextcp_context_tx_done`.
abbrev pub tx_done : AppContext → AppContext
tx_done ctx = record ctx { p_idx = ctx.txq_tail % 2 ^ 16 }

unfoldable pub conns_bump : AppContext → Option AppContext
conns_bump ctx = elim (bump_loop ctx.txq_avail ctx) [
  | none ↦ none
  | some ctx' ↦ some (if ctx'.txq_avail == ctx.txq_avail then ctx' else tx_done ctx')
]
