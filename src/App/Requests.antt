-- ===== src/App/Requests.antt =====
-- The requests to the slow path in lib/tas/conn.c.
-- A request is written if the entry at the head of the queue is free; `none`: no queue space.
use flex_toe.Prelude.{
  if◌then◌else◌, ℕ, ◌+◌, ◌==◌, Bool, Option, false, leb, ltb, none, some, suc, true, update, zero,
}
use flex_toe.App.Bumps.{put_conn, set_next}
use mathlib.Core.Option
use flex_toe.App.State.{AppConn, AppContext, AppStatus, SpRequest}

abbrev pub put_request : Option SpRequest → SpRequest → AppContext → Option AppContext
put_request (some old) r ctx = none
put_request none r ctx = some record ctx {
  spin = update ctx.spin ctx.spin_head (some r);
  spin_head = if leb ctx.spin_len (ctx.spin_head + 1) then 0 else ctx.spin_head + 1;
}

abbrev pub push_request : SpRequest → AppContext → Option AppContext
push_request r ctx = put_request (ctx.spin ctx.spin_head) r ctx

-- The result of a call: the context, and whether the result is 0.
abbrev pub pushed_or : Option AppContext → AppContext → AppContext × Bool
pushed_or (some ctx') ctx = (ctx', true)
pushed_or none ctx = (ctx, false)

-- A listener has its id and its port. The only known flag is FLEXTCP_LISTEN_REUSEPORT, 1.
unfoldable pub listen_open : ℕ → ℕ → ℕ → ℕ → AppContext → AppContext × Bool
listen_open lst port backlog flags ctx =
    if ltb 1 flags
    then (ctx, false)
    else pushed_or (push_request (SpRequest.listen_open lst port backlog (flags == 1)) ctx) ctx

-- `connection_init`: every field is 0.
abbrev pub connection_init : AppConn
connection_init = record {
  rxb_base = 0;
  rxb_len = 0;
  rxb_head = 0;
  rxb_used = 0;
  rxb_bump = 0;
  txb_base = 0;
  txb_len = 0;
  txb_head = 0;
  txb_sent = 0;
  txb_allocated = 0;
  txb_bump = 0;
  local_ip = 0;
  remote_ip = 0;
  local_port = 0;
  remote_port = 0;
  seq_rx = 0;
  seq_tx = 0;
  flow_id = 0;
  flow_group = 0;
  bump_seq = 0;
  bump_next = none;
  bump_pending = false;
  status = AppStatus.closed;
  txeos = false;
  txeos_alloc = false;
  txeos_ack = false;
  rx_closed = false;
}

unfoldable pub listen_accept : ℕ → ℕ → ℕ → AppContext → AppContext × Bool
listen_accept lst port id ctx =
    let c = record connection_init { status = AppStatus.accept_requested; local_port = port } in
    let ctx' = put_conn id connection_init ctx in
    pushed_or (push_request (SpRequest.accept_conn lst id port) (put_conn id c ctx')) ctx'

unfoldable pub connection_open : ℕ → ℕ → ℕ → AppContext → AppContext × Bool
connection_open id dst_ip dst_port ctx =
    let c = record connection_init {
      status = AppStatus.open_requested;
      remote_ip = dst_ip;
      remote_port = dst_port;
    } in
    let ctx' = put_conn id connection_init ctx in
    pushed_or (push_request (SpRequest.conn_open id dst_ip dst_port) (put_conn id c ctx')) ctx'

unfoldable pub connection_move : ℕ → AppContext → AppContext × Bool
connection_move id ctx =
    let c = ctx.conns id in
    let r = SpRequest.conn_move c.local_ip c.remote_ip c.local_port c.remote_port ctx.db_id id in
    pushed_or (push_request r ctx) ctx

-- The search for the connection whose pointer leads to `id`, with fuel.
pub data Walk : Type 0 where
  at : ℕ → Walk
  not_found walking : Walk

abbrev pub leads_to : Option ℕ → ℕ → Bool
leads_to none id = false
leads_to (some p) id = p == id

unfoldable pub find_prev : ℕ → (ℕ → AppConn) → Option ℕ → ℕ → Walk
find_prev zero conns p id = Walk.walking
find_prev (suc n) conns none id = Walk.not_found
find_prev (suc n) conns (some p) id =
    let rest = find_prev n conns (conns p).bump_next id in
    if leads_to (conns p).bump_next id then Walk.at p else rest

-- The end of the list when the connection behind `prev`, with this pointer, has left it.
abbrev pub end_at : ℕ → Option ℕ → Option ℕ → Option ℕ
end_at prev none last = some prev
end_at prev (some n) last = last

-- A connection that is found behind `prev` leaves the list.
abbrev pub unlink_behind : ℕ → ℕ → AppContext → AppContext
unlink_behind prev id ctx =
    let next = (ctx.conns id).bump_next in
    record (set_next prev next ctx) { bump_pending_last = end_at prev next ctx.bump_pending_last }

abbrev pub clear_mark : ℕ → AppContext → AppContext
clear_mark id ctx = put_conn id (record (ctx.conns id) { bump_pending = false }) ctx

-- The first part of `connection_close`; `none`: the call aborts.
unfoldable pub unlink_bump : ℕ → ℕ → AppContext → Option AppContext
unlink_bump fuel id ctx =
    if (ctx.conns id).bump_pending
    then if leads_to ctx.bump_pending_first id
      then some (clear_mark id (record ctx { bump_pending_first = (ctx.conns id).bump_next }))
      else elim (find_prev fuel ctx.conns ctx.bump_pending_first id) [
        | Walk.at prev ↦ some (clear_mark id (unlink_behind prev id ctx))
        | Walk.not_found ↦ none
        | Walk.walking ↦ none
      ]
    else some ctx

-- The rest of it, once the connection is off the list.
abbrev pub request_close : ℕ → AppContext → AppContext × Bool
request_close id ctx =
    let c = ctx.conns id in
    let r = SpRequest.conn_close id c.remote_ip c.remote_port c.local_ip c.local_port in
    let closing = put_conn id (record c { status = AppStatus.close_requested }) ctx in
    pushed_or (push_request r closing) ctx

unfoldable pub connection_close : ℕ → ℕ → AppContext → Option (AppContext × Bool)
connection_close fuel id ctx = Option.map (request_close id) (unlink_bump fuel id ctx)
