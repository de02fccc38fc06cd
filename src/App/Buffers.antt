-- ===== src/App/Buffers.antt =====
-- The buffers of a connection in lib/tas/conn.c. Lengths are 32-bit numbers, and `len` of a call is
-- the application's. What a call changes beside the connection is in App/Bumps.
use flex_toe.Prelude.{
  if◌then◌else◌, ℕ, ◌+◌, ◌-◌, ◌/◌, ◌<◌, ◌==◌, ◌^◌, ◌||◌, ◌≡◌, ◌≤◌, Bool, Option, ltb, min, none,
  not, some, true,
}
use flex_toe.Prelude.Rings.{wrap}
use flex_toe.Prelude.Words.{add32, sub32}
use flex_toe.App.State.{AppConn}

abbrev pub conn_tx_allocbytes : AppConn → ℕ
conn_tx_allocbytes c = sub32 (sub32 c.txb_len c.txb_sent) c.txb_allocated

abbrev pub conn_tx_sendbytes : AppConn → ℕ
conn_tx_sendbytes c = c.txb_allocated

-- The position at which allocation goes on.
abbrev pub alloc_head : AppConn → ℕ
alloc_head c = wrap c.txb_len (add32 c.txb_head c.txb_allocated)

-- A piece of a buffer: offset and length.
pub record Piece : Type 0 where
  pub off : ℕ
  pub len : ℕ

-- `flextcp_connection_tx_alloc`; `none` is the result -1.
unfoldable pub tx_alloc : ℕ → AppConn → Option (AppConn × Piece)
tx_alloc len c =
    let head = alloc_head c in
    let fits = min (conn_tx_allocbytes c) len in
    let short = if ltb c.txb_len (head + fits) then c.txb_len - head else fits in
    if c.txeos
    then none
    else some (
      record c { txb_allocated = add32 c.txb_allocated short },
      record { off = head; len = short },
    )

-- `flextcp_connection_tx_alloc2`: the pieces, the second empty where there is none.
unfoldable pub tx_alloc2 : ℕ → AppConn → Option (AppConn × Piece × Piece)
tx_alloc2 len c =
    let head = alloc_head c in
    let fits = min (conn_tx_allocbytes c) len in
    let more = record c { txb_allocated = add32 c.txb_allocated fits } in
    let one : Piece = record { off = head; len = fits } in
    let none_left : Piece = record { off = 0; len = 0 } in
    let first : Piece = record { off = head; len = c.txb_len - head } in
    let second : Piece = record { off = 0; len = fits - (c.txb_len - head) } in
    if c.txeos
    then none
    else if ltb c.txb_len (head + fits)
    then some (more, first, second)
    else some (more, one, none_left)

-- The connection after `flextcp_connection_tx_send`, but for the bump queue; `none`: the result -1.
unfoldable pub sent : ℕ → AppConn → Option AppConn
sent len c =
    let next_head = add32 c.txb_head len in
    if ltb (conn_tx_sendbytes c) len
    then none
    else some (record c {
      txb_allocated = sub32 c.txb_allocated len;
      txb_sent = add32 c.txb_sent len;
      txb_head = wrap c.txb_len next_head;
      txb_bump = add32 c.txb_bump len;
    })

-- The connection after `flextcp_connection_rx_done`, and whether the NIC is told.
unfoldable pub rx_freed : ℕ → AppConn → Option (AppConn × Bool)
rx_freed len c =
    let c' = record c { rxb_used = sub32 c.rxb_used len; rxb_bump = add32 c.rxb_bump len } in
    if ltb c.rxb_used len then none else some (c', ltb (c.rxb_len / 4) c'.rxb_bump)

-- What `flextcp_conn_pushtxeos` comes to: an assertion fails, -1, or 0.
pub data Pushed : Type 0 where
  assertion no_room : Pushed
  pushed : AppConn → Pushed

unfoldable pub push_txeos : AppConn → Pushed
push_txeos c =
    if not (conn_tx_sendbytes c == 0) || not c.txeos
    then Pushed.assertion
    else if conn_tx_allocbytes c == 0
    then Pushed.no_room
    else Pushed.pushed (record c {
      txb_sent = add32 c.txb_sent 1;
      txb_head = wrap c.txb_len (add32 c.txb_head 1);
      txeos_alloc = true;
      txb_bump = add32 c.txb_bump 1;
    })

-- `flextcp_connection_tx_close`: -1, or the connection and what pushing the end came to.
unfoldable pub tx_close : AppConn → Option (AppConn × Pushed)
tx_close c =
    let c' = record c { txeos = true } in
    if ltb 0 (conn_tx_sendbytes c) || c.txeos then none else some (c', push_txeos c')

-- Short buffers, with both heads in them and no more in them than fits; the end of the stream has a
-- place only once it is wanted, nothing is allocated behind it, and it is acknowledged last.
pub record BufOk (c : AppConn) : Type 0 where
  pub rx_short : c.rxb_len ≤ 2 ^ 31
  pub rx_head : c.rxb_head < c.rxb_len
  pub rx_fits : c.rxb_used ≤ c.rxb_len
  pub tx_short : c.txb_len ≤ 2 ^ 31
  pub tx_head : c.txb_head < c.txb_len
  pub tx_fits : c.txb_sent + c.txb_allocated ≤ c.txb_len
  pub no_alloc : c.txeos ≡ true → c.txb_allocated ≡ 0
  pub alloc_eos : c.txeos_alloc ≡ true → c.txeos ≡ true
  pub acked_eos : c.txeos_ack ≡ true → (c.txeos_alloc ≡ true) × (c.txb_sent ≡ 0)
