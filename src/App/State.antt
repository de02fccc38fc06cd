-- ===== src/App/State.antt =====
-- The state of lib/tas (lib/tas/include/tas_ll.h, lib/tas/internal.h, include/sp_app_if.h). A
-- pointer to a connection is its id. An entry of a queue is an Option, `none` where its type is the
-- invalid one; the flag words of a context and of a connection are the records of their bits.
use flex_toe.Prelude.{ℕ, Bool, Option}

-- `enum conn_state`.
pub data AppStatus : Type 0 where
  closed open_requested accept_requested opened close_requested : AppStatus

-- `struct flextcp_connection`; a buffer is its offset in the shared memory. `txeos`, `txeos_alloc`
-- and `txeos_ack` are the flags CONN_FLAG_TXEOS*.
pub record AppConn : Type 0 where
  pub rxb_base : ℕ
  pub rxb_len : ℕ
  pub rxb_head : ℕ
  pub rxb_used : ℕ
  pub rxb_bump : ℕ
  pub txb_base : ℕ
  pub txb_len : ℕ
  pub txb_head : ℕ
  pub txb_sent : ℕ
  pub txb_allocated : ℕ
  pub txb_bump : ℕ
  pub local_ip : ℕ
  pub remote_ip : ℕ
  pub local_port : ℕ
  pub remote_port : ℕ
  pub seq_rx : ℕ
  pub seq_tx : ℕ
  pub flow_id : ℕ
  pub flow_group : ℕ
  pub bump_seq : ℕ
  pub bump_next : Option ℕ
  pub bump_pending : Bool
  pub status : AppStatus
  pub txeos : Bool
  pub txeos_alloc : Bool
  pub txeos_ack : Bool
  pub rx_closed : Bool

-- A request in the queue to the slow path.
pub data SpRequest : Type 0 where
  listen_open : ℕ → ℕ → ℕ → Bool → SpRequest
  accept_conn : ℕ → ℕ → ℕ → SpRequest
  conn_open : ℕ → ℕ → ℕ → SpRequest
  conn_close : ℕ → ℕ → ℕ → ℕ → ℕ → SpRequest
  conn_move : ℕ → ℕ → ℕ → ℕ → ℕ → ℕ → SpRequest

-- An update in the queue to the NIC.
pub record AtxUpdate : Type 0 where
  pub rx_bump : ℕ
  pub tx_bump : ℕ
  pub flow_id : ℕ
  pub flow_grp : ℕ
  pub bump_seq : ℕ

-- `struct flextcp_context` with the connections that it can reach; `p_idx` is the register of the
-- NIC that says how far its queue is filled.
pub record AppContext : Type 0 where
  pub db_id : ℕ
  pub conns : ℕ → AppConn
  pub spin_len : ℕ
  pub spin_head : ℕ
  pub spin : ℕ → Option SpRequest
  pub txq_len : ℕ
  pub txq_tail : ℕ
  pub txq_avail : ℕ
  pub txq : ℕ → Option AtxUpdate
  pub p_idx : ℕ
  pub bump_pending_first : Option ℕ
  pub bump_pending_last : Option ℕ
