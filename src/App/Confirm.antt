-- ===== src/App/Confirm.antt =====
-- The events of the slow path in lib/tas/init.c.
-- `struct sp_appin_conn_opened` and `struct sp_appin_accept_conn`; `status` is 0 or an error.
use flex_toe.Prelude.{if◌then◌else◌, ℕ, ◌&&◌, ◌++◌, ◌==◌, ◌||◌, ◌∷◌, Bool, List, [], false, ltb}
use flex_toe.Prelude.Words.{add32}
use flex_toe.App.Events.{AppEvent, Handled}
use flex_toe.App.State.{AppConn, AppStatus}

pub record SpOpened : Type 0 where
  pub status : ℕ
  pub rx_off : ℕ
  pub rx_len : ℕ
  pub tx_off : ℕ
  pub tx_len : ℕ
  pub seq_rx : ℕ
  pub seq_tx : ℕ
  pub flow_id : ℕ
  pub flow_group : ℕ
  pub local_ip : ℕ
  pub local_port : ℕ
  pub remote_ip : ℕ
  pub remote_port : ℕ

-- No room for the events of updates that came before the confirmation.
abbrev pub no_event_room : ℕ → AppConn → Bool
no_event_room avail c =
    (ltb 0 c.rxb_used && c.rx_closed && ltb avail 3)
    || ((ltb 0 c.rxb_used || c.rx_closed) && ltb avail 2)

-- The buffers and the flow, in both events.
abbrev pub set_flow : SpOpened → AppConn → AppConn
set_flow m c = record c {
  status = AppStatus.opened;
  local_ip = m.local_ip;
  seq_rx = if ltb 0 c.rxb_used then add32 m.seq_rx c.rxb_used else m.seq_rx;
  seq_tx = m.seq_tx;
  flow_id = m.flow_id;
  flow_group = m.flow_group;
  rxb_base = m.rx_off;
  rxb_len = m.rx_len;
  txb_base = m.tx_off;
  txb_len = m.tx_len;
}

-- The events of updates that came before.
abbrev pub injected : ℕ → AppConn → List AppEvent
injected id c =
    (if ltb 0 c.rxb_used then AppEvent.received id 0 c.rxb_used ∷ [] else [])
    ++ (if c.rx_closed then AppEvent.rxclosed id ∷ [] else [])

unfoldable pub event_kappin_conn_opened : ℕ → SpOpened → ℕ → AppConn → Handled
event_kappin_conn_opened id m avail c =
    let ev = AppEvent.conn_open id m.status in
    if m.status == 0
    then if no_event_room avail c
      then Handled.later
      else Handled.handled (record (set_flow m c) { local_port = m.local_port }) false
          (ev ∷ injected id c)
    else Handled.handled (record c { status = AppStatus.closed }) false (ev ∷ [])

unfoldable pub event_kappin_accept_conn : ℕ → SpOpened → ℕ → AppConn → Handled
event_kappin_accept_conn id m avail c =
    let ev = AppEvent.listen_accept id m.status in
    if m.status == 0
    then if no_event_room avail c
      then Handled.later
      else Handled.handled
          (record (set_flow m c) { remote_ip = m.remote_ip; remote_port = m.remote_port }) false
          (ev ∷ injected id c)
    else Handled.handled (record c { status = AppStatus.closed }) false (ev ∷ [])

-- The events that need no room of their own.
abbrev pub event_kappin_st_conn_closed : ℕ → ℕ → AppConn → Handled
event_kappin_st_conn_closed id status c =
    Handled.handled (record c { status = AppStatus.closed }) false
      (AppEvent.conn_closed id status ∷ [])

abbrev pub event_kappin_st_conn_move : ℕ → ℕ → AppEvent
event_kappin_st_conn_move id status = AppEvent.moved id status

abbrev pub event_kappin_st_listen_open : ℕ → ℕ → AppEvent
event_kappin_st_listen_open lst status = AppEvent.listen_opened lst status

abbrev pub event_kappin_listen_newconn : ℕ → ℕ → ℕ → AppEvent
event_kappin_listen_newconn lst ip port = AppEvent.listen_newconn lst ip port
