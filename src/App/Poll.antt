-- ===== src/App/Poll.antt =====
-- The polling loops of lib/tas/init.c.
-- An entry of the queue from the slow path; `unknown` is an unexpected type.
use flex_toe.Prelude.{
  if◌then◌else◌, ℕ, ◌++◌, ◌+◌, ◌-◌, ◌==◌, ◌∷◌, Bool, List, Option, [], false, leb, length, ltb,
  none, some, suc, true, update, zero,
}
use flex_toe.Prelude.Rings.{wrap}
use flex_toe.App.Bumps.{conn_mark_bump, conns_bump, put_conn}
use flex_toe.App.Confirm.{
  SpOpened, event_kappin_accept_conn, event_kappin_conn_opened, event_kappin_listen_newconn,
  event_kappin_st_conn_closed, event_kappin_st_conn_move, event_kappin_st_listen_open,
}
use flex_toe.App.Events.{AppEvent, ArxUpdate, Handled, event_arx_connupdate}
use flex_toe.App.Probe.{txq_probe}
use flex_toe.App.State.{AppContext}
use flex_toe.App.Wait.{WaitState}

pub data SpMessage : Type 0 where
  conn_opened : ℕ → SpOpened → SpMessage
  listen_newconn : ℕ → ℕ → ℕ → SpMessage
  accepted_conn : ℕ → SpOpened → SpMessage
  status_listen_open status_conn_move status_conn_close : ℕ → ℕ → SpMessage
  unknown : SpMessage

-- An entry of the queue from the NIC.
pub data ArxEntry : Type 0 where
  connupdate : ℕ → ArxUpdate → ArxEntry
  other : ArxEntry

-- A context with its two queues of events. `c_idx` is the register of the NIC that says how far the
-- second is read.
pub record PollContext : Type 0 where
  pub app : AppContext
  pub spout_len : ℕ
  pub spout_head : ℕ
  pub spout : ℕ → Option SpMessage
  pub rxq_len : ℕ
  pub rxq_head : ℕ
  pub rxq : ℕ → Option ArxEntry
  pub c_idx : ℕ
  pub flags : WaitState

-- One entry: the program aborts, there is no room for its events, or it is handled.
pub data EntryStep : Type 0 where
  aborts no_room : EntryStep
  step : AppContext → List AppEvent → EntryStep

abbrev pub apply_handled : ℕ → Handled → AppContext → EntryStep
apply_handled id Handled.assertion ctx = EntryStep.aborts
apply_handled id Handled.later ctx = EntryStep.no_room
apply_handled id (Handled.handled c marked evs) ctx =
    let ctx' = put_conn id c ctx in
    EntryStep.step (if marked then conn_mark_bump id ctx' else ctx') evs

-- The handler of an entry, with room for `avail` events.
unfoldable pub sp_event : SpMessage → ℕ → AppContext → EntryStep
sp_event (SpMessage.conn_opened id m) avail ctx =
    apply_handled id (event_kappin_conn_opened id m avail (ctx.conns id)) ctx
sp_event (SpMessage.listen_newconn lst ip port) avail ctx =
    EntryStep.step ctx (event_kappin_listen_newconn lst ip port ∷ [])
sp_event (SpMessage.accepted_conn id m) avail ctx =
    apply_handled id (event_kappin_accept_conn id m avail (ctx.conns id)) ctx
sp_event (SpMessage.status_listen_open lst status) avail ctx =
    EntryStep.step ctx (event_kappin_st_listen_open lst status ∷ [])
sp_event (SpMessage.status_conn_move id status) avail ctx =
    EntryStep.step ctx (event_kappin_st_conn_move id status ∷ [])
sp_event (SpMessage.status_conn_close id status) avail ctx =
    apply_handled id (event_kappin_st_conn_closed id status (ctx.conns id)) ctx
sp_event SpMessage.unknown avail ctx = EntryStep.aborts

unfoldable pub arx_event : ArxEntry → ℕ → AppContext → EntryStep
arx_event (ArxEntry.connupdate id u) avail ctx =
    apply_handled id (event_arx_connupdate id u avail (ctx.conns id)) ctx
arx_event ArxEntry.other avail ctx = EntryStep.step ctx []

-- The result of a loop: the program aborts, the fuel ends, or the context, the events and
-- whether there was no room for more.
pub data PollResult : Type 0 where
  aborted still : PollResult
  polled : PollContext → List AppEvent → Bool → PollResult

abbrev pub found_events : PollContext → PollContext
found_events p = record p { flags = record p.flags { poll_events = true } }

-- An entry that is handled is free, and the next one is at the head.
abbrev pub sp_next : AppContext → PollContext → PollContext
sp_next ctx p = record (found_events p) {
  app = ctx;
  spout = update p.spout p.spout_head none;
  spout_head = if leb p.spout_len (p.spout_head + 1) then 0 else p.spout_head + 1;
}

abbrev pub arx_next : AppContext → PollContext → PollContext
arx_next ctx p = record (found_events p) {
  app = ctx;
  rxq = update p.rxq p.rxq_head none;
  rxq_head = wrap p.rxq_len (p.rxq_head + 1);
}

unfoldable pub sp_loop : ℕ → ℕ → List AppEvent → PollContext → PollResult
sp_loop zero num evs p = PollResult.still
sp_loop (suc n) num evs p = elim (ltb (length evs) num) [
  | false ↦ PollResult.polled p evs false
  | true ↦ elim (p.spout p.spout_head) [
    | none ↦ PollResult.polled p evs false
    | some m ↦ elim (sp_event m (num - length evs) p.app) [
      | EntryStep.aborts ↦ PollResult.aborted
      | EntryStep.no_room ↦ PollResult.polled (found_events p) evs true
      | EntryStep.step ctx new ↦ sp_loop n num (evs ++ new) (sp_next ctx p)
    ]
  ]
]

unfoldable pub arx_loop : ℕ → ℕ → List AppEvent → PollContext → PollResult
arx_loop zero num evs p = PollResult.still
arx_loop (suc n) num evs p = elim (ltb (length evs) num) [
  | false ↦ PollResult.polled p evs false
  | true ↦ elim (p.rxq p.rxq_head) [
    | none ↦ PollResult.polled p evs false
    | some m ↦ elim (arx_event m (num - length evs) p.app) [
      | EntryStep.aborts ↦ PollResult.aborted
      | EntryStep.no_room ↦ PollResult.polled (found_events p) evs true
      | EntryStep.step ctx new ↦ arx_loop n num (evs ++ new) (arx_next ctx p)
    ]
  ]
]

-- The register is written if the head has moved.
abbrev pub release : ℕ → PollContext → PollContext
release head p = if p.rxq_head == head then p else record p { c_idx = p.rxq_head }

-- After the polls: free entries of the queue to the NIC, and the news for it.
abbrev pub poll_end : ℕ → ℕ → PollContext → List AppEvent → PollResult
poll_end num head p evs = elim (conns_bump (txq_probe num p.app)) [
  | none ↦ PollResult.aborted
  | some ctx ↦ PollResult.polled (record (release head p) { app = ctx }) evs false
]

-- `fastpath_poll` goes on behind the events of `sp_poll`, unless these left no room. A round for each
-- event asked for, and for each entry of the second queue, and one more.
unfoldable pub context_poll : ℕ → PollContext → PollResult
context_poll num p =
    let called = record p { flags = record p.flags { poll_called = true } } in
    elim (sp_loop (suc num) num [] called) [
      | PollResult.aborted ↦ PollResult.aborted
      | PollResult.still ↦ PollResult.still
      | PollResult.polled p' evs true ↦ PollResult.polled p' evs true
      | PollResult.polled p' evs false ↦ elim (arx_loop (suc p'.rxq_len) num evs p') [
        | PollResult.aborted ↦ PollResult.aborted
        | PollResult.still ↦ PollResult.still
        | PollResult.polled p'' evs' out ↦ poll_end num p'.rxq_head p'' evs'
      ]
    ]
