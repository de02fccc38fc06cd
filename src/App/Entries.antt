-- ===== src/App/Entries.antt =====
-- Single entries of the queues that `flextcp_context_poll` reads, in lib/tas/init.c.
-- An entry gives out at least `low` events, and there is room for them.
use flex_toe.Prelude.{
  if◌then◌else◌, ℕ, ◌<◌, ◌==◌, ◌∷◌, ◌≤◌, Bool, [], arith, false, length, refl, true,
}
use flex_toe.App.Confirm.{
  event_kappin_accept_conn, event_kappin_conn_opened, injected, no_event_room,
}
use flex_toe.App.Events.{AppEvent, Handled, event_arx_connupdate}
use flex_toe.App.Poll.{ArxEntry, EntryStep, SpMessage, apply_handled, arx_event, sp_event}
use flex_toe.App.Room.{
  FitsRoom, accept_conn-FitsRoom, conn_opened-FitsRoom, event_arx_connupdate-FitsRoom,
}
use flex_toe.App.State.{AppConn, AppContext}

abbrev pub StepFits : ℕ → ℕ → EntryStep → Type 0
StepFits low n EntryStep.aborts = Unit {0}
StepFits low n EntryStep.no_room = Unit {0}
StepFits low n (EntryStep.step ctx evs) = (low ≤ length evs) × (length evs ≤ n)

abbrev pub SomeEvent : Handled → Type 0
SomeEvent Handled.assertion = Unit {0}
SomeEvent Handled.later = Unit {0}
SomeEvent (Handled.handled c marked evs) = 1 ≤ length evs

apply_handled-StepFits :
    (id n : ℕ) (h : Handled) (ctx : AppContext)
    → FitsRoom n h
    → StepFits 0 n (apply_handled id h ctx)
apply_handled-StepFits id n Handled.assertion ctx f = tt
apply_handled-StepFits id n Handled.later ctx f = tt
apply_handled-StepFits id n (Handled.handled c marked evs) ctx f = (omega arith, f)

apply_handled-some :
    (id n : ℕ) (h : Handled) (ctx : AppContext)
    → FitsRoom n h
    → SomeEvent h
    → StepFits 1 n (apply_handled id h ctx)
apply_handled-some id n Handled.assertion ctx f s = tt
apply_handled-some id n Handled.later ctx f s = tt
apply_handled-some id n (Handled.handled c marked evs) ctx f s = (s, f)

confirmed-SomeEvent :
    (id : ℕ) (c good bad : AppConn) (ev : AppEvent) (ok full : Bool)
    → SomeEvent (
        if ok
        then if full then Handled.later else Handled.handled good false (ev ∷ injected id c)
        else Handled.handled bad false (ev ∷ []))
confirmed-SomeEvent id c good bad ev true true = tt
confirmed-SomeEvent id c good bad ev true false = omega arith
confirmed-SomeEvent id c good bad ev false full = omega arith

pub sp_event-StepFits :
    (m : SpMessage) (n : ℕ) (ctx : AppContext) → 0 < n → StepFits 1 n (sp_event m n ctx)
unfolding sp_event event_kappin_conn_opened event_kappin_accept_conn
sp_event-StepFits (SpMessage.conn_opened id m) n ctx h =
    apply_handled-some id n (event_kappin_conn_opened id m n (ctx.conns id)) ctx
      (conn_opened-FitsRoom id n (ctx.conns id) h m)
      (confirmed-SomeEvent id (ctx.conns id) _ _ _ (m.status == 0) (no_event_room n (ctx.conns id)))
sp_event-StepFits (SpMessage.listen_newconn lst ip port) n ctx h = (omega arith, omega arith)
sp_event-StepFits (SpMessage.accepted_conn id m) n ctx h =
    apply_handled-some id n (event_kappin_accept_conn id m n (ctx.conns id)) ctx
      (accept_conn-FitsRoom id n (ctx.conns id) h m)
      (confirmed-SomeEvent id (ctx.conns id) _ _ _ (m.status == 0) (no_event_room n (ctx.conns id)))
sp_event-StepFits (SpMessage.status_listen_open lst status) n ctx h = (omega arith, omega arith)
sp_event-StepFits (SpMessage.status_conn_move id status) n ctx h = (omega arith, omega arith)
sp_event-StepFits (SpMessage.status_conn_close id status) n ctx h = (omega arith, omega arith)
sp_event-StepFits SpMessage.unknown n ctx h = tt

pub arx_event-StepFits :
    (m : ArxEntry) (n : ℕ) (ctx : AppContext) → StepFits 0 n (arx_event m n ctx)
unfolding arx_event
arx_event-StepFits (ArxEntry.connupdate id u) n ctx =
    apply_handled-StepFits id n (event_arx_connupdate id u n (ctx.conns id)) ctx
      (event_arx_connupdate-FitsRoom id u n (ctx.conns id) (ctx.conns id).status refl)
arx_event-StepFits ArxEntry.other n ctx = (omega arith, omega arith)
