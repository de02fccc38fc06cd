-- ===== src/App/Wait.antt =====
-- `flextcp_context_canwait` in lib/tas/init.c, and what `flextcp_context_poll` does to its flags.
-- The flags CTX_FLAG_* of a context, and its field `last_inev_ts`.
use flex_toe.Prelude.{
  if◌then◌else◌, ℕ, ◌||◌, ◌∷◌, Bool, List, Option, [], false, ltb, none, some, true,
}
use flex_toe.Prelude.Words.{sub64}

pub record WaitState : Type 0 where
  pub poll_called : Bool
  pub poll_events : Bool
  pub wantwait : Bool
  pub lastwait : Bool
  pub last_inev_ts : ℕ

-- A poll, which may find events.
abbrev pub poll_flags : Bool → WaitState → WaitState
poll_flags found s = record s { poll_called = true; poll_events = s.poll_events || found }

-- `cycle` is `poll_cycle_app`, `none` where blocking is disabled, and `now` the time stamp counter. The
-- Boolean says that the caller may wait.
unfoldable pub canwait : Option ℕ → ℕ → WaitState → WaitState × Bool
canwait none now s = (s, false)
canwait (some cycle) now s =
    if s.poll_events
    then (record s { poll_events = false; wantwait = false; lastwait = false }, false)
    else if s.wantwait
    then if ltb cycle (sub64 now s.last_inev_ts)
      then (record s { poll_called = false; wantwait = false; lastwait = true }, false)
      else (s, false)
    else if s.lastwait
    then (s, s.poll_called)
    else if s.poll_called
    then (record s { last_inev_ts = now; wantwait = true }, false)
    else (s, false)

-- `flextcp_context_waitclear`, with what it reads from the event file left out.
abbrev pub waitclear : WaitState → WaitState
waitclear s = record s { wantwait = false; lastwait = false; poll_called = false }

-- A context as it is created, and the calls of an application, the last one first.
abbrev pub fresh_flags : WaitState
fresh_flags = record {
  poll_called = false;
  poll_events = false;
  wantwait = false;
  lastwait = false;
  last_inev_ts = 0;
}

pub data WaitOp : Type 0 where
  polled : Bool → WaitOp
  asked : ℕ → WaitOp
  cleared : WaitOp

unfoldable pub wait_run : ℕ → List WaitOp → WaitState
wait_run cycle [] = fresh_flags
wait_run cycle (WaitOp.polled found ∷ h) = poll_flags found (wait_run cycle h)
wait_run cycle (WaitOp.asked now ∷ h) = (canwait (some cycle) now (wait_run cycle h)).0
wait_run cycle (WaitOp.cleared ∷ h) = waitclear (wait_run cycle h)
