-- ===== src/Sockets/Tests.antt =====
-- Runs of the table of descriptors: a socket with two descriptors, of which one is closed.
use flex_toe.Prelude.{arith, refl, update}
use flex_toe.Sockets.{
  FdEntry, FdTable, drop_entry, fd_close, fd_lookup, fd_salloc, internal_dup3, set_entry,
}
use flex_toe.Sockets.Refs.{RefOk}
use flex_toe.Sockets.Runs.{FdReach, FdReach-RefOk, FdStep, no_fds}

abbrev table1 : FdTable
table1 = record no_fds {
  fhs = update no_fds.fhs 3 (FdEntry.socket 7);
  socket_refs = update no_fds.socket_refs 7 1;
}

abbrev table2 : FdTable
table2 = set_entry 1 (FdEntry.socket 7) table1

abbrev table3 : FdTable
table3 = drop_entry 3 (FdEntry.socket 7) table2

reach1 : FdReach 4 table1
unfolding fd_salloc
reach1 = FdReach.step_on FdReach.at_start (FdStep.salloc 3 7 refl refl refl)

reach2 : FdReach 4 table2
unfolding internal_dup3 fd_lookup
reach2 = FdReach.step_on reach1 (FdStep.dup 3 1 refl)

reach3 : FdReach 4 table3
unfolding fd_close
reach3 = FdReach.step_on reach2 (FdStep.close 3 (omega arith) refl)

FdReach-RefOk_example : RefOk 4 table3
FdReach-RefOk_example = FdReach-RefOk 4 reach3
