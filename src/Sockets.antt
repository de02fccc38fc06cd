-- ===== src/Sockets.antt =====
-- The table of file descriptors in lib/sockets/manage_fd.c, with the references to sockets and epoll
-- objects. `max_sock` is the constant MAXSOCK, the size of the table.
pub mod Refs
pub mod Runs
mod Tests
use flex_toe.Prelude.{
  if◌then◌else◌, ℕ, ◌+◌, ◌-◌, ◌==◌, ◌||◌, Bool, Option, false, leb, none, not, some, true, update,
}

-- `struct filehandle`; a pointer is the id of what it points to.
pub data FdEntry : Type 0 where
  unused : FdEntry
  socket epoll : ℕ → FdEntry

-- `fhs`, and the field `refcnt` of every socket and every epoll object.
pub record FdTable : Type 0 where
  pub fhs : ℕ → FdEntry
  pub socket_refs : ℕ → ℕ
  pub epoll_refs : ℕ → ℕ

-- The entry of a descriptor, its reference counted or no more.
abbrev pub set_entry : ℕ → FdEntry → FdTable → FdTable
set_entry fd FdEntry.unused t = record t { fhs = update t.fhs fd FdEntry.unused }
set_entry fd (FdEntry.socket s) t = record t {
  fhs = update t.fhs fd (FdEntry.socket s);
  socket_refs = update t.socket_refs s (t.socket_refs s + 1);
}
set_entry fd (FdEntry.epoll e) t = record t {
  fhs = update t.fhs fd (FdEntry.epoll e);
  epoll_refs = update t.epoll_refs e (t.epoll_refs e + 1);
}

-- A counter that is not 0 goes down by one; a descriptor that is in use counts in it.
abbrev pub drop_entry : ℕ → FdEntry → FdTable → FdTable
drop_entry fd FdEntry.unused t = t
drop_entry fd (FdEntry.socket s) t = record t {
  fhs = update t.fhs fd FdEntry.unused;
  socket_refs = update t.socket_refs s (t.socket_refs s - 1);
}
drop_entry fd (FdEntry.epoll e) t = record t {
  fhs = update t.fhs fd FdEntry.unused;
  epoll_refs = update t.epoll_refs e (t.epoll_refs e - 1);
}

-- What is to be destroyed: the object of an entry without a reference.
abbrev pub dead_entry : FdEntry → FdTable → Bool
dead_entry FdEntry.unused t = false
dead_entry (FdEntry.socket s) t = t.socket_refs s == 0
dead_entry (FdEntry.epoll e) t = t.epoll_refs e == 0

-- A new socket `s`, with `fd` the descriptor that the kernel reserves; `none`: the result -1.
unfoldable pub fd_salloc : ℕ → ℕ → ℕ → FdTable → Option FdTable
fd_salloc max_sock fd s t =
    if leb max_sock fd
    then none
    else some (record t {
      fhs = update t.fhs fd (FdEntry.socket s);
      socket_refs = update t.socket_refs s 1;
    })

abbrev pub is_free_entry : FdEntry → Bool
is_free_entry FdEntry.unused = true
is_free_entry (FdEntry.socket s) = false
is_free_entry (FdEntry.epoll e) = false

-- A new epoll object; `none`: the result -1, or the assertion that the descriptor is unused fails.
unfoldable pub fd_ealloc : ℕ → ℕ → ℕ → FdTable → Option FdTable
fd_ealloc max_sock fd e t =
    if leb max_sock fd || not (is_free_entry (t.fhs fd))
    then none
    else some
        (record t { fhs = update t.fhs fd (FdEntry.epoll e); epoll_refs = update t.epoll_refs e 1 })

-- `flextcp_fd_slookup` and `flextcp_fd_elookup`.
unfoldable pub fd_lookup : ℕ → ℕ → FdTable → FdEntry
fd_lookup max_sock fd t = if leb max_sock fd then FdEntry.unused else t.fhs fd

-- `none`: the assertion fails.
unfoldable pub fd_close : ℕ → FdTable → Option FdTable
fd_close fd t = if is_free_entry (t.fhs fd) then none else some (drop_entry fd (t.fhs fd) t)

-- The table, and whether the object behind `newfd` is destroyed; `none`: the program aborts.
unfoldable pub internal_dup3 : ℕ → ℕ → ℕ → FdTable → Option (FdTable × Bool)
internal_dup3 max_sock oldfd newfd t =
    let t' = drop_entry newfd (t.fhs newfd) t in
    if leb max_sock newfd
    then none
    else some (set_entry newfd (fd_lookup max_sock oldfd t') t', dead_entry (t.fhs newfd) t')
