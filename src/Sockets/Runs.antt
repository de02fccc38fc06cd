-- ===== src/Sockets/Runs.antt =====
-- Sequences of the calls of lib/sockets/manage_fd.c.
-- A call. The kernel reserves a descriptor that is not in use, and the memory of a new object is not
-- that of one with references.
use flex_toe.Prelude.{
  ℕ, ◌+◌, ◌<◌, ◌||◌, ◌≡◌, Bool, Bool-cases, Option, arith, false, inl, inr, leb, none, not, refl,
  some, subst, suc, true, update, zero,
}
use flex_toe.Sockets.{
  FdEntry, FdTable, drop_entry, fd_close, fd_ealloc, fd_lookup, fd_salloc, internal_dup3,
  is_free_entry,
}
use flex_toe.Sockets.Refs.{
  RefOk, count_refs, drop_entry-RefOk, refers_epoll, refers_socket, set_entry-RefOk,
}

pub data FdStep (max_sock : ℕ) (t : FdTable) : FdTable → Type 0 where
  salloc :
      (fd s : ℕ) {t' : FdTable}
      → t.fhs fd ≡ FdEntry.unused
      → t.socket_refs s ≡ 0
      → fd_salloc max_sock fd s t ≡ some t'
      → FdStep max_sock t t'
  ealloc :
      (fd e : ℕ) {t' : FdTable}
      → t.epoll_refs e ≡ 0
      → fd_ealloc max_sock fd e t ≡ some t'
      → FdStep max_sock t t'
  close : (fd : ℕ) {t' : FdTable} → fd < max_sock → fd_close fd t ≡ some t' → FdStep max_sock t t'
  dup :
      (oldfd newfd : ℕ) {t' : FdTable} {dead : Bool}
      → internal_dup3 max_sock oldfd newfd t ≡ some (t', dead)
      → FdStep max_sock t t'

abbrev pub no_fds : FdTable
no_fds = record { fhs = λ i. FdEntry.unused; socket_refs = λ i. 0; epoll_refs = λ i. 0 }

pub data FdReach (max_sock : ℕ) : FdTable → Type 0 where
  at_start : FdReach max_sock no_fds
  step_on : {t t' : FdTable} → FdReach max_sock t → FdStep max_sock t t' → FdReach max_sock t'

set_new-RefOk :
    (n fd s : ℕ) (t : FdTable)
    → fd < n
    → t.fhs fd ≡ FdEntry.unused
    → t.socket_refs s ≡ 0
    → RefOk n t
    → RefOk n (record t {
      fhs = update t.fhs fd (FdEntry.socket s);
      socket_refs = update t.socket_refs s 1;
    })
set_new-RefOk n fd s t h e z o =
    let one : t.socket_refs s + 1 ≡ 1 = omega (arith, z) in
    subst
      (λ k. RefOk n (record t {
        fhs = update t.fhs fd (FdEntry.socket s);
        socket_refs = update t.socket_refs s k;
      }))
      one (set_entry-RefOk n fd (FdEntry.socket s) t h e o)

set_new_epoll-RefOk :
    (n fd s : ℕ) (t : FdTable)
    → fd < n
    → t.fhs fd ≡ FdEntry.unused
    → t.epoll_refs s ≡ 0
    → RefOk n t
    → RefOk n
        (record t { fhs = update t.fhs fd (FdEntry.epoll s); epoll_refs = update t.epoll_refs s 1 })
set_new_epoll-RefOk n fd s t h e z o =
    let one : t.epoll_refs s + 1 ≡ 1 = omega (arith, z) in
    subst
      (λ k. RefOk n (record t {
        fhs = update t.fhs fd (FdEntry.epoll s);
        epoll_refs = update t.epoll_refs s k;
      }))
      one (set_entry-RefOk n fd (FdEntry.epoll s) t h e o)

is_free_entry-eq : (x : FdEntry) → is_free_entry x ≡ true → x ≡ FdEntry.unused
is_free_entry-eq FdEntry.unused e = refl
is_free_entry-eq (FdEntry.socket s) e = absurd (ground (arith, e))
is_free_entry-eq (FdEntry.epoll s) e = absurd (ground (arith, e))

no_refs :
    (r : FdEntry → Bool) (n : ℕ)
    → r FdEntry.unused ≡ false
    → 0 ≡ count_refs r (λ i. FdEntry.unused) n
no_refs r zero e = refl
no_refs r (suc n) e = ground (arith, e, no_refs r n e)

-- A result, if there is one, is in order.
OkResult : ℕ → Option FdTable → Type 0
OkResult n none = Unit {0}
OkResult n (some t) = RefOk n t

OkPair : ℕ → Option (FdTable × Bool) → Type 0
OkPair n none = Unit {0}
OkPair n (some (t, dead)) = RefOk n t

module _ (n : ℕ) (t : FdTable) (o : RefOk n t) where
  salloc-RefOk :
      (fd s : ℕ) → t.fhs fd ≡ FdEntry.unused → t.socket_refs s ≡ 0 → OkResult n (fd_salloc n fd s t)
  unfolding fd_salloc OkResult
  salloc-RefOk fd s e z = elim (Bool-cases (leb n fd)) [
    | inl big ↦ rw big tt
    | inr small ↦ rw small (set_new-RefOk n fd s t (ground (arith, small)) e z o)
  ]

  ealloc-RefOk : (fd e : ℕ) → t.epoll_refs e ≡ 0 → OkResult n (fd_ealloc n fd e t)
  unfolding fd_ealloc OkResult
  ealloc-RefOk fd e z = elim (Bool-cases (leb n fd || not (is_free_entry (t.fhs fd)))) [
    | inl big ↦ rw big tt
    | inr small ↦
        let free = is_free_entry-eq (t.fhs fd) (ground (arith, small)) in
        rw small (set_new_epoll-RefOk n fd e t (ground (arith, small)) free z o)
  ]

  close-RefOk : (fd : ℕ) → fd < n → OkResult n (fd_close fd t)
  unfolding fd_close OkResult
  close-RefOk fd h = elim (Bool-cases (is_free_entry (t.fhs fd))) [
    | inl u ↦ rw u tt
    | inr u ↦ rw u (drop_entry-RefOk n fd (t.fhs fd) t h refl o).0
  ]

  dup-RefOk : (oldfd newfd : ℕ) → OkPair n (internal_dup3 n oldfd newfd t)
  unfolding internal_dup3 OkPair
  dup-RefOk oldfd newfd = elim (Bool-cases (leb n newfd)) [
    | inl big ↦ rw big tt
    | inr small ↦
        let dropped = drop_entry-RefOk n newfd (t.fhs newfd) t (ground (arith, small)) refl o in
        let t' = drop_entry newfd (t.fhs newfd) t in
        rw small (
          set_entry-RefOk n newfd (fd_lookup n oldfd t') t' (ground (arith, small)) dropped.1
            dropped.0)
  ]

-- After any calls from the empty table, the count of each socket and of each epoll object is the
-- number of descriptors that refer to it.
pub FdReach-RefOk : (max_sock : ℕ) {t : FdTable} → FdReach max_sock t → RefOk max_sock t
unfolding OkResult OkPair
FdReach-RefOk n at_start = record {
  sockets = λ s. no_refs (refers_socket s) n refl;
  epolls = λ e. no_refs (refers_epoll e) n refl;
}
FdReach-RefOk n (step_on {t} r (salloc fd s e z run)) =
    subst (OkResult n) run (salloc-RefOk n t (FdReach-RefOk n r) fd s e z)
FdReach-RefOk n (step_on {t} r (ealloc fd e z run)) =
    subst (OkResult n) run (ealloc-RefOk n t (FdReach-RefOk n r) fd e z)
FdReach-RefOk n (step_on {t} r (close fd h run)) =
    subst (OkResult n) run (close-RefOk n t (FdReach-RefOk n r) fd h)
FdReach-RefOk n (step_on {t} r (dup oldfd newfd run)) =
    subst (OkPair n) run (dup-RefOk n t (FdReach-RefOk n r) oldfd newfd)
