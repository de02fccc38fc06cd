-- ===== src/Sockets/Refs.antt =====
-- The reference counts of lib/sockets/manage_fd.c.
use native.Mathlib.Decide.{ℕ_discrete}
use flex_toe.Prelude.{
  if◌then◌else◌, ℕ, ◌+◌, ◌<◌, ◌==◌, ◌∙◌, ◌≡◌, ◌≤◌, Bool, ap, arith, false, refl, suc, sym, update,
  update_ne, update_self, zero,
}
use flex_toe.Sockets.{FdEntry, FdTable, drop_entry, set_entry}

abbrev pub refers_socket : ℕ → FdEntry → Bool
refers_socket s FdEntry.unused = false
refers_socket s (FdEntry.socket i) = i == s
refers_socket s (FdEntry.epoll i) = false

abbrev pub refers_epoll : ℕ → FdEntry → Bool
refers_epoll e FdEntry.unused = false
refers_epoll e (FdEntry.socket i) = false
refers_epoll e (FdEntry.epoll i) = i == e

abbrev pub one_if : Bool → ℕ
one_if b = if b then 1 else 0

-- How many of the first `n` descriptors refer to an object.
abbrev pub count_refs : (FdEntry → Bool) → (ℕ → FdEntry) → ℕ → ℕ
count_refs r fhs zero = 0
count_refs r fhs (suc n) = one_if (r (fhs n)) + count_refs r fhs n

-- Each count is the number of descriptors that refer to the object.
pub record RefOk (max_sock : ℕ) (t : FdTable) : Type 0 where
  pub sockets : (s : ℕ) → t.socket_refs s ≡ count_refs (refers_socket s) t.fhs max_sock
  pub epolls : (e : ℕ) → t.epoll_refs e ≡ count_refs (refers_epoll e) t.fhs max_sock

count_refs-behind :
    (r : FdEntry → Bool) (fhs : ℕ → FdEntry) (fd n : ℕ) (x : FdEntry)
    → n ≤ fd
    → count_refs r (update fhs fd x) n ≡ count_refs r fhs n
count_refs-behind r fhs fd zero x h = refl
count_refs-behind r fhs fd (suc n) x h =
    let same = update_ne fhs fd n x (ground (arith, h)) in
    let rest = count_refs-behind r fhs fd n x (omega arith) in
    ap (λ e. one_if (r e) + count_refs r (update fhs fd x) n) same
    ∙ ap (λ k. one_if (r (fhs n)) + k) rest

-- A new entry counts instead of the old one.
pub count_refs-update :
    (r : FdEntry → Bool) (fhs : ℕ → FdEntry) (fd n : ℕ) (x : FdEntry)
    → fd < n
    → count_refs r (update fhs fd x) n + one_if (r (fhs fd)) ≡ count_refs r fhs n + one_if (r x)
count_refs-update r fhs fd zero x h = absurd (ground arith)
count_refs-update r fhs fd (suc n) x h = elim (ℕ_discrete fd n) [
  | yes q ↦
      let rest = count_refs-behind r fhs fd n x (ground (arith, q)) in
      let here : update fhs fd x n ≡ x = ap (update fhs fd x) (sym q) ∙ update_self fhs fd x in
      omega (arith, rest, ap (λ e. one_if (r e)) here, ap (λ i. one_if (r (fhs i))) q)
  | no o ↦
      let rest = count_refs-update r fhs fd n x (ground (arith, h, o)) in
      let same = update_ne fhs fd n x o in omega (arith, rest, ap (λ e. one_if (r e)) same)
]

-- An entry goes, with its reference.
pub drop_entry-RefOk :
    (max_sock fd : ℕ) (x : FdEntry) (t : FdTable)
    → fd < max_sock
    → t.fhs fd ≡ x
    → RefOk max_sock t
    → RefOk max_sock (drop_entry fd x t) × ((drop_entry fd x t).fhs fd ≡ FdEntry.unused)
drop_entry-RefOk n fd FdEntry.unused t h e o = (o, e)
drop_entry-RefOk n fd (FdEntry.socket i) t h e o = (
  record {
    sockets = λ s. ground (
      arith,
      o.sockets s,
      count_refs-update (refers_socket s) t.fhs fd n FdEntry.unused h,
      ap (λ y. one_if (refers_socket s y)) e,
    );
    epolls = λ s. omega (
      arith,
      o.epolls s,
      count_refs-update (refers_epoll s) t.fhs fd n FdEntry.unused h,
      ap (λ y. one_if (refers_epoll s y)) e,
    );
  },
  update_self t.fhs fd FdEntry.unused,
)
drop_entry-RefOk n fd (FdEntry.epoll i) t h e o = (
  record {
    sockets = λ s. omega (
      arith,
      o.sockets s,
      count_refs-update (refers_socket s) t.fhs fd n FdEntry.unused h,
      ap (λ y. one_if (refers_socket s y)) e,
    );
    epolls = λ s. ground (
      arith,
      o.epolls s,
      count_refs-update (refers_epoll s) t.fhs fd n FdEntry.unused h,
      ap (λ y. one_if (refers_epoll s y)) e,
    );
  },
  update_self t.fhs fd FdEntry.unused,
)

-- An entry comes, with a reference.
pub set_entry-RefOk :
    (max_sock fd : ℕ) (x : FdEntry) (t : FdTable)
    → fd < max_sock
    → t.fhs fd ≡ FdEntry.unused
    → RefOk max_sock t
    → RefOk max_sock (set_entry fd x t)
set_entry-RefOk n fd FdEntry.unused t h e o = record {
  sockets = λ s. omega (
    arith,
    o.sockets s,
    count_refs-update (refers_socket s) t.fhs fd n FdEntry.unused h,
    ap (λ y. one_if (refers_socket s y)) e,
  );
  epolls = λ s. omega (
    arith,
    o.epolls s,
    count_refs-update (refers_epoll s) t.fhs fd n FdEntry.unused h,
    ap (λ y. one_if (refers_epoll s y)) e,
  );
}
set_entry-RefOk n fd (FdEntry.socket i) t h e o = record {
  sockets = λ s. ground (
    arith,
    o.sockets s,
    count_refs-update (refers_socket s) t.fhs fd n (FdEntry.socket i) h,
    ap (λ y. one_if (refers_socket s y)) e,
  );
  epolls = λ s. omega (
    arith,
    o.epolls s,
    count_refs-update (refers_epoll s) t.fhs fd n (FdEntry.socket i) h,
    ap (λ y. one_if (refers_epoll s y)) e,
  );
}
set_entry-RefOk n fd (FdEntry.epoll i) t h e o = record {
  sockets = λ s. omega (
    arith,
    o.sockets s,
    count_refs-update (refers_socket s) t.fhs fd n (FdEntry.epoll i) h,
    ap (λ y. one_if (refers_socket s y)) e,
  );
  epolls = λ s. ground (
    arith,
    o.epolls s,
    count_refs-update (refers_epoll s) t.fhs fd n (FdEntry.epoll i) h,
    ap (λ y. one_if (refers_epoll s y)) e,
  );
}
