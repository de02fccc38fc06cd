-- ===== src/Tcp/Lookup.antt =====
-- The table of connections of user/tcp.c as a map from packets to connections.
use native.Mathlib.Decide.{ℕ_discrete}
use flex_toe.Prelude.{
  if◌then◌else◌, ℕ, ◌%◌, ◌∷◌, ◌≡◌, ◌≢◌, ◌⊎◌, Bool-cases, List, [], ap, arith, false, inl, inr, some,
  subst, sym, true, update, update_ne, update_self,
}
use flex_toe.Tcp.State.{Packet}
use flex_toe.Tcp.Table.{
  Endpoint, Table, bucket, conn_lookup, conn_register, conn_unregister, find_match, matches,
  tcp_htsize, unlink_entry,
}

-- The chain holds the connection, and before it none with its address.
abbrev pub Holds : Endpoint → List Endpoint → Type 0
Holds c [] = ⊥
Holds c (d ∷ cs) = (d ≡ c) ⊎ ((d.conn_id ≢ c.conn_id) × Holds c cs)

-- No entry of the chain has the connection's number.
abbrev pub Absent : Endpoint → List Endpoint → Type 0
Absent c [] = Unit {0}
Absent c (d ∷ cs) = (d.conn_id ≢ c.conn_id) × Absent c cs

-- The chain holds the connection, and no other entry has its number.
abbrev pub Once : Endpoint → List Endpoint → Type 0
Once c [] = ⊥
Once c (d ∷ cs) = ((d ≡ c) × Absent c cs) ⊎ ((d.conn_id ≢ c.conn_id) × Once c cs)

unlink-Absent :
    (c : Endpoint) (cs : List Endpoint)
    → Once c cs
    → (cs' : List Endpoint) × (unlink_entry c.conn_id cs ≡ some cs') × Absent c cs'
unfolding unlink_entry
unlink-Absent c [] h = absurd h
unlink-Absent c (d ∷ cs) (inl (e, a)) = (cs, ground arith, a)
unlink-Absent c (d ∷ cs) (inr (n, h)) =
    let (rest, e, a) = unlink-Absent c cs h in (d ∷ rest, ground (arith, e), (n, a))

-- What the search finds behind the connection that is taken out.
unlink-find_match :
    (p : Packet) (c : Endpoint) (cs : List Endpoint)
    → Holds c cs
    → matches p c ≡ false
    → (cs' : List Endpoint) × (unlink_entry c.conn_id cs ≡ some cs')
      × (find_match p cs' ≡ find_match p cs)
unfolding find_match unlink_entry
unlink-find_match p c [] h m = absurd h
unlink-find_match p c (d ∷ cs) (inl e) m = (cs, ground arith, ground arith)
unlink-find_match p c (d ∷ cs) (inr (n, h)) m =
    let (rest, e, same) = unlink-find_match p c cs h m in
    (d ∷ rest, ground (arith, e), ground (arith, same))

unlink-total :
    (c : Endpoint) (cs : List Endpoint)
    → Holds c cs
    → (cs' : List Endpoint) × (unlink_entry c.conn_id cs ≡ some cs')
unfolding unlink_entry
unlink-total c [] h = absurd h
unlink-total c (d ∷ cs) (inl e) = (cs, ground arith)
unlink-total c (d ∷ cs) (inr (n, h)) =
    let (rest, e) = unlink-total c cs h in (d ∷ rest, ground (arith, e))

module _ (hash : ℕ → ℕ → ℕ → ℕ → ℕ) where
  matches-bucket :
      (p : Packet) (c : Endpoint)
      → p.dest_ip ≡ c.local_ip
      → matches p c ≡ true
      → hash p.dest_ip p.src_ip p.dest_port p.src_port % tcp_htsize ≡ bucket hash c
  matches-bucket p c e m = ground arith

  -- A connection that is registered is found by the packets of its peer to this host: those with its
  -- remote address and both its ports. For all other packets to this host the table is as before.
  pub conn_lookup-register :
      (p : Packet) (c : Endpoint) (t : Table)
      → p.dest_ip ≡ c.local_ip
      → conn_lookup hash p (conn_register hash c t)
        ≡ (if matches p c then some c else conn_lookup hash p t)
  unfolding conn_lookup conn_register find_match
  conn_lookup-register p c t e =
      let b = hash p.dest_ip p.src_ip p.dest_port p.src_port % tcp_htsize in
      elim (Bool-cases (matches p c)) [
        | inl m ↦ ground (arith, matches-bucket p c e m)
        | inr m ↦ elim (ℕ_discrete (bucket hash c) b) [
          | yes y ↦ ground (arith, y, m, ap t y)
          | no n ↦ ground (arith, m, n)
        ]
      ]

  -- Taking out a connection that is in the table once leaves no entry with its number.
  pub unregister-Absent :
      (c : Endpoint) (t : Table)
      → Once c (t (bucket hash c))
      → (t' : Table) × (conn_unregister hash c t ≡ some t') × Absent c (t' (bucket hash c))
  unfolding conn_unregister
  unregister-Absent c t h =
      let (rest, e, a) = unlink-Absent c (t (bucket hash c)) h in
      (
        update t (bucket hash c) rest,
        ground (arith, e),
        subst (Absent c) (sym (update_self t (bucket hash c) rest)) a,
      )

  pub unregister-total :
      (c : Endpoint) (t : Table)
      → Holds c (t (bucket hash c))
      → (t' : Table) × (conn_unregister hash c t ≡ some t')
  unfolding conn_unregister
  unregister-total c t h =
      let (rest, e) = unlink-total c (t (bucket hash c)) h in
      (update t (bucket hash c) rest, ground (arith, e))

  -- Taking out a registered connection does not abort, and the packets of other peers find what they
  -- found before.
  pub conn_lookup-unregister :
      (p : Packet) (c : Endpoint) (t : Table)
      → Holds c (t (bucket hash c))
      → matches p c ≡ false
      → (t' : Table) × (conn_unregister hash c t ≡ some t')
        × (conn_lookup hash p t' ≡ conn_lookup hash p t)
  unfolding conn_lookup conn_unregister
  conn_lookup-unregister p c t h m =
      let (rest, e, same) = unlink-find_match p c (t (bucket hash c)) h m in
      let b = hash p.dest_ip p.src_ip p.dest_port p.src_port % tcp_htsize in
      (
        update t (bucket hash c) rest,
        ground (arith, e),
        elim (ℕ_discrete (bucket hash c) b) [
          | yes y ↦ ground (arith, y, same, ap t y)
          | no n ↦ ap (find_match p) (update_ne t (bucket hash c) b rest n)
        ],
      )
