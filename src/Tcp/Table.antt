-- ===== src/Tcp/Table.antt =====
-- The hash table of connections in user/tcp.c. The hash of include/rte, a library, is a parameter.
use flex_toe.Prelude.{
  if◌then◌else◌, ℕ, ◌%◌, ◌&&◌, ◌==◌, ◌∷◌, Bool, List, Option, [], none, some, update,
}
use flex_toe.Tcp.State.{Packet}

abbrev pub tcp_htsize : ℕ
tcp_htsize = 4096

-- The address of a connection, `conn_id`, and the fields that the table reads; they do not change
-- while the connection is in it.
pub record Endpoint : Type 0 where
  pub conn_id : ℕ
  pub local_ip : ℕ
  pub remote_ip : ℕ
  pub local_port : ℕ
  pub remote_port : ℕ

-- `tcp_hashtable`: for each bucket the chain along `ht_next`.
abbrev pub Table : Type 0
Table = ℕ → List Endpoint

-- The test of `conn_lookup`.
abbrev pub matches : Packet → Endpoint → Bool
matches p c =
    (p.src_ip == c.remote_ip) && ((p.dest_port == c.local_port) && (p.src_port == c.remote_port))

unfoldable pub find_match : Packet → List Endpoint → Option Endpoint
find_match p [] = none
find_match p (c ∷ cs) = if matches p c then some c else find_match p cs

-- The chain without a connection; `none` when it is not there.
unfoldable pub unlink_entry : ℕ → List Endpoint → Option (List Endpoint)
unlink_entry id [] = none
unlink_entry id (c ∷ cs) =
    if c.conn_id == id
    then some cs
    else elim (unlink_entry id cs) [ none ↦ none | some rest ↦ some (c ∷ rest) ]

-- `hash`: the value of `crc32c` on both addresses and both ports.
module _ (hash : ℕ → ℕ → ℕ → ℕ → ℕ) where
  abbrev pub bucket : Endpoint → ℕ
  bucket c = hash c.local_ip c.remote_ip c.local_port c.remote_port % tcp_htsize

  unfoldable pub conn_register : Endpoint → Table → Table
  conn_register c t = update t (bucket c) (c ∷ t (bucket c))

  -- `none`: the program aborts.
  unfoldable pub conn_unregister : Endpoint → Table → Option Table
  conn_unregister c t = elim (unlink_entry c.conn_id (t (bucket c))) [
    | none ↦ none
    | some rest ↦ some (update t (bucket c) rest)
  ]

  unfoldable pub conn_lookup : Packet → Table → Option Endpoint
  conn_lookup p t = find_match p (t (hash p.dest_ip p.src_ip p.dest_port p.src_port % tcp_htsize))
