-- ===== src/Routing.antt =====
-- user/routing.c: the routing table of the slow path and the search for the next hop.
pub mod Hops
mod Tests
use flex_toe.Prelude.{
  if◌then◌else◌, ℕ, ◌%◌, ◌-◌, ◌==◌, ◌^◌, ◌∷◌, Bool, List, Option, [], none, some, suc, zero,
}

-- `struct config_route` (user/config.h).
pub record Route : Type 0 where
  pub ip : ℕ
  pub ip_prefix : ℕ
  pub next_hop_ip : ℕ

-- `struct routing_table_entry`, with the length of the prefix in place of its mask.
pub record Entry : Type 0 where
  pub dest_ip : ℕ
  pub dest_len : ℕ
  pub next_hop : ℕ

-- `ip & prefix_len_mask(len)`, for lengths up to 32: the low `32 - len` bits are cleared.
abbrev pub masked : ℕ → ℕ → ℕ
masked ip len = ip - ip % 2 ^ (32 - len)

abbrev pub entry_of : Route → Entry
entry_of cr = record { dest_ip = cr.ip; dest_len = cr.ip_prefix; next_hop = cr.next_hop_ip }

-- The local network.
abbrev pub local_entry : ℕ → ℕ → Entry
local_entry ip ip_prefix = record {
  dest_ip = masked ip ip_prefix;
  dest_len = ip_prefix;
  next_hop = 0;
}

-- The entries for the configured routes; `none` where a mask removes a bit.
unfoldable pub fill : List Route → Option (List Entry)
fill [] = some []
fill (cr ∷ routes) = elim (fill routes) [
  | none ↦ none
  | some rest ↦ if masked cr.ip cr.ip_prefix == cr.ip then some (entry_of cr ∷ rest) else none
]

-- `routing_init`, whose table starts with the local network. `calloc_ok`: there is memory for it.
unfoldable pub routing_init : Bool → ℕ → ℕ → List Route → Option (List Entry)
routing_init calloc_ok ip ip_prefix routes = elim (fill routes) [
  | none ↦ none
  | some rest ↦ if calloc_ok then some (local_entry ip ip_prefix ∷ rest) else none
]

-- The first entry that fits.
unfoldable pub resolve : ℕ → List Entry → Option Entry
resolve ip [] = none
resolve ip (e ∷ table) = if e.dest_ip == masked ip e.dest_len then some e else resolve ip table

-- What `routing_resolve` comes to: still looking, no route, or the address asked of `arp_request`.
pub data Outcome : Type 0 where
  looking failed : Outcome
  arp : ℕ → Outcome

-- `routing_resolve`, with fuel for its `while (1)`.
unfoldable pub routing_resolve : ℕ → List Entry → ℕ → Outcome
routing_resolve zero table ip = Outcome.looking
routing_resolve (suc fuel) table ip = elim (resolve ip table) [
  | none ↦ Outcome.failed
  | some rte ↦
      let rest = routing_resolve fuel table rte.next_hop in
      if rte.next_hop == 0 then Outcome.arp ip else rest
]
