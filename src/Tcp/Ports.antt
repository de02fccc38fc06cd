-- ===== src/Tcp/Ports.antt =====
-- The port table of user/tcp.c: `port_alloc`, `tcp_listen` without its allocations, and
-- `listener_lookup`. A pointer to a connection or a listener is its id.
use Prim.Native.Nat.{bit_xor}
use flex_toe.Prelude.{
  if◌then◌else◌, ℕ, ◌%◌, ◌&&◌, ◌*◌, ◌++◌, ◌+◌, ◌-◌, ◌/◌, ◌==◌, ◌^◌, ◌∷◌, Bool, List, Option, [],
  false, length, ltb, none, not, some, suc, true, update, zero,
}
use flex_toe.Prelude.Words.{add64, mul64}
use flex_toe.Tcp.State.{Packet}

-- An entry of `ports`: PORT_TYPE_UNUSED, PORT_TYPE_CONN, PORT_TYPE_LISTEN, and PORT_TYPE_LMULTI with
-- the listeners of its `struct listen_multi`.
pub data Port : Type 0 where
  unused : Port
  connected : ℕ → Port
  listening : ℕ → Port
  shared : List ℕ → Port

pub record Ports : Type 0 where
  pub ports : ℕ → Port
  pub port_eph_hint : ℕ

abbrev pub port_first_eph : ℕ
port_first_eph = 8192

abbrev pub listen_multi_max : ℕ
listen_multi_max = 32

abbrev pub is_unused : Port → Bool
is_unused Port.unused = true
is_unused (Port.connected c) = false
is_unused (Port.listening l) = false
is_unused (Port.shared ls) = false

-- `p_next`, in 16 bits.
abbrev pub next_port : ℕ → ℕ
next_port p = if ltb ((p + 1) % 2 ^ 16) port_first_eph then port_first_eph else (p + 1) % 2 ^ 16

-- Still searching, nothing free (the result 0), or a port and the next hint.
pub data PortSearch : Type 0 where
  searching exhausted : PortSearch
  port : ℕ → ℕ → PortSearch

-- The loop of `port_alloc`, with fuel.
unfoldable pub port_loop : (ℕ → Port) → ℕ → ℕ → ℕ → PortSearch
port_loop ports p_start zero p = PortSearch.searching
port_loop ports p_start (suc fuel) p = elim (is_unused (ports p)) [
  | true ↦ PortSearch.port p (next_port p)
  | false ↦ elim (next_port p == p_start) [
    | true ↦ PortSearch.exhausted
    | false ↦ port_loop ports p_start fuel (next_port p)
  ]
]

unfoldable pub port_alloc : ℕ → Ports → PortSearch
port_alloc fuel t = port_loop t.ports t.port_eph_hint fuel t.port_eph_hint

-- The hint that `tcp_init` draws, from a random word.
unfoldable pub init_hint : ℕ → ℕ
init_hint random = random % (2 ^ 16 - 1 - port_first_eph)

-- The port table after `tcp_listen` by the listener `l`; `memory`: its allocations succeed.
unfoldable pub tcp_listen : Bool → ℕ → ℕ → Bool → Ports → Option Ports
tcp_listen memory l local_port reuseport t =
    let set = λ (e : Port). record t { ports = update t.ports local_port e } in
    elim (t.ports local_port) [
      | Port.unused ↦
          if memory
          then some (set (if reuseport then Port.shared (l ∷ []) else Port.listening l))
          else none
      | Port.shared ls ↦
          if reuseport && (not (length ls == listen_multi_max) && memory)
          then some (set (Port.shared (ls ++ l ∷ [])))
          else none
      | Port.connected _ ↦ none
      | Port.listening _ ↦ none
    ]

-- `hash_64_to_32`.
unfoldable pub hash_64_to_32 : ℕ → ℕ
hash_64_to_32 key =
    let k₁ = add64 (2 ^ 64 - 1 - key) (mul64 key (2 ^ 18)) in
    let k₂ = bit_xor k₁ (k₁ / 2 ^ 31) in
    let k₃ = mul64 k₂ 21 in
    let k₄ = bit_xor k₃ (k₃ / 2 ^ 11) in
    let k₅ = add64 k₄ (mul64 k₄ (2 ^ 6)) in bit_xor k₅ (k₅ / 2 ^ 22) % 2 ^ 32

abbrev pub nth : List ℕ → ℕ → Option ℕ
nth [] i = none
nth (x ∷ xs) zero = some x
nth (x ∷ xs) (suc i) = nth xs i

unfoldable pub listener_lookup : Packet → Ports → Option ℕ
listener_lookup p t = elim (t.ports p.dest_port) [
  | Port.listening l ↦ some l
  | Port.shared ls ↦
      nth ls (hash_64_to_32 (p.src_ip * 2 ^ 32 + p.src_port * 2 ^ 16 + p.dest_port) % length ls)
  | Port.unused ↦ none
  | Port.connected _ ↦ none
]
