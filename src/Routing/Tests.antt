-- ===== src/Routing/Tests.antt =====
-- Runs of user/routing.c: the network 10.0.0.0/24 and a default route.
use flex_toe.Prelude.{ℕ, ◌*◌, ◌+◌, ◌^◌, ◌∷◌, ◌≡◌, List, [], inr, refl, some, true}
use flex_toe.Routing.{
  Entry, Route, entry_of, fill, local_entry, resolve, routing_init, routing_resolve,
}
use flex_toe.Routing.Hops.{Near, one_hop, routing_resolve-one_hop}

abbrev host : ℕ
host = 10 * 2 ^ 24 + 7

abbrev far : ℕ
far = 192 * 2 ^ 24 + 5

-- By a gateway of the network, and by one outside.
abbrev default_route : ℕ → Route
default_route gateway = record { ip = 0; ip_prefix = 0; next_hop_ip = gateway }

abbrev table_of : ℕ → List Entry
table_of gateway = local_entry host 24 ∷ entry_of (default_route gateway) ∷ []

table_run : routing_init true host 24 (default_route (host + 1) ∷ []) ≡ some (table_of (host + 1))
unfolding routing_init fill
table_run = refl

gateway-Near : Near host 24 (default_route (host + 1) ∷ [])
unfolding Near
gateway-Near = (inr refl, tt)

routing_resolve-one_hop_example :
    routing_resolve 2 (table_of (host + 1)) far ≡ one_hop (table_of (host + 1)) far
routing_resolve-one_hop_example =
    routing_resolve-one_hop true host 24 far 0 (default_route (host + 1) ∷ []) (table_of (host + 1))
      gateway-Near table_run

default_found : resolve far (table_of far) ≡ some (entry_of (default_route far))
unfolding resolve
default_found = refl
