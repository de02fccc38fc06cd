-- ===== src/Routing/Hops.antt =====
-- The loop of `routing_resolve` in user/routing.c: when it ends.
use native.Mathlib.Decide.{ℕ_discrete}
use flex_toe.Prelude.{
  if◌then◌else◌, ℕ, ◌==◌, ◌∷◌, ◌≡◌, ◌≢◌, ◌⊎◌, Bool, List, Option-cases, [], arith, inl, inr, none,
  refl, some, subst, suc, zero,
}
use flex_toe.Routing.{
  Entry, Outcome, Route, entry_of, fill, local_entry, masked, resolve, routing_init,
  routing_resolve,
}

-- Every route's next hop is 0 or in the network that `ip` and `ip_prefix` give.
unfoldable pub Near : ℕ → ℕ → List Route → Type 0
Near ip ip_prefix [] = Unit {0}
Near ip ip_prefix (cr ∷ routes) =
    ((cr.next_hop_ip ≡ 0) ⊎ (masked cr.next_hop_ip ip_prefix ≡ masked ip ip_prefix))
    × Near ip ip_prefix routes

-- One step: the address itself, or the next hop of the first entry that fits.
abbrev pub one_hop : List Entry → ℕ → Outcome
one_hop table ip = elim (resolve ip table) [
  | none ↦ Outcome.failed
  | some e ↦ if e.next_hop == 0 then Outcome.arp ip else Outcome.arp e.next_hop
]

fill-Near :
    (ip ip_prefix to : ℕ) (routes : List Route) (table : List Entry) (e : Entry)
    → fill routes ≡ some table
    → Near ip ip_prefix routes
    → resolve to table ≡ some e
    → (e.next_hop ≡ 0) ⊎ (masked e.next_hop ip_prefix ≡ masked ip ip_prefix)
unfolding fill resolve Near
fill-Near ip ip_prefix to [] table e f n r = ground arith
fill-Near ip ip_prefix to (cr ∷ routes) table e f n r = elim (Option-cases (fill routes)) [
  | inl k ↦ ground arith
  | inr (rest, k) ↦
      let entry = entry_of cr in
      let q : table ≡ entry ∷ rest = ground arith in
      let r' = subst (λ t. resolve to t ≡ some e) q r in
      elim (ℕ_discrete cr.ip (masked to cr.ip_prefix)) [
        | yes y ↦ let s : e ≡ entry = ground arith in rw s n.0
        | no y ↦ fill-Near ip ip_prefix to routes rest e k n.1 (ground arith)
      ]
]

local-one_hop :
    (ip ip_prefix to fuel : ℕ) (rest : List Entry)
    → ((e : Entry)
        → resolve to rest ≡ some e
        → (e.next_hop ≡ 0) ⊎ (masked e.next_hop ip_prefix ≡ masked ip ip_prefix))
    → routing_resolve (suc (suc fuel)) (local_entry ip ip_prefix ∷ rest) to
      ≡ one_hop (local_entry ip ip_prefix ∷ rest) to
unfolding routing_resolve resolve
local-one_hop ip ip_prefix to fuel rest h =
    elim (ℕ_discrete (masked ip ip_prefix) (masked to ip_prefix)) [
      | yes y ↦ ground arith
      | no y ↦ elim (Option-cases (resolve to rest)) [
        | inl k ↦ ground arith
        | inr (e, k) ↦ elim (h e k) [ inl z ↦ ground arith | inr z ↦ ground arith ]
      ]
    ]

-- Where the configured next hops lie in the local network, `routing_resolve` ends after at most two
-- rounds, with the address itself or the next hop of the first entry that fits.
pub routing_resolve-one_hop :
    (calloc_ok : Bool) (ip ip_prefix to fuel : ℕ) (routes : List Route) (table : List Entry)
    → Near ip ip_prefix routes
    → routing_init calloc_ok ip ip_prefix routes ≡ some table
    → routing_resolve (suc (suc fuel)) table to ≡ one_hop table to
unfolding routing_init routing_resolve
routing_resolve-one_hop calloc_ok ip ip_prefix to fuel routes table n i =
    let net = local_entry ip ip_prefix in
    elim (Option-cases (fill routes)) [
      | inl k ↦ ground arith
      | inr (rest, k) ↦
          let q : table ≡ net ∷ rest = ground arith in
          rw q (
            local-one_hop ip ip_prefix to fuel rest
              (λ e r. fill-Near ip ip_prefix to routes rest e k n r))
    ]

-- A route whose next hop it fits itself, and no earlier entry does, keeps `routing_resolve` in its
-- loop for ever.
pub routing_resolve-loops :
    (table : List Entry) (ip fuel : ℕ) (e : Entry)
    → resolve ip table ≡ some e
    → e.next_hop ≡ ip
    → ip ≢ 0
    → routing_resolve fuel table ip ≡ Outcome.looking
unfolding routing_resolve
routing_resolve-loops table ip zero e r h z = refl
routing_resolve-loops table ip (suc fuel) e r h z =
    ground (arith, routing_resolve-loops table ip fuel e r h z)
