-- ===== src/Tcp/Alloc.antt =====
-- The search for a free port in user/tcp.c, and the listeners of a port.
use native.Mathlib.Decide.{ℕ_discrete}
use flex_toe.Prelude.{
  ℕ, ◌%◌, ◌+◌, ◌-◌, ◌<◌, ◌^◌, ◌∙◌, ◌≡◌, ◌≢◌, ◌≤◌, Bool-cases, ap, arith, false, inl, inr, refl,
  subst, suc, sym, true, zero,
}
use flex_toe.Tcp.Ports.{
  Port, PortSearch, Ports, is_unused, next_port, port_alloc, port_first_eph, port_loop,
}

-- The number of ephemeral ports.
abbrev pub ephemeral : ℕ
ephemeral = 2 ^ 16 - port_first_eph

-- The port `k` places behind `start`, around the end of the range.
abbrev pub place : ℕ → ℕ → ℕ
place start k = port_first_eph + (start - port_first_eph + k) % ephemeral

-- An ephemeral port that is free, and a hint in the range.
pub record Found (ports : ℕ → Port) (p hint : ℕ) : Type 0 where
  pub is_free : is_unused (ports p) ≡ true
  pub in_range : port_first_eph ≤ p
  pub below : p < 2 ^ 16
  pub hint_in_range : port_first_eph ≤ hint
  pub hint_below : hint < 2 ^ 16

next_port-place :
    (start k : ℕ)
    → port_first_eph ≤ start
    → start < 2 ^ 16
    → next_port (place start k) ≡ place start (suc k)
next_port-place start k lo hi = ground arith

port_loop-next :
    (ports : ℕ → Port) (start fuel p : ℕ)
    → is_unused (ports p) ≡ false
    → next_port p ≢ start
    → port_loop ports start (suc fuel) p ≡ port_loop ports start fuel (next_port p)
unfolding port_loop
port_loop-next ports start fuel p u n = ground arith

port_loop-place :
    (ports : ℕ → Port) (start k fuel : ℕ)
    → port_first_eph ≤ start
    → start < 2 ^ 16
    → suc k < ephemeral
    → is_unused (ports (place start k)) ≡ false
    → port_loop ports start (suc fuel) (place start k)
      ≡ port_loop ports start fuel (place start (suc k))
port_loop-place ports start k fuel lo hi h e =
    let step = next_port-place start k lo hi in
    rw (← step) (port_loop-next ports start fuel (place start k) e (omega (arith, step)))

port_loop-finds :
    (ports : ℕ → Port) (start k j fuel : ℕ)
    → port_first_eph ≤ start
    → start < 2 ^ 16
    → k ≤ j
    → j < ephemeral
    → is_unused (ports (place start j)) ≡ true
    → j < k + fuel
    → (p : ℕ) × (hint : ℕ) × (port_loop ports start fuel (place start k) ≡ PortSearch.port p hint)
      × Found ports p hint
unfolding port_loop
port_loop-finds ports start k j zero lo hi le lt free f = absurd (omega arith)
port_loop-finds ports start k j (suc fuel) lo hi le lt free f =
    elim (Bool-cases (is_unused (ports (place start k)))) [
      | inl e ↦ (
        place start k,
        next_port (place start k),
        ground arith,
        record {
          is_free = e;
          in_range = omega arith;
          below = omega arith;
          hint_in_range = ground arith;
          hint_below = ground arith;
        },
      )
      | inr e ↦ elim (ℕ_discrete k j) [
        | yes y ↦ let same = ap (λ (i : ℕ). is_unused (ports (place start i))) y in cc
        | no n ↦
            let (p, hint, q, found) =
              port_loop-finds ports start (suc k) j fuel lo hi (omega arith) lt free
                (omega arith) in
            let next = port_loop-place ports start k fuel lo hi (omega arith) e in
            (p, hint, next ∙ q, found)
      ]
    ]

-- Started at an ephemeral port, `port_alloc` finds a free one if there is one, `q`, within a round for
-- each port, and the next hint is in the range too.
pub port_alloc-finds :
    (t : Ports) (q : ℕ)
    → port_first_eph ≤ t.port_eph_hint
    → t.port_eph_hint < 2 ^ 16
    → port_first_eph ≤ q
    → q < 2 ^ 16
    → is_unused (t.ports q) ≡ true
    → (p : ℕ) × (hint : ℕ) × (port_alloc ephemeral t ≡ PortSearch.port p hint)
      × Found t.ports p hint
unfolding port_alloc
port_alloc-finds t q lo hi ql qh free =
    let start = t.port_eph_hint in
    let j = (q + ephemeral - start) % ephemeral in
    let there : place start j ≡ q = omega arith in
    let here : place start 0 ≡ start = omega arith in
    let free' = subst (λ i. is_unused (t.ports i) ≡ true) (sym there) free in
    subst
      (λ i.
        (p : ℕ) × (hint : ℕ) × (port_loop t.ports start ephemeral i ≡ PortSearch.port p hint)
        × Found t.ports p hint)
      here
      (port_loop-finds t.ports start 0 j ephemeral lo hi (omega arith) (omega arith) free'
        (omega arith))

port_loop-searching :
    (ports : ℕ → Port) (start fuel p : ℕ)
    → start < port_first_eph
    → port_first_eph ≤ p
    → p < 2 ^ 16
    → ((i : ℕ) → port_first_eph ≤ i → i < 2 ^ 16 → is_unused (ports i) ≡ false)
    → port_loop ports start fuel p ≡ PortSearch.searching
unfolding port_loop
port_loop-searching ports start zero p h lo hi u = refl
port_loop-searching ports start (suc fuel) p h lo hi u =
    let rest =
      port_loop-searching ports start fuel (next_port p) h (ground arith) (ground arith) u in
    ground (arith, u p, rest)

-- Started below the ephemeral ports, as the hint of `tcp_init` allows, at a port in use, and with all
-- ephemeral ports in use, `port_alloc` never ends: no fuel is enough.
pub port_alloc-never_ends :
    (t : Ports) (fuel : ℕ)
    → t.port_eph_hint < port_first_eph
    → is_unused (t.ports t.port_eph_hint) ≡ false
    → ((i : ℕ) → port_first_eph ≤ i → i < 2 ^ 16 → is_unused (t.ports i) ≡ false)
    → port_alloc fuel t ≡ PortSearch.searching
unfolding port_alloc port_loop
port_alloc-never_ends t zero h s u = refl
port_alloc-never_ends t (suc fuel) h s u =
    let start = t.port_eph_hint in
    let rest =
      port_loop-searching t.ports start fuel (next_port start) h (ground arith) (ground arith) u in
    port_loop-next t.ports start fuel start s (ground arith) ∙ rest
