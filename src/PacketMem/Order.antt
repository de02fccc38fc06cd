-- ===== src/PacketMem/Order.antt =====
-- When an allocation of user/packetmem.c fails, and what `packetmem_free` does to the order of the
-- free list.
use flex_toe.Prelude.{
  ℕ, ◌+◌, ◌<◌, ◌↔◌, ◌∷◌, ◌≡◌, ◌≤◌, List, Option-cases, [], arith, inl, inr, none, refl, true,
}
use flex_toe.PacketMem.{Region, huge_page_size, merge_successor, packetmem_zone_alloc, zone_free}

-- No region of the list is as long as `size`.
abbrev pub AllShorter : ℕ → List Region → Type 0
AllShorter size [] = Unit {0}
AllShorter size (r ∷ l) = (r.len < size) × AllShorter size l

-- With handles to be had, an allocation in a zone fails exactly when every free region is too
-- short.
pub zone_alloc-fails :
    (size : ℕ) (l : List Region) → (packetmem_zone_alloc true size l ≡ none) ↔ AllShorter size l
unfolding packetmem_zone_alloc
zone_alloc-fails size [] = ((λ e. tt), (λ s. refl))
zone_alloc-fails size (r ∷ l) =
    let ih = zone_alloc-fails size l in
    elim (Option-cases (packetmem_zone_alloc true size l)) [
      | inl n ↦ ((λ e. ground (arith, ih.0 n)), (λ s. ground arith))
      | inr ((q, l'), n) ↦ ((λ e. absurd (ground arith)), (λ s. absurd (ground (arith, ih.1 s.1))))
    ]

-- A region given back right behind the only free one is put before it, and the two are not merged:
-- the free list falls out of order, and an allocation of their joint length fails.
pub zone_free-unmerged :
    (r h : Region)
    → 0 < h.len
    → 0 < r.len
    → r.base + r.len ≡ h.base
    → h.base + h.len ≤ huge_page_size
    → (zone_free h (r ∷ []) ≡ h ∷ r ∷ [])
      × (packetmem_zone_alloc true (r.len + h.len) (zone_free h (r ∷ [])) ≡ none)
unfolding zone_free merge_successor packetmem_zone_alloc
zone_free-unmerged r h p q e b = ground arith

-- Given back right before the only free region, it is merged with it.
pub zone_free-merged :
    (r h : Region)
    → h.base + h.len ≡ r.base
    → r.base + r.len ≤ huge_page_size
    → zone_free h (r ∷ []) ≡ record { base = h.base; len = h.len + r.len } ∷ []
unfolding zone_free merge_successor
zone_free-merged r h e b = ground arith
