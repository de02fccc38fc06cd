-- ===== src/PacketMem/Zones.antt =====
-- user/packetmem.c with more than one huge page: the offsets of handles in different pages. The
-- callers add only the offset to the start of the memory, without the zone.
use flex_toe.Prelude.{
  ℕ, ◌+◌, ◌-◌, ◌<◌, ◌==◌, ◌∙◌, ◌∷◌, ◌≡◌, ◌≤◌, Bool-cases, List, [], ap, arith, inl, inr, none, refl,
  some, subst, suc, sym, true, update,
}
use flex_toe.Prelude.Words.{add64, sub64}
use flex_toe.PacketMem.{
  Handle, Mem, Region, alloc_from, huge_page_size, packetmem_alloc, packetmem_init,
  packetmem_zone_alloc,
}

abbrev whole_page : Region
whole_page = record { base = 0; len = huge_page_size }

-- The first part of a page that is free, and what is left.
zone_alloc-page :
    (size : ℕ)
    → size ≤ huge_page_size
    → (l : List Region) × (packetmem_zone_alloc true size (whole_page ∷ [])
        ≡ some (record { base = 0; len = size }, l))
      × ((more : ℕ) → huge_page_size < size + more → packetmem_zone_alloc true more l ≡ none)
unfolding packetmem_zone_alloc
zone_alloc-page size h = elim (Bool-cases (huge_page_size == size)) [
  | inl e ↦ ([], ground (arith, e), λ more k. refl)
  | inr e ↦ (
    record { base = add64 0 size; len = sub64 huge_page_size size } ∷ [],
    ground (arith, e),
    λ more k. ground (arith, e),
  )
]

alloc_from-here :
    (size zone n : ℕ) (m : Mem) (r : Region) (l : List Region)
    → packetmem_zone_alloc true size (m.freelist zone) ≡ some (r, l)
    → alloc_from (λ z. true) size zone (suc n) m
      ≡ some (record { zone = zone; region = r }, record m { freelist = update m.freelist zone l })
unfolding alloc_from
alloc_from-here size zone n m r l e = ground (arith, e)

alloc_from-later :
    (size zone n : ℕ) (m : Mem)
    → packetmem_zone_alloc true size (m.freelist zone) ≡ none
    → alloc_from (λ z. true) size zone (suc n) m ≡ alloc_from (λ z. true) size (zone + 1) n m
unfolding alloc_from
alloc_from-later size zone n m e = ground (arith, e)

-- A handle at the start of a zone.
abbrev pub at_start : ℕ → ℕ → Handle
at_start zone size = record { zone = zone; region = record { base = 0; len = size } }

-- With a free first page and a free second one, two requests that do not fit one page together
-- both get offset 0.
alloc_from-zones :
    (size more n : ℕ) (m : Mem)
    → m.freelist 0 ≡ whole_page ∷ []
    → m.freelist 1 ≡ whole_page ∷ []
    → size ≤ huge_page_size
    → more ≤ huge_page_size
    → huge_page_size < size + more
    → (m' : Mem) × (m'' : Mem) × (alloc_from (λ z. true) size 0 (suc (suc n)) m
        ≡ some (at_start 0 size, m'))
      × (m'.total_zones ≡ m.total_zones)
      × (alloc_from (λ z. true) more 0 (suc (suc n)) m' ≡ some (at_start 1 more, m''))
alloc_from-zones size more n m first second h k big =
    let (l, got, full) = zone_alloc-page size h in
    let (l', got', full') = zone_alloc-page more k in
    let m' : Mem = record m { freelist = update m.freelist 0 l } in
    (
      m',
      record m' { freelist = update m'.freelist 1 l' },
      alloc_from-here size 0 (suc n) m _ l (ap (packetmem_zone_alloc true size) first ∙ got),
      refl,
      alloc_from-later more 0 (suc n) m' (full more big)
          ∙ alloc_from-here more 1 n m' _ l' (ap (packetmem_zone_alloc true more) second ∙ got'),
    )

-- With memory of two huge pages or more, two requests that fit a page each, and not one page
-- together, are granted after the start, if malloc succeeds, with the same offset 0 in the first two
-- zones.
pub packetmem_alloc-same_offset :
    (dma_mem_size size more : ℕ) (m : Mem)
    → packetmem_init true dma_mem_size ≡ some m
    → 2 ≤ m.total_zones
    → size ≤ huge_page_size
    → more ≤ huge_page_size
    → huge_page_size < size + more
    → (m' : Mem) × (m'' : Mem) × (packetmem_alloc (λ z. true) size m ≡ some (at_start 0 size, m'))
      × (packetmem_alloc (λ z. true) more m' ≡ some (at_start 1 more, m''))
unfolding packetmem_alloc packetmem_init
packetmem_alloc-same_offset dma_mem_size size more m e two h k big =
    let first : m.freelist 0 ≡ whole_page ∷ [] = ground (arith, e) in
    let second : m.freelist 1 ≡ whole_page ∷ [] = ground (arith, e) in
    let n : suc (suc (m.total_zones - 2)) ≡ m.total_zones = omega arith in
    let (m', m'', got, same, got') =
      alloc_from-zones size more (m.total_zones - 2) m first second h k big in
    (
      m',
      m'',
      subst (λ n. alloc_from (λ z. true) size 0 n m ≡ some (at_start 0 size, m')) n got,
      subst (λ n. alloc_from (λ z. true) more 0 n m' ≡ some (at_start 1 more, m'')) (n ∙ sym same)
          got',
    )
