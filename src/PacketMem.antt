-- ===== src/PacketMem.antt =====
-- user/packetmem.c: first-fit allocation of packet buffers from huge pages, with a list of free
-- regions for each page. Whether `malloc` gives a handle is an argument of each call, for
-- `packetmem_alloc` one for each page.
pub mod Owners
pub mod Reach
pub mod Zones
pub mod Order
mod Tests
use flex_toe.Prelude.{
  if◌then◌else◌, ℕ, ◌%◌, ◌+◌, ◌/◌, ◌==◌, ◌^◌, ◌||◌, ◌∷◌, Bool, List, Option, [], ltb, none, not,
  some, suc, update, zero,
}
use mathlib.Core.Option
use flex_toe.Prelude.Words.{add64, sub64}

-- `HUGE_PAGE_SIZE` of util/shm.h.
abbrev pub huge_page_size : ℕ
huge_page_size = 2 ^ 30

abbrev pub max_zones : ℕ
max_zones = 16

-- The base and length of a `struct packetmem_handle`; a free list is the list of its `next` chain.
pub record Region : Type 0 where
  pub base : ℕ
  pub len : ℕ

-- A handle given out, with its zone.
pub record Handle : Type 0 where
  pub zone : ℕ
  pub region : Region

-- `freelist` and `total_zones`.
pub record Mem : Type 0 where
  pub freelist : ℕ → List Region
  pub total_zones : ℕ

pub packetmem_init : Bool → ℕ → Option Mem
packetmem_init malloc_ok dma_mem_size =
    let total_zones = (dma_mem_size / huge_page_size) % 2 ^ 32 in
    if not (dma_mem_size % huge_page_size == 0)
    then none
    else if (total_zones == 0) || (ltb max_zones total_zones || not malloc_ok)
    then none
    else some (record {
      freelist = λ zone.
          if ltb zone total_zones then record { base = 0; len = huge_page_size } ∷ [] else [];
      total_zones = total_zones;
    })

-- The first region that is long enough, whole or its lower part, and the list without it.
pub packetmem_zone_alloc : Bool → ℕ → List Region → Option (Region × List Region)
packetmem_zone_alloc malloc_ok size [] = none
packetmem_zone_alloc malloc_ok size (ph ∷ rest) =
    let later =
      Option.map (λ (p : Region × List Region). (p.0, ph ∷ p.1))
        (packetmem_zone_alloc malloc_ok size rest) in
    if ltb ph.len size
    then later
    else if ph.len == size
    then some (ph, rest)
    else if malloc_ok
    then some (
      record { base = ph.base; len = size },
      record { base = add64 ph.base size; len = sub64 ph.len size } ∷ rest,
    )
    else none

-- The loop of `packetmem_alloc` with `n` zones left.
pub alloc_from : (ℕ → Bool) → ℕ → ℕ → ℕ → Mem → Option (Handle × Mem)
alloc_from malloc_ok size zone zero m = none
alloc_from malloc_ok size zone (suc n) m =
    let later = alloc_from malloc_ok size (zone + 1) n m in
    elim (packetmem_zone_alloc (malloc_ok zone) size (m.freelist zone)) [
      | some (r, l) ↦
          some
            (record { zone = zone; region = r }, record m { freelist = update m.freelist zone l })
      | none ↦ later
    ]

pub packetmem_alloc : (ℕ → Bool) → ℕ → Mem → Option (Handle × Mem)
packetmem_alloc malloc_ok size m = alloc_from malloc_ok size 0 m.total_zones m

-- The second half of `merge_items`: `ph` takes in its successor if that begins where `ph` ends.
pub merge_successor : Region → List Region → List Region
merge_successor ph [] = ph ∷ []
merge_successor ph (next ∷ rest) =
    if add64 ph.base ph.len == next.base
    then record { base = ph.base; len = add64 ph.len next.len } ∷ rest
    else ph ∷ next ∷ rest

-- `merge_items` with a predecessor, which takes in the new region if that begins where it ends.
pub merge_items : Region → Region → List Region → List Region
merge_items prev ph rest =
    if add64 prev.base prev.len == ph.base
    then merge_successor (record { base = prev.base; len = add64 prev.len ph.len }) rest
    else prev ∷ merge_successor ph rest

-- The search of `packetmem_free` at `ph_prev ≡ prev`. It looks one region further than the one
-- behind which it inserts.
pub free_after : Region → Region → List Region → List Region
free_after handle prev [] = merge_items prev handle []
free_after handle prev (ph ∷ []) = merge_items prev handle (ph ∷ [])
free_after handle prev (ph ∷ next ∷ rest) =
    if ltb next.base handle.base
    then prev ∷ free_after handle ph (next ∷ rest)
    else merge_items prev handle (ph ∷ next ∷ rest)

pub zone_free : Region → List Region → List Region
zone_free handle [] = merge_successor handle []
zone_free handle (ph ∷ []) = merge_successor handle (ph ∷ [])
zone_free handle (ph ∷ next ∷ rest) =
    if ltb next.base handle.base
    then free_after handle ph (next ∷ rest)
    else merge_successor handle (ph ∷ next ∷ rest)

pub packetmem_free : Handle → Mem → Mem
packetmem_free h m = record m {
  freelist = update m.freelist h.zone (zone_free h.region (m.freelist h.zone));
}
