-- ===== src/PacketMem/Tests.antt =====
-- Runs of user/packetmem.c, and the theorems at them.
use flex_toe.Prelude.{
  if◌then◌else◌, ℕ, ◌*◌, ◌++◌, ◌+◌, ◌-◌, ◌^◌, ◌∷◌, ◌≡◌, ◌≤◌, [], arith, ltb, refl, some, true,
  update,
}
use flex_toe.PacketMem.{
  Handle, Mem, Region, alloc_from, huge_page_size, packetmem_alloc, packetmem_init,
  packetmem_zone_alloc,
}
use flex_toe.PacketMem.Owners.{owners}
use flex_toe.PacketMem.Reach.{HeldInPage, Reach, Reach-disjoint, Step, holds}
use flex_toe.PacketMem.Zones.{packetmem_alloc-same_offset}

abbrev page : Region
page = record { base = 0; len = huge_page_size }

abbrev low : Region
low = record { base = 0; len = 4096 }

abbrev fresh : Mem
fresh = record { freelist = λ zone. if ltb zone 1 then page ∷ [] else []; total_zones = 1 }

abbrev low_handle : Handle
low_handle = record { zone = 0; region = low }

abbrev second_handle : Handle
second_handle = record { zone = 0; region = record { base = 4096; len = 100 } }

abbrev once_used : Mem
once_used = record fresh {
  freelist = update fresh.freelist 0 (record { base = 4096; len = huge_page_size - 4096 } ∷ []);
}

abbrev twice_used : Mem
twice_used = record once_used {
  freelist = update once_used.freelist 0 (record { base = 4196; len = huge_page_size - 4196 } ∷ []);
}

first_call : packetmem_alloc (λ z. true) 4096 fresh ≡ some (low_handle, once_used)
unfolding packetmem_alloc alloc_from packetmem_zone_alloc
first_call = refl

second_call : packetmem_alloc (λ z. true) 100 once_used ≡ some (second_handle, twice_used)
unfolding packetmem_alloc alloc_from packetmem_zone_alloc
second_call = refl

fresh_start : packetmem_init true huge_page_size ≡ some fresh
unfolding packetmem_init
fresh_start = refl

both_out :
    Reach
      (record { mem = fresh; held = [] })
      (record { mem = twice_used; held = [] ++ second_handle ∷ ([] ++ low_handle ∷ []) })
both_out =
    Reach.next
      (Reach.next Reach.here
        (Step.allocated (λ z. true) 4096 low_handle fresh once_used [] first_call))
      (Step.allocated (λ z. true) 100 second_handle once_used twice_used (low_handle ∷ [])
        second_call)

Reach-disjoint_example :
    ((z a : ℕ)
      → owners a (twice_used.freelist z) + holds z a second_handle + holds z a low_handle ≤ 1)
    × HeldInPage (second_handle ∷ low_handle ∷ [])
Reach-disjoint_example =
    Reach-disjoint true huge_page_size fresh twice_used second_handle low_handle [] [] []
      fresh_start both_out

abbrev two_pages : Mem
two_pages = record { freelist = λ zone. if ltb zone 2 then page ∷ [] else []; total_zones = 2 }

two_start : packetmem_init true (2 * huge_page_size) ≡ some two_pages
unfolding packetmem_init
two_start = refl

packetmem_alloc-same_offset_example :
    (m' : Mem) × (m'' : Mem) × (packetmem_alloc (λ z. true) (2 ^ 29) two_pages
      ≡ some (record { zone = 0; region = record { base = 0; len = 2 ^ 29 } }, m'))
    × (packetmem_alloc (λ z. true) (2 ^ 30) m'
        ≡ some (record { zone = 1; region = record { base = 0; len = 2 ^ 30 } }, m''))
packetmem_alloc-same_offset_example =
    packetmem_alloc-same_offset (2 * huge_page_size) (2 ^ 29) (2 ^ 30) two_pages two_start
      (omega arith) (omega arith) (omega arith) (omega arith)

abbrev behind : Region
behind = record { base = 4096; len = 100 }
