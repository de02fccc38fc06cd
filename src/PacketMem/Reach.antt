-- ===== src/PacketMem/Reach.antt =====
-- Any sequence of calls of user/packetmem.c, with the handles that are out.
use native.Mathlib.Decide.{ℕ_discrete}
use flex_toe.Prelude.{
  if◌then◌else◌, ℕ, ◌++◌, ◌+◌, ◌<◌, ◌==◌, ◌∷◌, ◌≡◌, ◌≢◌, ◌≤◌, Bool, List, Option-cases, [], ap,
  arith, inl, inr, some, subst, suc, sym, update, update_ne, update_self, zero,
}
use flex_toe.PacketMem.{
  Handle, Mem, alloc_from, huge_page_size, packetmem_alloc, packetmem_free, packetmem_init,
  packetmem_zone_alloc,
}
use flex_toe.PacketMem.Owners.{InPage, Taken, owners, owns, zone_alloc-Taken, zone_free-owners}

-- The allocator, and the handles that are out.
pub record State : Type 0 where
  pub mem : Mem
  pub held : List Handle

pub data Step : State → State → Type 0 where
  allocated :
      (malloc_ok : ℕ → Bool) (size : ℕ) (h : Handle) (m m' : Mem) (held : List Handle)
      → packetmem_alloc malloc_ok size m ≡ some (h, m')
      → Step (record { mem = m; held = held }) (record { mem = m'; held = h ∷ held })
  freed :
      (h : Handle) (m : Mem) (before after : List Handle)
      → Step
          (record { mem = m; held = before ++ h ∷ after })
          (record { mem = packetmem_free h m; held = before ++ after })

pub data Reach (s : State) : State → Type 0 where
  here : Reach s s
  next : {t u : State} → Reach s t → Step t u → Reach s u

-- How often byte `a` of zone `z` is out.
abbrev pub holds : ℕ → ℕ → Handle → ℕ
holds z a h = if h.zone == z then owns a h.region else 0

abbrev pub holders : ℕ → ℕ → List Handle → ℕ
holders z a [] = 0
holders z a (h ∷ l) = holds z a h + holders z a l

abbrev pub HeldInPage : List Handle → Type 0
HeldInPage [] = Unit {0}
HeldInPage (h ∷ l) = (h.region.base + h.region.len ≤ huge_page_size) × HeldInPage l

-- Each byte is free or out, and this once; all regions lie in their pages.
pub record StateInv (s : State) : Type 0 where
  pub free_in_page : (z : ℕ) → InPage (s.mem.freelist z)
  pub held_in_page : HeldInPage s.held
  pub once : (z a : ℕ) → owners a (s.mem.freelist z) + holders z a s.held ≤ 1

holders-append :
    (z a : ℕ) (l m : List Handle) → holders z a (l ++ m) ≡ holders z a l + holders z a m
holders-append z a [] m = omega arith
holders-append z a (h ∷ l) m = omega (arith, holders-append z a l m)

HeldInPage-append :
    (l : List Handle) (h : Handle) (m : List Handle)
    → HeldInPage (l ++ h ∷ m)
    → (h.region.base + h.region.len ≤ huge_page_size) × HeldInPage (l ++ m)
HeldInPage-append [] h m p = p
HeldInPage-append (k ∷ l) h m p = let q = HeldInPage-append l h m p.1 in (q.0, (p.0, q.1))

-- A successful allocation, as one taking in one zone.
pub record Granted (size : ℕ) (m : Mem) (h : Handle) (m' : Mem) : Type 0 where
  pub taken : Taken size (m.freelist h.zone) h.region (m'.freelist h.zone)
  pub other_zones : (z : ℕ) → h.zone ≢ z → m'.freelist z ≡ m.freelist z
  pub below : h.zone < m.total_zones

alloc_from-Granted :
    (malloc_ok : ℕ → Bool) (size zone n : ℕ) (m : Mem) (h : Handle) (m' : Mem)
    → ((z : ℕ) → InPage (m.freelist z))
    → zone + n ≡ m.total_zones
    → alloc_from malloc_ok size zone n m ≡ some (h, m')
    → Granted size m h m'
unfolding alloc_from
alloc_from-Granted malloc_ok size zone zero m h m' p t e = cc
alloc_from-Granted malloc_ok size zone (suc n) m h m' p t e =
    elim (Option-cases (packetmem_zone_alloc (malloc_ok zone) size (m.freelist zone))) [
      | inl k ↦ alloc_from-Granted malloc_ok size (zone + 1) n m h m' p (omega arith) (ground arith)
      | inr ((r, l), k) ↦
          let q : h ≡ record { zone = zone; region = r } = ground arith in
          let q' : m' ≡ record m { freelist = update m.freelist zone l } = ground arith in
          let t' = zone_alloc-Taken (malloc_ok zone) size (m.freelist zone) r l (p zone) k in
          rw (q, q')
            (record {
              taken =
                  subst (Taken size (m.freelist zone) r) (sym (update_self m.freelist zone l)) t';
              other_zones = λ z n. update_ne m.freelist zone z l n;
              below = omega arith;
            })
    ]

-- A successful allocation gives a region of the length asked for, in one zone, out of the bytes
-- that were free there; nothing else changes. The free regions lie in their pages.
pub packetmem_alloc-Granted :
    (malloc_ok : ℕ → Bool) (size : ℕ) (m : Mem) (h : Handle) (m' : Mem)
    → ((z : ℕ) → InPage (m.freelist z))
    → packetmem_alloc malloc_ok size m ≡ some (h, m')
    → Granted size m h m'
unfolding packetmem_alloc
packetmem_alloc-Granted malloc_ok size m h m' p e =
    alloc_from-Granted malloc_ok size 0 m.total_zones m h m' p (omega arith) e

allocated-StateInv :
    (malloc_ok : ℕ → Bool) (size : ℕ) (h : Handle) (m m' : Mem) (held : List Handle)
    → packetmem_alloc malloc_ok size m ≡ some (h, m')
    → StateInv (record { mem = m; held = held })
    → StateInv (record { mem = m'; held = h ∷ held })
allocated-StateInv malloc_ok size h m m' held e v =
    let g = packetmem_alloc-Granted malloc_ok size m h m' v.free_in_page e in
    record {
      free_in_page = λ z. elim (ℕ_discrete h.zone z) [
        | yes k ↦ subst (λ y. InPage (m'.freelist y)) k g.taken.in_page.1
        | no k ↦ subst InPage (sym (g.other_zones z k)) (v.free_in_page z)
      ];
      held_in_page = (g.taken.in_page.0, v.held_in_page);
      once = λ z a. elim (ℕ_discrete h.zone z) [
        | yes k ↦ rw (← k) (ground (arith, v.once h.zone a, g.taken.from_free a))
        | no k ↦ ground (arith, v.once z a, ap (owners a) (g.other_zones z k))
      ];
    }

freed-StateInv :
    (h : Handle) (m : Mem) (before after : List Handle)
    → StateInv (record { mem = m; held = before ++ h ∷ after })
    → StateInv (record { mem = packetmem_free h m; held = before ++ after })
unfolding packetmem_free
freed-StateInv h m before after v =
    let p = HeldInPage-append before h after v.held_in_page in
    let f =
      λ (a : ℕ). zone_free-owners a h.region (m.freelist h.zone) (p.0, v.free_in_page h.zone) in
    record {
      free_in_page = λ z. elim (ℕ_discrete h.zone z) [
        | yes k ↦ ground (arith, f 0)
        | no k ↦ ground (arith, v.free_in_page z)
      ];
      held_in_page = p.1;
      once = λ z a. ground (
        arith,
        v.once z a,
        f a,
        holders-append z a before (h ∷ after),
        holders-append z a before after,
      );
    }

Step-StateInv : {s t : State} → Step s t → StateInv s → StateInv t
Step-StateInv (allocated ok size h m m' held e) v = allocated-StateInv ok size h m m' held e v
Step-StateInv (freed h m before after) v = freed-StateInv h m before after v

Reach-StateInv : {s t : State} → StateInv s → Reach s t → StateInv t
Reach-StateInv v here = v
Reach-StateInv v (next r st) = Step-StateInv st (Reach-StateInv v r)

init-StateInv :
    (malloc_ok : Bool) (dma_mem_size : ℕ) (m : Mem)
    → packetmem_init malloc_ok dma_mem_size ≡ some m
    → StateInv (record { mem = m; held = [] })
unfolding packetmem_init
init-StateInv malloc_ok dma_mem_size m e = record {
  free_in_page = λ z. ground arith;
  held_in_page = tt;
  once = λ z a. ground arith;
}

-- However the calls go after a successful start, no byte of any zone is in two handles that are out
-- at the same time, or in one and free; all handles lie in their pages. A byte is given by its zone
-- and its offset there.
pub Reach-disjoint :
    (malloc_ok : Bool) (dma_mem_size : ℕ) (m m' : Mem) (h k : Handle) (l n o : List Handle)
    → packetmem_init malloc_ok dma_mem_size ≡ some m
    → Reach (record { mem = m; held = [] }) (record { mem = m'; held = l ++ h ∷ (n ++ k ∷ o) })
    → ((z a : ℕ) → owners a (m'.freelist z) + holds z a h + holds z a k ≤ 1)
      × HeldInPage (l ++ h ∷ (n ++ k ∷ o))
Reach-disjoint malloc_ok dma_mem_size m m' h k l n o e r =
    let v = Reach-StateInv (init-StateInv malloc_ok dma_mem_size m e) r in
    (
      λ z a. ground (
        arith,
        v.once z a,
        holders-append z a l (h ∷ (n ++ k ∷ o)),
        holders-append z a n (k ∷ o),
      ),
      v.held_in_page,
    )
