-- ===== src/Frame/Supply.antt =====
-- When the allocator of Xernel/kernel/src/mm/frame.rs finds a frame.
use xernel.Frame.{
  rounds_left, alloc_from, next_region, frame_size, Region, PhysFrameAllocator, bump, alloc,
}
use xernel.Prelude.{
  leb, Bool-cases, Option-cases, length, get_elem?, get_elem?-lt, get_elem?-none, get_elem?-exists,
  add64, mul64, ℕ, zero, suc, ◌+◌, ◌≤◌, ◌<◌, ◌≡◌, refl, ◌≢◌, inl, inr, true, none, some, List, [],
  ◌∷◌, arith,
}
use xernel.Frame.Bump.{MapOk, CursorOk}

-- Enough rounds take the loop to the end of the map: a refusal has looked at every region.
pub bump-none :
    (rounds : ℕ) (a b : PhysFrameAllocator) (n : ℕ)
    → length a.regions ≤ a.region_idx + rounds
    → bump rounds a n ≡ (none, b)
    → length b.regions ≤ b.region_idx
unfolding bump
bump-none zero a b n h e = ground arith
bump-none (suc rounds) a b n h e = elim (Option-cases (get_elem? a.regions a.region_idx)) [
  | inl g ↦
      let past = get_elem?-none a.regions a.region_idx g in
      let same : b ≡ a = ground (arith, rw (g, bump) at e) in rw same past
  | inr (r, g) ↦ elim (Bool-cases (leb (add64 a.cursor (mul64 n frame_size)) r.end)) [
    | inl fits ↦ absurd (ground (arith, rw fits at (rw (g, bump) at e)))
    | inr full ↦ bump-none rounds (next_region a) b n (omega arith) (rw full at (rw (g, bump) at e))
  ]
]

-- A region that the loop has just entered has room for a frame.
entered-some :
    (rounds : ℕ) (a b : PhysFrameAllocator) (s : Region)
    → MapOk a.regions
    → get_elem? a.regions (suc a.region_idx) ≡ some s
    → bump (suc rounds) (next_region a) 1 ≢ (none, b)
unfolding bump
entered-some rounds a b s m g e =
    let (grows, top, low, high) = m.each (suc a.region_idx) s g in
    let fits : leb (add64 (next_region a).cursor (mul64 1 frame_size)) s.end ≡ true =
      ground arith in
    absurd (ground (arith, rw fits at (rw (g, bump) at e)))

-- The last look at the current region: it had no room.
current-full :
    (rounds : ℕ) (a b : PhysFrameAllocator) (r : Region)
    → CursorOk a
    → get_elem? a.regions a.region_idx ≡ some r
    → bump (suc rounds) a 1 ≡ (none, b)
    → (r.end < a.cursor + 4096) × (bump rounds (next_region a) 1 ≡ (none, b))
unfolding bump
current-full rounds a b r c g e =
    elim (Bool-cases (leb (add64 a.cursor (mul64 1 frame_size)) r.end)) [
      | inl fits ↦ absurd (ground (arith, rw fits at (rw (g, bump) at e)))
      | inr full ↦ (ground (arith, c.low), rw full at (rw (g, bump) at e))
    ]

bump-one_none :
    (rounds : ℕ) (a b : PhysFrameAllocator)
    → MapOk a.regions
    → CursorOk a
    → length a.regions ≤ a.region_idx + rounds
    → bump rounds a 1 ≡ (none, b)
    → (length a.regions ≤ suc a.region_idx)
      × ((r : Region) → get_elem? a.regions a.region_idx ≡ some r → r.end < a.cursor + 4096)
bump-one_none zero a b m c h e =
    (omega arith, λ r g. absurd (omega (arith, get_elem?-lt a.regions a.region_idx g)))
bump-one_none (suc zero) a b m c h e = (omega arith, λ r g. (current-full 0 a b r c g e).0)
bump-one_none (suc (suc rounds)) a b m c h e =
    elim (Option-cases (get_elem? a.regions (suc a.region_idx))) [
      | inl last ↦ (
        get_elem?-none a.regions (suc a.region_idx) last,
        λ r g. (current-full (suc rounds) a b r c g e).0,
      )
      | inr (s, g) ↦
          let here = get_elem?-lt a.regions (suc a.region_idx) g in
          let (r, f) = get_elem?-exists a.regions a.region_idx (omega arith) in
          absurd (entered-some rounds a b s m g (current-full (suc rounds) a b r c f e).1)
    ]

-- Over an ordered memory map `alloc` refuses only when memory is used up: the free list is empty,
-- the region of the cursor has no whole frame left, and there is no region after it.
pub alloc-none :
    (a b : PhysFrameAllocator)
    → MapOk a.regions
    → CursorOk a
    → alloc a ≡ (none, b)
    → (a.free ≡ [])
      × (length a.regions ≤ suc a.region_idx)
      × ((r : Region) → get_elem? a.regions a.region_idx ≡ some r → r.end < a.cursor + 4096)
unfolding alloc
alloc-none a b m c e = refusal a.free refl e
  where
    refusal :
        (free : List ℕ)
        → a.free ≡ free
        → alloc_from free a ≡ (none, b)
        → (a.free ≡ [])
          × (length a.regions ≤ suc a.region_idx)
          × ((r : Region) → get_elem? a.regions a.region_idx ≡ some r → r.end < a.cursor + 4096)
    refusal (pa ∷ rest) f e = absurd (ground arith)
    refusal [] f e = let (p, q) = bump-one_none (rounds_left a) a b m c (omega arith) e in (f, p, q)
