-- ===== src/Frame/Tests.antt =====
-- The frame allocator at a concrete memory map of two unaligned regions.
use xernel.Prelude.{
  length, get_elem?, ℕ, zero, suc, ◌+◌, ◌%◌, ◌^◌, ◌≤◌, ◌<◌, ◌≡◌, refl, none, some, List, [], ◌∷◌,
  arith,
}
use xernel.Frame.{Region, PhysFrameAllocator, new, alloc_contiguous, alloc, free_frame, stats}
use xernel.Frame.Bump.{MapOk, CursorOk}
use xernel.Frame.Pages.{count, All}
use xernel.Frame.History.{World, Step, allocated, freed, here, next}
use xernel.Frame.Boot.{booted, Usable, booted-Reach}
use xernel.Frame.Supply.{alloc-none}

abbrev memory : List Region
memory = record { start = 100; end = 9000 } ∷ record { start = 9000; end = 20500 } ∷ []

-- The first region has one whole frame, at 4096; the second has two, at 12288 and 16384.
abbrev first_state : PhysFrameAllocator
first_state = (alloc (new memory)).1

booted_frames :
    ((new memory).total_frames ≡ 3)
    × ((alloc (new memory)).0 ≡ some 4096)
    × ((alloc first_state).0 ≡ some 12288)
    × ((alloc_contiguous first_state 2).0 ≡ some 12288)
    × ((alloc_contiguous first_state 3).0 ≡ none)
unfolding new alloc alloc_contiguous
booted_frames = (refl, refl, refl, refl, refl)

abbrev one_live : World
one_live = record { state = first_state; live = 4096 ∷ [] }

first-Step : Step (booted memory) one_live
unfolding alloc new
first-Step = allocated 4096 refl refl

abbrev freed_again : World
freed_again = record { state = free_frame first_state 4096; live = [] }

second-Step : Step one_live freed_again
second-Step = freed 4096 (omega arith) refl refl

booted-Reach_example :
    ((x : ℕ) → count x freed_again.live + count x freed_again.state.free ≤ 1)
    × All (Usable memory) freed_again.live
    × ((stats freed_again.state).0 ≡ length freed_again.live)
booted-Reach_example =
    booted-Reach memory freed_again (omega arith) (next (next here first-Step) second-Step)

-- The last frame of a map of one region is out.
abbrev used_up : PhysFrameAllocator
used_up = record {
  regions = record { start = 4096; end = 8192 } ∷ [];
  region_idx = 0;
  cursor = 8192;
  free = [];
  total_frames = 1;
  in_use = 1;
}

used_up-MapOk : MapOk used_up.regions
used_up-MapOk = record { each = only; apart = λ i r s e f. none_after r s i f }
  where
    only :
        (i : ℕ) (r : Region)
        → get_elem? used_up.regions i ≡ some r
        → (r.start < r.end) × (r.end ≤ 2 ^ 52) × (r.start % 4096 ≡ 0) × (r.end % 4096 ≡ 0)
    only zero r e = ground arith
    only (suc i) r e = absurd (cc)

    none_after :
        (r s : Region) (i : ℕ) → get_elem? used_up.regions (suc i) ≡ some s → r.end ≤ s.start
    none_after r s i e = absurd (cc)

used_up-CursorOk : CursorOk used_up
used_up-CursorOk = record { inside = λ r e. ground arith; aligned = omega arith; low = omega arith }

used_up_refuses : alloc used_up ≡ (none, record used_up { region_idx = 1 })
unfolding alloc
used_up_refuses = refl

alloc-none_example :
    (used_up.free ≡ [])
    × (length used_up.regions ≤ suc used_up.region_idx)
    × ((r : Region)
        → get_elem? used_up.regions used_up.region_idx ≡ some r
        → r.end < used_up.cursor + 4096)
alloc-none_example =
    alloc-none used_up (record used_up { region_idx = 1 }) used_up-MapOk used_up-CursorOk
      used_up_refuses
