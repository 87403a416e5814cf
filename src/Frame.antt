-- ===== src/Frame.antt =====
-- Xernel/kernel/src/mm/frame.rs: the allocator of physical 4 KiB frames. The global allocator
-- behind its lock is an `Option` of the record here, empty before `init`.
pub mod Bump
pub mod Pages
pub mod History
pub mod Boot
pub mod Supply
mod Tests
use xernel.Prelude.{
  ltb, leb, ◌==◌, if◌then◌else◌, length, get_elem?, add64, mul64, saturating_sub, ℕ, zero, suc, ◌-◌,
  ◌*◌, ◌/◌, Option, none, some, List, [], ◌∷◌, map,
}

abbrev pub frame_size : ℕ
frame_size = 4096

-- A half-open physical range in bytes.
pub record Region : Type 0 where
  pub start : ℕ
  pub end : ℕ

-- The head of `free` is the end of the vector.
pub record PhysFrameAllocator : Type 0 where
  pub regions : List Region
  pub region_idx : ℕ
  pub cursor : ℕ
  pub free : List ℕ
  pub total_frames : ℕ
  pub in_use : ℕ

-- `x & !(FRAME_SIZE - 1)`.
abbrev pub align_down : ℕ → ℕ
align_down x = x / frame_size * frame_size

abbrev align : Region → Region
align r = record { start = align_down (add64 r.start (frame_size - 1)); end = align_down r.end }

abbrev retain : List Region → List Region
retain [] = []
retain (r ∷ rs) = if ltb r.start r.end then r ∷ retain rs else retain rs

abbrev count_frames : List Region → ℕ
count_frames [] = 0
count_frames (r ∷ rs) = add64 ((r.end - r.start) / frame_size) (count_frames rs)

abbrev first_start : List Region → ℕ
first_start [] = 0
first_start (r ∷ rs) = r.start

unfoldable pub new : List Region → PhysFrameAllocator
new regions =
    let kept = retain (map align regions) in
    record {
      regions = kept;
      region_idx = 0;
      cursor = first_start kept;
      free = [];
      total_frames = count_frames kept;
      in_use = 0;
    }

-- The cursor after a move to region `idx`.
abbrev enter : Option Region → ℕ → ℕ
enter none cursor = cursor
enter (some next) cursor = next.start

abbrev next_region : PhysFrameAllocator → PhysFrameAllocator
next_region a = record a {
  region_idx = suc a.region_idx;
  cursor = enter (get_elem? a.regions (suc a.region_idx)) a.cursor;
}

abbrev take_run : PhysFrameAllocator → ℕ → PhysFrameAllocator
take_run a n = record a { cursor = add64 a.cursor (mul64 n frame_size); in_use = add64 a.in_use n }

-- The loop of `alloc_contiguous`, and of `alloc` with `n = 1`: the rounds are the regions left.
unfoldable pub bump : ℕ → PhysFrameAllocator → ℕ → Option ℕ × PhysFrameAllocator
bump zero a n = (none, a)
bump (suc rounds) a n =
    let rest = bump rounds (next_region a) n in
    elim (get_elem? a.regions a.region_idx) [
      | none ↦ (none, a)
      | some region ↦
          if leb (add64 a.cursor (mul64 n frame_size)) region.end
          then (some a.cursor, take_run a n)
          else rest
    ]

abbrev rounds_left : PhysFrameAllocator → ℕ
rounds_left a = length a.regions - a.region_idx

unfoldable pub alloc_contiguous : PhysFrameAllocator → ℕ → Option ℕ × PhysFrameAllocator
unfolding bump
alloc_contiguous a n = if n == 0 then (none, a) else bump (rounds_left a) a n

abbrev alloc_from : List ℕ → PhysFrameAllocator → Option ℕ × PhysFrameAllocator
alloc_from (pa ∷ rest) a = (some pa, record a { free = rest; in_use = add64 a.in_use 1 })
alloc_from [] a = bump (rounds_left a) a 1

unfoldable pub alloc : PhysFrameAllocator → Option ℕ × PhysFrameAllocator
unfolding bump
alloc a = alloc_from a.free a

unfoldable pub free_frame : PhysFrameAllocator → ℕ → PhysFrameAllocator
free_frame a pa = record a { free = pa ∷ a.free; in_use = saturating_sub a.in_use 1 }

unfoldable pub stats : PhysFrameAllocator → ℕ × ℕ
stats a = (a.in_use, a.total_frames)
