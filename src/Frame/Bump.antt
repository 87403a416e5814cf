-- ===== src/Frame/Bump.antt =====
-- What one run of the bump loop of Xernel/kernel/src/mm/frame.rs does.
use xernel.Frame.{take_run, next_region, frame_size, Region, PhysFrameAllocator, bump}
use xernel.Prelude.{
  leb, leb→le, Bool-cases, Option-cases, get_elem?, add64, mul64, ℕ, zero, suc, ◌+◌, ◌*◌, ◌%◌, ◌^◌,
  ◌≤◌, ◌<◌, ◌≡◌, refl, ◌∙◌, inl, inr, Option, none, some, List, arith,
}

-- A memory map in ascending order: the regions are apart from one another, of whole frames, and
-- below 2^52, the largest physical address of the machine.
pub record MapOk (rs : List Region) : Type 0 where
  pub each :
      (i : ℕ) (r : Region)
      → get_elem? rs i ≡ some r
      → (r.start < r.end) × (r.end ≤ 2 ^ 52) × (r.start % 4096 ≡ 0) × (r.end % 4096 ≡ 0)
  pub apart :
      (i : ℕ) (r s : Region)
      → get_elem? rs i ≡ some r
      → get_elem? rs (suc i) ≡ some s
      → r.end ≤ s.start

-- The cursor stands on a frame boundary inside the current region.
pub record CursorOk (a : PhysFrameAllocator) : Type 0 where
  pub inside :
      (r : Region)
      → get_elem? a.regions a.region_idx ≡ some r
      → (r.start ≤ a.cursor) × (a.cursor ≤ r.end)
  pub aligned : a.cursor % 4096 ≡ 0
  pub low : a.cursor ≤ 2 ^ 52

-- `[pa, pa + n * 4096)` lies in one region of the map.
abbrev pub InMap : List Region → ℕ → ℕ → Type 0
InMap rs pa n =
    (i : ℕ) × (r : Region) × (get_elem? rs i ≡ some r) × (r.start ≤ pa) × (pa + n * 4096 ≤ r.end)

pub record Kept (a b : PhysFrameAllocator) : Type 0 where
  pub regions : b.regions ≡ a.regions
  pub free : b.free ≡ a.free
  pub total : b.total_frames ≡ a.total_frames
  pub grown : a.cursor ≤ b.cursor

-- The two outcomes of the loop: the map has no room left, or a run of `n` frames behind
-- everything that was handed out before.
pub data Bumped (a : PhysFrameAllocator) (n : ℕ) (out : Option ℕ × PhysFrameAllocator)
    : Type 0 where
  exhausted :
      out.0 ≡ none → Kept a out.1 → CursorOk out.1 → out.1.in_use ≡ a.in_use → Bumped a n out
  took :
      (pa : ℕ)
      → out.0 ≡ some pa
      → Kept a out.1
      → CursorOk out.1
      → out.1.in_use ≡ add64 a.in_use n
      → a.cursor ≤ pa
      → pa % 4096 ≡ 0
      → out.1.cursor ≡ pa + n * 4096
      → InMap a.regions pa n
      → Bumped a n out

next_region-CursorOk :
    (a : PhysFrameAllocator) (r : Region)
    → MapOk a.regions
    → CursorOk a
    → get_elem? a.regions a.region_idx ≡ some r
    → CursorOk (next_region a) × (a.cursor ≤ (next_region a).cursor)
next_region-CursorOk a r m c e = elim (Option-cases (get_elem? a.regions (suc a.region_idx))) [
  | inl last ↦ (
    record { inside = λ s f. absurd (cc last); aligned = rw last c.aligned; low = rw last c.low },
    rw last (omega arith),
  )
  | inr (s, e') ↦
      let (grows, top, low, _) = m.each (suc a.region_idx) s e' in
      let far = m.apart a.region_idx r s e e' in
      let (_, stop) = c.inside r e in
      (
        record { inside = λ s' f. ground arith; aligned = rw e' low; low = ground arith },
        ground arith,
      )
]

Kept-trans : {a b c : PhysFrameAllocator} → Kept a b → Kept b c → Kept a c
Kept-trans p q = record {
  regions = q.regions ∙ p.regions;
  free = q.free ∙ p.free;
  total = q.total ∙ p.total;
  grown = omega arith;
}

-- What the loop does from the next region on, it does from this one.
Bumped-next :
    (a : PhysFrameAllocator) (n : ℕ) (out : Option ℕ × PhysFrameAllocator)
    → a.cursor ≤ (next_region a).cursor
    → Bumped (next_region a) n out
    → Bumped a n out
Bumped-next a n out h (exhausted e k c u) = exhausted e (Kept-trans (skip h) k) c u
  where
    skip : a.cursor ≤ (next_region a).cursor → Kept a (next_region a)
    skip h = record { regions = refl; free = refl; total = refl; grown = h }
Bumped-next a n out h (took pa e k c u low al cur inside) =
    took pa e (Kept-trans (skip h) k) c u (omega arith) al cur inside
  where
    skip : a.cursor ≤ (next_region a).cursor → Kept a (next_region a)
    skip h = record { regions = refl; free = refl; total = refl; grown = h }

-- A run that fits into the current region.
take_run-Bumped :
    (a : PhysFrameAllocator) (n : ℕ) (r : Region)
    → MapOk a.regions
    → CursorOk a
    → n < 2 ^ 40
    → get_elem? a.regions a.region_idx ≡ some r
    → add64 a.cursor (mul64 n frame_size) ≤ r.end
    → Bumped a n (some a.cursor, take_run a n)
take_run-Bumped a n r m c small e fits =
    let (_, top, _, _) = m.each a.region_idx r e in
    let (low, stop) = c.inside r e in
    let same = c.aligned in
    let under = c.low in
    took a.cursor refl (record { regions = refl; free = refl; total = refl; grown = omega arith })
      (record { inside = λ s f. ground arith; aligned = omega arith; low = omega arith }) refl
      (omega arith) same (omega arith) (a.region_idx, r, e, low, omega arith)

pub unchanged-Bumped : (a : PhysFrameAllocator) (n : ℕ) → CursorOk a → Bumped a n (none, a)
unchanged-Bumped a n c =
    exhausted refl (record { regions = refl; free = refl; total = refl; grown = omega arith }) c
      refl

pub bump-Bumped :
    (rounds : ℕ) (a : PhysFrameAllocator) (n : ℕ)
    → MapOk a.regions
    → CursorOk a
    → n < 2 ^ 40
    → Bumped a n (bump rounds a n)
unfolding bump
bump-Bumped zero a n m c small = unchanged-Bumped a n c
bump-Bumped (suc rounds) a n m c small = elim (Option-cases (get_elem? a.regions a.region_idx)) [
  | inl e ↦ rw (e, bump) (unchanged-Bumped a n c)
  | inr (r, e) ↦ elim (Bool-cases (leb (add64 a.cursor (mul64 n frame_size)) r.end)) [
    | inl fits ↦ rw (e, bump) (rw fits (take_run-Bumped a n r m c small e (leb→le _ _ fits)))
    | inr full ↦
        let (c', h) = next_region-CursorOk a r m c e in
        rw (e, bump)
          (rw full (Bumped-next a n _ h (bump-Bumped rounds (next_region a) n m c' small)))
  ]
]
