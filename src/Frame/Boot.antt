-- ===== src/Frame/Boot.antt =====
-- The allocator that Xernel/kernel/src/mm/frame.rs builds from the memory map of the bootloader.
use xernel.Frame.History.{World, Reach, Page, Good, Reach-Good}
use xernel.Prelude.{
  ltb, ltb→lt, Bool-cases, length, get_elem?, drop, ℕ, zero, suc, ◌+◌, ◌%◌, ◌^◌, ◌≤◌, ◌<◌, ◌≡◌,
  refl, inl, inr, some, List, [], ◌∷◌, map, arith,
}
use xernel.Frame.{Region, new, stats, align, first_start, retain}
use xernel.Frame.Bump.{MapOk, CursorOk, InMap}
use xernel.Frame.Pages.{count, All, All-map}

-- What the bootloader documents of the usable entries of its memory map: they ascend, do not
-- overlap, and end below the largest physical address. They need not be aligned.
abbrev pub MemoryMap : ℕ → List Region → Type 0
MemoryMap low [] = Unit {0}
MemoryMap low (r ∷ rs) = (low ≤ r.start) × (r.start ≤ r.end) × (r.end ≤ 2 ^ 52) × MemoryMap r.end rs

abbrev Whole : Region → Type 0
Whole r = (r.start < r.end) × (r.end ≤ 2 ^ 52) × (r.start % 4096 ≡ 0) × (r.end % 4096 ≡ 0)

abbrev Ordered : ℕ → List Region → Type 0
Ordered low [] = Unit {0}
Ordered low (r ∷ rs) = (low ≤ r.start) × Whole r × Ordered r.end rs

Ordered-retain :
    (low low' : ℕ) (rs : List Region)
    → low' ≤ low
    → MemoryMap low rs
    → Ordered low' (retain (map align rs))
Ordered-retain low low' [] h m = tt
Ordered-retain low low' (r ∷ rs) h (a, b, c, m) =
    elim (Bool-cases (ltb (align r).start (align r).end)) [
      | inl keep ↦ rw keep (
        omega arith,
        (ltb→lt _ _ keep, omega arith, omega arith, omega arith),
        Ordered-retain r.end (align r).end rs (omega arith) m,
      )
      | inr drop ↦ rw drop (Ordered-retain r.end low' rs (omega arith) m)
    ]

Ordered-each :
    (low : ℕ) (rs : List Region) (i : ℕ) (r : Region)
    → Ordered low rs
    → get_elem? rs i ≡ some r
    → Whole r
Ordered-each low [] i r o e = absurd (cc)
Ordered-each low (s ∷ rs) zero r o e = ground arith
Ordered-each low (s ∷ rs) (suc i) r o e = Ordered-each s.end rs i r o.2 e

Ordered-apart :
    (low : ℕ) (rs : List Region) (i : ℕ) (r s : Region)
    → Ordered low rs
    → get_elem? rs i ≡ some r
    → get_elem? rs (suc i) ≡ some s
    → r.end ≤ s.start
Ordered-apart low [] i r s o e f = absurd (cc)
Ordered-apart low (x ∷ []) zero r s o e f = absurd (cc)
Ordered-apart low (x ∷ y ∷ rs) zero r s o e f = ground arith
Ordered-apart low (x ∷ rs) (suc i) r s o e f = Ordered-apart x.end rs i r s o.2 e f

Ordered-MapOk : (low : ℕ) (rs : List Region) → Ordered low rs → MapOk rs
Ordered-MapOk low rs o = record {
  each = λ i r. Ordered-each low rs i r o;
  apart = λ i r s. Ordered-apart low rs i r s o;
}

first_start-CursorOk :
    (low : ℕ) (rs : List Region) (total : ℕ)
    → Ordered low rs
    → CursorOk (record {
      regions = rs;
      region_idx = 0;
      cursor = first_start rs;
      free = [];
      total_frames = total;
      in_use = 0;
    })
first_start-CursorOk low [] total o = record {
  inside = λ r e. absurd (cc);
  aligned = omega arith;
  low = omega arith;
}
first_start-CursorOk low (x ∷ rs) total o = record {
  inside = λ r e. ground arith;
  aligned = omega arith;
  low = omega arith;
}

abbrev Within : List Region → Region → Type 0
Within regions r =
    (i : ℕ) × (s : Region) × (get_elem? regions i ≡ some s) × (s.start ≤ r.start) × (r.end ≤ s.end)

Within-further : (s : Region) (rs : List Region) (r : Region) → Within rs r → Within (s ∷ rs) r
Within-further s rs r (j, t, g, a, b) = (suc j, t, g, a, b)

-- A region that the allocator keeps lies within one that the memory map names.
retain-Within :
    (low : ℕ) (regions : List Region) (i : ℕ) (r : Region)
    → MemoryMap low regions
    → get_elem? (retain (map align regions)) i ≡ some r
    → Within regions r
retain-Within low [] i r m e = absurd (cc)
retain-Within low (s ∷ rs) zero r m e = elim (Bool-cases (ltb (align s).start (align s).end)) [
  | inl keep ↦ (0, s, refl, ground arith, ground arith)
  | inr drop ↦ Within-further s rs r (retain-Within s.end rs 0 r m.3 (rw drop at e))
]
retain-Within low (s ∷ rs) (suc i) r m e = elim (Bool-cases (ltb (align s).start (align s).end)) [
  | inl keep ↦ Within-further s rs r (retain-Within s.end rs i r m.3 (rw keep at e))
  | inr drop ↦ Within-further s rs r (retain-Within s.end rs (suc i) r m.3 (rw drop at e))
]

-- The allocator at boot, with no frame handed out.
abbrev pub booted : List Region → World
booted regions = record { state = new regions; live = [] }

booted-Good :
    (regions : List Region) → MemoryMap 0 regions → Good (new regions).regions (booted regions)
unfolding new
booted-Good regions m =
    let o = Ordered-retain 0 0 regions (omega arith) m in
    record {
      same_map = refl;
      map_ok = Ordered-MapOk 0 _ o;
      cursor_ok = first_start-CursorOk 0 _ _ o;
      distinct = λ x. omega arith;
      live_pages = tt;
      free_pages = tt;
      counted = refl;
      room = omega arith;
    }

-- A whole, aligned frame inside a region of the memory map.
abbrev pub Usable : List Region → ℕ → Type 0
Usable regions x = (x % 4096 ≡ 0) × InMap regions x 1

Page-Usable :
    (regions rs : List Region) (cursor x : ℕ)
    → MemoryMap 0 regions
    → rs ≡ (new regions).regions
    → Page rs cursor x
    → Usable regions x
unfolding new
Page-Usable regions rs cursor x m e (_, al, (i, r, g, lo, hi)) =
    let (j, s, f, a, b) = retain-Within 0 regions i r m (rw e at g) in
    (al, (j, s, f, omega arith, omega arith))

-- From a memory map as the bootloader documents it, and whatever sequence of calls follows by
-- clients that free only what they hold, with fewer than 2^40 frames asked for at a time: no frame is held twice, or held and free at once; every
-- frame that is held is a whole aligned frame inside one region of that memory map; and `in_use`
-- counts exactly the frames that are held.
pub booted-Reach :
    (regions : List Region) (v : World)
    → MemoryMap 0 regions
    → Reach (booted regions) v
    → ((x : ℕ) → count x v.live + count x v.state.free ≤ 1)
      × All (Usable regions) v.live
      × ((stats v.state).0 ≡ length v.live)
unfolding stats
booted-Reach regions v m r =
    let g = Reach-Good (new regions).regions (booted-Good regions m) r in
    (
      g.distinct,
      All-map v.live (λ x p. Page-Usable regions v.state.regions v.state.cursor x m g.same_map p)
          g.live_pages,
      g.counted,
    )
