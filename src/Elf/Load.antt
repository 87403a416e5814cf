-- ===== src/Elf/Load.antt =====
-- The second and the third pass of `load` in Xernel/kernel/src/elf.rs, over
-- the address spaces.
use xernel.Vspace.{fresh_frame, map_user}
use xernel.Prelude.{
  ltb, ◌==◌, if◌then◌else◌, add64, ℕ, zero, suc, ◌+◌, ◌-◌, min, Bool, true, false, Option, none,
  some, List, [], ◌∷◌,
}
use xernel.Elf.{
  no_frame, map_failed, malformed, LoadResult, loads, fails, ◌>>=◌, or_malformed, get_range,
  Segment, parse,
}
use xernel.Elf.Pages.{PageInfo, PageMap, lookup, cover_segments}
use xernel.Syscall.{Kernel, page_of}
use xernel.Syscall.Memory.{MapPage}

-- `copy_nonoverlapping`.
unfoldable pub store : (ℕ → ℕ) → ℕ → List ℕ → ℕ → ℕ
store memory pa [] = memory
store memory pa (b ∷ bytes) = store (λ x. if x == pa then b else memory x) (pa + 1) bytes

module _ (map_to : MapPage) where
  -- One page of the second pass.
  abbrev pub placed : ℕ → PageInfo → ℕ → Bool × Kernel → LoadResult (ℕ × PageInfo) × Kernel
  placed page info phys (false, k) = (fails map_failed, k)
  placed page info phys (true, k) = (loads (page, record info { phys = phys }), k)

  abbrev pub place : ℕ → ℕ → PageInfo → Option ℕ × Kernel → LoadResult (ℕ × PageInfo) × Kernel
  place space page info (none, k) = (fails no_frame, k)
  place space page info (some phys, k) =
      placed page info phys (map_user map_to k space page phys info.writable info.executable)

  abbrev pub prepend_page : ℕ × PageInfo → LoadResult PageMap × Kernel → LoadResult PageMap × Kernel
  prepend_page page (loads pages, k) = (loads (page ∷ pages), k)
  prepend_page page (fails e, k) = (fails e, k)

  abbrev pub and_rest :
      (Kernel → LoadResult PageMap × Kernel)
      → LoadResult (ℕ × PageInfo) × Kernel
      → LoadResult PageMap × Kernel
  and_rest next (fails e, k) = (fails e, k)
  and_rest next (loads entry, k) = prepend_page entry (next k)

  -- The second pass, which ends at the first page that cannot be allocated or mapped.
  unfoldable pub map_all : Kernel → ℕ → PageMap → LoadResult PageMap × Kernel
  map_all k space [] = (loads [], k)
  map_all k space ((page, info) ∷ pages) =
      and_rest (λ k'. map_all k' space pages) (place space page info (fresh_frame k))

-- One round of the third pass: how many bytes to copy, which, and where to; or the error.
abbrev pub chunk : Segment → ℕ → ℕ
chunk seg copied =
    let va = add64 seg.vaddr copied in min (4096 - (va - page_of va)) (seg.filesz - copied)

abbrev phys_in : PageMap → ℕ → LoadResult ℕ
phys_in pages page = elim (lookup pages page) [
  | none ↦ fails malformed
  | some info ↦ loads info.phys
]

unfoldable pub copy_chunk : List ℕ → PageMap → Segment → ℕ → (ℕ → ℕ) → LoadResult (ℕ → ℕ)
unfolding store
copy_chunk image pages seg copied memory = do
  let va = add64 seg.vaddr copied
  phys ← phys_in pages (page_of va)
  src ← or_malformed (get_range image (add64 seg.offset copied) (chunk seg copied))
  loads (store memory (phys + (va - page_of va)) src)

-- The loop over the bytes of a segment. Every round copies a byte or more, so that the rounds
-- given are at most the bytes of the segment.
unfoldable pub copy_segment :
    List ℕ → PageMap → Segment → ℕ → ℕ → (ℕ → ℕ) → LoadResult (Unit {0}) × (ℕ → ℕ)
unfolding copy_chunk
copy_segment image pages seg zero copied memory = (loads tt, memory)
copy_segment image pages seg (suc rounds) copied memory =
    if ltb copied seg.filesz
    then elim (copy_chunk image pages seg copied memory) [
      | fails e ↦ (fails e, memory)
      | loads memory' ↦ copy_segment image pages seg rounds (copied + chunk seg copied) memory'
    ]
    else (loads tt, memory)

unfoldable pub copy_segments :
    List ℕ → PageMap → List Segment → (ℕ → ℕ) → LoadResult (Unit {0}) × (ℕ → ℕ)
unfolding copy_segment
copy_segments image pages [] memory = (loads tt, memory)
copy_segments image pages (seg ∷ segments) memory =
    let (outcome, memory') = copy_segment image pages seg seg.filesz 0 memory in
    elim outcome [
      | fails e ↦ (fails e, memory')
      | loads t ↦ copy_segments image pages segments memory'
    ]

abbrev pub with_memory : Kernel → ℕ → LoadResult (Unit {0}) × (ℕ → ℕ) → LoadResult ℕ × Kernel
with_memory k entry (loads t, memory) = (loads entry, record k { memory = memory })
with_memory k entry (fails e, memory) = (fails e, record k { memory = memory })

abbrev pub copy_all :
    List ℕ → ℕ → List Segment → LoadResult PageMap × Kernel → LoadResult ℕ × Kernel
copy_all image entry segments (fails e, k) = (fails e, k)
copy_all image entry segments (loads pages, k) =
    with_memory k entry (copy_segments image pages segments k.memory)

module _ (map_to : MapPage) where
  -- The passes over the segments.
  abbrev pub load_pages :
      Kernel → ℕ → List ℕ → ℕ → List Segment → LoadResult PageMap → LoadResult ℕ × Kernel
  load_pages k space image entry segments (fails e) = (fails e, k)
  load_pages k space image entry segments (loads pages) =
      copy_all image entry segments (map_all map_to k space pages)

  abbrev pub load_parsed :
      Kernel → ℕ → List ℕ → LoadResult (ℕ × List Segment) → LoadResult ℕ × Kernel
  load_parsed k space image (fails e) = (fails e, k)
  load_parsed k space image (loads (entry, segments)) =
      load_pages k space image entry segments (cover_segments segments [])

  unfoldable pub load : Kernel → List ℕ → ℕ → LoadResult ℕ × Kernel
  load k image space = load_parsed k space image (parse image)
