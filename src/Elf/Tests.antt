-- ===== src/Elf/Tests.antt =====
-- The loader on two segments that share a page, and on an image without segments.
use xernel.Prelude.{arith, replicate, from_le_bytes, ℕ, ◌≡◌, refl, true, false, List, [], ◌∷◌, ◌++◌}
use xernel.Elf.{
  too_small, loads, fails, get_range, rd_u16, rd_u32, rd_u64, Segment, collect, check_ident, parse,
}
use xernel.Elf.Pages.{PageMap, lookup, entry_or_insert, pages_end, cover_pages, cover_segments}
use xernel.Elf.Union.{described, cover_segments-described}

abbrev code : Segment
code = record {
  offset = 0;
  vaddr = 0x400000;
  filesz = 0x1800;
  memsz = 0x1800;
  writable = false;
  executable = true;
}

-- It begins in the last page of the code.
abbrev globals : Segment
globals = record {
  offset = 0x1800;
  vaddr = 0x401800;
  filesz = 0x10;
  memsz = 0x1000;
  writable = true;
  executable = false;
}

abbrev two_segments : List Segment
two_segments = globals ∷ code ∷ []

abbrev three_pages : PageMap
three_pages =
    (0x400000, record { writable = false; executable = true; phys = 0 })
    ∷ (0x401000, record { writable = true; executable = true; phys = 0 })
    ∷ (0x402000, record { writable = true; executable = false; phys = 0 })
    ∷ []

covered : cover_segments two_segments [] ≡ loads three_pages
unfolding cover_segments pages_end cover_pages entry_or_insert
covered = refl

cover_segments-described_example : lookup three_pages 0x401000 ≡ described two_segments 0x401000
cover_segments-described_example =
    cover_segments-described two_segments three_pages 0x401000 (omega arith, (omega arith, tt))
      covered

-- The header of an image with the entry point 0x400000 and no program headers.
abbrev bare_image : List ℕ
bare_image =
    0x7f ∷ 0x45 ∷ 0x4c ∷ 0x46 ∷ 2 ∷ 1 ∷ replicate 18 0
    ++ 0 ∷ 0 ∷ 0x40 ∷ replicate 29 0
    ++ 56 ∷ replicate 9 0

parsed : (parse bare_image ≡ loads (0x400000, [])) × (parse (0x7f ∷ []) ≡ fails too_small)
unfolding parse check_ident collect rd_u16 rd_u32 rd_u64 get_range from_le_bytes
parsed = (refl, refl)
