-- ===== src/Elf/Pages.antt =====
-- The first pass of `load` in Xernel/kernel/src/elf.rs: every page that a segment covers, once,
-- with the union of the permissions. The sorted map is a list of entries in ascending order.
use xernel.Prelude.{
  ltb, ◌==◌, if◌then◌else◌, mul64, checked_add, ℕ, zero, suc, ◌+◌, ◌-◌, ◌*◌, ◌/◌, Bool, false, ◌||◌,
  Option, none, some, List, [], ◌∷◌,
}
use xernel.Elf.{malformed, LoadResult, loads, fails, Segment}

pub record PageInfo : Type 0 where
  pub writable : Bool
  pub executable : Bool
  pub phys : ℕ

abbrev pub PageMap : Type 0
PageMap = List (ℕ × PageInfo)

abbrev pub lookup : PageMap → ℕ → Option PageInfo
lookup [] page = none
lookup ((p, info) ∷ pages) page = if p == page then some info else lookup pages page

-- `entry(page).or_insert(..)`, changed in place.
unfoldable pub entry_or_insert : PageMap → ℕ → PageInfo → (PageInfo → PageInfo) → PageMap
entry_or_insert [] page fresh f = (page, f fresh) ∷ []
entry_or_insert ((p, info) ∷ pages) page fresh f =
    let rest = entry_or_insert pages page fresh f in
    if p == page
    then (p, f info) ∷ pages
    else if ltb page p
    then (page, f fresh) ∷ (p, info) ∷ pages
    else (p, info) ∷ rest

abbrev pub no_rights : PageInfo
no_rights = record { writable = false; executable = false; phys = 0 }

-- `info.writable |= seg.writable; info.executable |= seg.executable`.
abbrev pub add_rights : Segment → PageInfo → PageInfo
add_rights seg info = record info {
  writable = info.writable || seg.writable;
  executable = info.executable || seg.executable;
}

abbrev pub first_page : Segment → ℕ
first_page seg = seg.vaddr / 4096 * 4096

-- `div_ceil(PAGE) * PAGE` of the end of a segment, if that is in range.
unfoldable pub pages_end : Segment → Option ℕ
pages_end seg = elim (checked_add seg.vaddr seg.memsz) [
  | none ↦ none
  | some end ↦ some (mul64 ((end + 4095) / 4096) 4096)
]

-- The loop over the pages of a segment, with the pages left.
unfoldable pub cover_pages : Segment → ℕ → ℕ → PageMap → PageMap
unfolding entry_or_insert
cover_pages seg page zero pages = pages
cover_pages seg page (suc left) pages =
    cover_pages seg (page + 4096) left (entry_or_insert pages page no_rights (add_rights seg))

unfoldable pub cover_segments : List Segment → PageMap → LoadResult PageMap
unfolding cover_pages
cover_segments [] pages = loads pages
cover_segments (seg ∷ segments) pages = elim (pages_end seg) [
  | none ↦ fails malformed
  | some end ↦
      let start = first_page seg in
      cover_segments segments (cover_pages seg start ((end - start) / 4096) pages)
]
