-- ===== src/Elf/Union.antt =====
-- The map of pages that the first pass of `load` in Xernel/kernel/src/elf.rs makes, against the
-- segments.
use xernel.Prelude.{
  ◌^◌, ◌≤◌, ltb, leb, ◌==◌, if◌then◌else◌, Bool-cases, Option-cases, mul64, checked_add, ℕ, zero,
  suc, ◌+◌, ◌-◌, ◌*◌, ◌/◌, ◌%◌, ◌≡◌, refl, sym, ap, subst, ◌∙◌, inl, inr, Bool, true, false, ◌&&◌,
  ◌||◌, Option, none, some, List, [], ◌∷◌, arith, ℕ_discrete,
}
use xernel.Elf.{loads, Segment}
use xernel.Elf.Pages.{
  PageInfo, PageMap, lookup, entry_or_insert, no_rights, add_rights, first_page, pages_end,
  cover_pages, cover_segments,
}
use xernel.Elf.Entries.{Ascending, or_info, entry-Ascending, lookup-entry_self, lookup-entry_other}

abbrev touched : Segment → Option PageInfo → Option PageInfo
touched seg o = some (add_rights seg (or_info no_rights o))

abbrev in_run : ℕ → ℕ → ℕ → Bool
in_run page left p = leb page p && ltb p (page + 4096 * left) && p % 4096 == 0

cover-Ascending :
    (left page : ℕ) (seg : Segment) (pages : PageMap)
    → Ascending 0 pages
    → Ascending 0 (cover_pages seg page left pages)
unfolding cover_pages
cover-Ascending zero page seg pages a = a
cover-Ascending (suc left) page seg pages a =
    cover-Ascending left (page + 4096) seg _
      (entry-Ascending page no_rights (add_rights seg) 0 pages a (omega arith))

lookup-cover_pages :
    (left page : ℕ) (seg : Segment) (pages : PageMap) (p : ℕ)
    → page % 4096 ≡ 0
    → Ascending 0 pages
    → lookup (cover_pages seg page left pages) p
      ≡ (if in_run page left p then touched seg (lookup pages p) else lookup pages p)
unfolding cover_pages
lookup-cover_pages zero page seg pages p whole a =
    let outside : in_run page 0 p ≡ false = ground arith in rw outside refl
lookup-cover_pages (suc left) page seg pages p whole a =
    let grown = entry_or_insert pages page no_rights (add_rights seg) in
    let b = entry-Ascending page no_rights (add_rights seg) 0 pages a (omega arith) in
    let rest = lookup-cover_pages left (page + 4096) seg grown p (omega arith) b in
    elim (ℕ_discrete page p) [
      | yes here ↦
          let past : in_run (page + 4096) left p ≡ false = ground arith in
          let first : in_run page (suc left) p ≡ true = ground arith in
          let self = lookup-entry_self page no_rights (add_rights seg) 0 pages a in
          rw first (
            (rw past at rest)
            ∙ subst
                (λ x.
                  lookup (entry_or_insert pages page no_rights (add_rights seg)) x
                  ≡ touched seg (lookup pages x))
                here self)
      | no differ ↦
          let same : in_run (page + 4096) left p ≡ in_run page (suc left) p = ground arith in
          let kept = lookup-entry_other page no_rights (add_rights seg) p pages differ in
          rw same at (rw kept at rest)
    ]

-- The page at address `p`, of 4096 bytes, ends behind the beginning of the segment and begins in
-- front of its end.
abbrev pub covers : Segment → ℕ → Bool
covers seg p = p % 4096 == 0 && ltb seg.vaddr (p + 4096) && ltb p (seg.vaddr + seg.memsz)

-- No segment ends in the last page of the 64-bit addresses, where the rounding up would wrap.
abbrev pub EndInRange : List Segment → Type 0
EndInRange [] = Unit {0}
EndInRange (seg ∷ segments) = (seg.vaddr + seg.memsz ≤ 2 ^ 64 - 4096) × EndInRange segments

-- Some segment that covers the page has the right.
abbrev pub any_covering : (Segment → Bool) → List Segment → ℕ → Bool
any_covering right [] p = false
any_covering right (seg ∷ segments) p = covers seg p && right seg || any_covering right segments p

-- What the segments say of a page: nothing if none covers it, and otherwise the union of rights.
abbrev pub described : List Segment → ℕ → Option PageInfo
described segments p =
    if any_covering (λ seg. true) segments p
    then some (record {
      writable = any_covering (λ seg. seg.writable) segments p;
      executable = any_covering (λ seg. seg.executable) segments p;
      phys = 0;
    })
    else none

abbrev merged : Option PageInfo → List Segment → ℕ → Option PageInfo
merged none segments p = described segments p
merged (some info) segments p = some (record info {
  writable = info.writable || any_covering (λ seg. seg.writable) segments p;
  executable = info.executable || any_covering (λ seg. seg.executable) segments p;
})

or_assoc : (a b c : Bool) → (a || b || c) ≡ (a || (b || c))
or_assoc true b c = refl
or_assoc false b c = refl

or_false : (a : Bool) → (a || false) ≡ a
or_false true = refl
or_false false = refl

merged-none : (o : Option PageInfo) (p : ℕ) → o ≡ merged o [] p
merged-none none p = refl
merged-none (some info) p = rw (or_false info.writable, or_false info.executable) refl

merged-step :
    (seg : Segment) (segments : List Segment) (o : Option PageInfo) (p : ℕ)
    → merged (if covers seg p then touched seg o else o) segments p ≡ merged o (seg ∷ segments) p
merged-step seg segments none p = elim (Bool-cases (covers seg p)) [
  | inl yes_covers ↦ rw yes_covers refl
  | inr not_covers ↦ rw not_covers refl
]
merged-step seg segments (some info) p = elim (Bool-cases (covers seg p)) [
  | inl yes_covers ↦
      rw
        (
          yes_covers,
          or_assoc info.writable seg.writable (any_covering (λ seg. seg.writable) segments p),
          or_assoc info.executable seg.executable (any_covering (λ seg. seg.executable) segments p),
        )
        refl
  | inr not_covers ↦ rw not_covers refl
]

pages_end_lem :
    (seg : Segment) (end : ℕ)
    → pages_end seg ≡ some end
    → seg.vaddr + seg.memsz ≤ 2 ^ 64 - 4096
    → end ≡ (seg.vaddr + seg.memsz + 4095) / 4096 * 4096
unfolding pages_end
pages_end_lem seg end e low = elim (Option-cases (checked_add seg.vaddr seg.memsz)) [
  | inl over ↦ absurd (cc (rw (over, pages_end) at e))
  | inr (last, fits) ↦
      let same : mul64 ((last + 4095) / 4096) 4096 ≡ end = cc (rw (fits, pages_end) at e) in
      let sum : seg.vaddr + seg.memsz ≡ last = ground (arith, fits) in omega arith
]

lookup-cover_segment :
    (seg : Segment) (end : ℕ) (pages : PageMap) (p : ℕ)
    → pages_end seg ≡ some end
    → seg.vaddr + seg.memsz ≤ 2 ^ 64 - 4096
    → Ascending 0 pages
    → lookup (cover_pages seg (first_page seg) ((end - first_page seg) / 4096) pages) p
      ≡ (if covers seg p then touched seg (lookup pages p) else lookup pages p)
lookup-cover_segment seg end pages p e low a =
    let start = first_page seg in
    let whole = pages_end_lem seg end e low in
    let same : in_run start ((end - start) / 4096) p ≡ covers seg p = ground arith in
    let back : covers seg p ≡ in_run start ((end - start) / 4096) p = sym same in
    rw back (lookup-cover_pages ((end - start) / 4096) start seg pages p (omega arith) a)

lookup-cover_segments :
    (segments : List Segment) (pages pages' : PageMap) (p : ℕ)
    → Ascending 0 pages
    → EndInRange segments
    → cover_segments segments pages ≡ loads pages'
    → lookup pages' p ≡ merged (lookup pages p) segments p
unfolding cover_segments
lookup-cover_segments [] pages pages' p a low e =
    let same : pages' ≡ pages = cc in rw same (merged-none (lookup pages p) p)
lookup-cover_segments (seg ∷ segments) pages pages' p a (seg_low, low) e =
    elim (Option-cases (pages_end seg)) [
      | inl bad ↦ absurd (cc (rw (bad, cover_segments) at e))
      | inr (end, good) ↦
          let grown = cover_pages seg (first_page seg) ((end - first_page seg) / 4096) pages in
          lookup-cover_segments segments grown pages' p
            (cover-Ascending ((end - first_page seg) / 4096) (first_page seg) seg pages a) low
            (rw (good, cover_segments) at e)
          ∙ ap (λ o. merged o segments p) (lookup-cover_segment seg end pages p good seg_low a)
          ∙ merged-step seg segments (lookup pages p) p
    ]

-- The first pass makes the map that the segments describe: a page is in it if and only if some
-- segment covers the page, and it may be written, or executed, if and only if one of the segments
-- that cover it may be. No order or overlap of the segments matters. A segment covers the pages
-- that have a byte between its beginning and its end, and none ends in the last page of the 64-bit
-- addresses.
pub cover_segments-described :
    (segments : List Segment) (pages : PageMap) (p : ℕ)
    → EndInRange segments
    → cover_segments segments [] ≡ loads pages
    → lookup pages p ≡ described segments p
cover_segments-described segments pages p low e = lookup-cover_segments segments [] pages p tt low e
