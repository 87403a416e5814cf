-- ===== src/Elf/Rounds.antt =====
-- The rounds given to the loop that copies a segment in Xernel/kernel/src/elf.rs are enough.
use xernel.Prelude.{
  ltb, Bool-cases, ltb→lt, add64, ℕ, zero, suc, ◌+◌, ◌-◌, ◌/◌, ◌*◌, ◌≤◌, ◌<◌, ◌≡◌, refl, ◌⊎◌, inl,
  inr, false, List, arith,
}
use xernel.Elf.{Segment, LoadResult, loads, fails, ElfError}
use xernel.Elf.Pages.{PageMap}
use xernel.Elf.Load.{chunk, copy_chunk, copy_segment}

LoadResult-cases :
    {A : Type 0} (r : LoadResult A) → ((e : ElfError) × (r ≡ fails e)) ⊎ ((a : A) × (r ≡ loads a))
LoadResult-cases (fails e) = inl (e, refl)
LoadResult-cases (loads a) = inr (a, refl)

chunk_positive : (seg : Segment) (copied : ℕ) → copied < seg.filesz → 0 < chunk seg copied
chunk_positive seg copied h =
    let va = add64 seg.vaddr copied in
    let inside : va - va / 4096 * 4096 < 4096 = omega arith in omega arith

-- With rounds for all the bytes left, the loop ends by itself: more rounds change nothing.
pub copy_segment-enough :
    (image : List ℕ) (pages : PageMap) (seg : Segment) (rounds extra copied : ℕ) (memory : ℕ → ℕ)
    → seg.filesz ≤ copied + rounds
    → copy_segment image pages seg (rounds + extra) copied memory
      ≡ copy_segment image pages seg rounds copied memory
unfolding copy_segment
copy_segment-enough image pages seg zero zero copied memory h = refl
copy_segment-enough image pages seg zero (suc extra) copied memory h =
    let over : ltb copied seg.filesz ≡ false = ground arith in
    let e : 0 + suc extra ≡ suc extra = omega arith in rw e (rw over refl)
copy_segment-enough image pages seg (suc rounds) extra copied memory h =
    let e : suc rounds + extra ≡ suc (rounds + extra) = omega arith in
    rw e (elim (Bool-cases (ltb copied seg.filesz)) [
      | inr over ↦ rw over refl
      | inl more ↦ elim (LoadResult-cases (copy_chunk image pages seg copied memory)) [
        | inl (err, bad) ↦ rw (more, bad) refl
        | inr (memory', good) ↦
            let step = chunk_positive seg copied (ltb→lt _ _ more) in
            rw (more, good)
              (copy_segment-enough image pages seg rounds extra (copied + chunk seg copied) memory'
                (omega (arith, step, h)))
      ]
    ])
