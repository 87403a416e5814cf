-- ===== src/Elf/Entries.antt =====
-- The sorted map of the loader in Xernel/kernel/src/elf.rs: what `entry(page).or_insert(..)` does to it.
use xernel.Prelude.{
  ltb, ◌==◌, ltb→lt, ==_refl, Bool-cases, ℕ, suc, ◌≤◌, ◌<◌, ◌≡◌, refl, ◌≢◌, inl, inr, false, Option,
  none, some, [], ◌∷◌, arith,
}
use xernel.Elf.Pages.{PageInfo, PageMap, lookup, entry_or_insert}

-- The keys ascend, from `low` on.
abbrev pub Ascending : ℕ → PageMap → Type 0
Ascending low [] = Unit {0}
Ascending low ((p, info) ∷ pages) = (low ≤ p) × Ascending (suc p) pages

Ascending-weaken :
    (low low' : ℕ) (pages : PageMap) → low' ≤ low → Ascending low pages → Ascending low' pages
Ascending-weaken low low' [] h a = tt
Ascending-weaken low low' ((p, info) ∷ pages) h (le, a) = (omega arith, a)

lookup-below : (low q : ℕ) (pages : PageMap) → Ascending low pages → q < low → lookup pages q ≡ none
lookup-below low q [] a h = refl
lookup-below low q ((p, info) ∷ pages) (le, a) h =
    let miss : (p == q) ≡ false = ground arith in
    rw miss (lookup-below (suc p) q pages a (omega arith))

abbrev pub or_info : PageInfo → Option PageInfo → PageInfo
or_info fresh none = fresh
or_info fresh (some info) = info

module _ (q : ℕ) (fresh : PageInfo) (f : PageInfo → PageInfo) where
  pub entry-Ascending :
      (low : ℕ) (pages : PageMap)
      → Ascending low pages
      → low ≤ q
      → Ascending low (entry_or_insert pages q fresh f)
  unfolding entry_or_insert
  entry-Ascending low [] a h = (h, tt)
  entry-Ascending low ((p, info) ∷ pages) (le, a) h = elim (Bool-cases (p == q)) [
    | inl hit ↦ rw hit (le, a)
    | inr miss ↦ elim (Bool-cases (ltb q p)) [
      | inl before ↦ rw (miss, before) (h, (ltb→lt _ _ before, a))
      | inr after ↦ rw (miss, after) (le, entry-Ascending (suc p) pages a (ground arith))
    ]
  ]

  pub lookup-entry_self :
      (low : ℕ) (pages : PageMap)
      → Ascending low pages
      → lookup (entry_or_insert pages q fresh f) q ≡ some (f (or_info fresh (lookup pages q)))
  unfolding entry_or_insert
  lookup-entry_self low [] a = rw (==_refl q) refl
  lookup-entry_self low ((p, info) ∷ pages) (le, a) = elim (Bool-cases (p == q)) [
    | inl hit ↦ rw (hit, hit) refl
    | inr miss ↦ elim (Bool-cases (ltb q p)) [
      | inl before ↦
          rw (miss, before) (rw (==_refl q, lookup-below (suc p) q pages a (ground arith)) refl)
      | inr after ↦ rw (miss, after) (rw miss (lookup-entry_self (suc p) pages a))
    ]
  ]

  pub lookup-entry_other :
      (r : ℕ) (pages : PageMap)
      → q ≢ r
      → lookup (entry_or_insert pages q fresh f) r ≡ lookup pages r
  unfolding entry_or_insert
  lookup-entry_other r [] differ = let miss : (q == r) ≡ false = ground arith in rw miss refl
  lookup-entry_other r ((p, info) ∷ pages) differ = elim (Bool-cases (p == q)) [
    | inl hit ↦ let miss : (p == r) ≡ false = ground arith in rw hit (rw miss refl)
    | inr other ↦ elim (Bool-cases (ltb q p)) [
      | inl before ↦ let miss : (q == r) ≡ false = ground arith in rw (other, before) (rw miss refl)
      | inr after ↦
          rw (other, after)
            (elim (Bool-cases (p == r)) [
              | inl here ↦ rw here refl
              | inr past ↦ rw past (lookup-entry_other r pages differ)
            ])
    ]
  ]
