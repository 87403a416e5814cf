-- ===== src/Fs/Lookup.antt =====
-- Looking up the entry that `fs_create` of Xernel/userland/init/src/main.rs has made.
use xernel.Prelude.{
  ◌==◌, eq→==, ==→eq, Bool-cases, length, octet, ℕ, zero, suc, ◌+◌, ◌*◌, ◌^◌, ◌≤◌, ◌<◌, ◌≡◌, refl,
  ◌∙◌, ◌≢◌, inl, inr, Bool, true, false, ◌&&◌, not, none, some, List, arith, ℕ_discrete,
}
use xernel.Fs.{sector, dir_entries, ent_size, name_len, rd_u32, free_slot, fill_entry}
use xernel.Fs.Read.{matches, find_entry, fs_find}
use xernel.Fs.Entries.{
  fill_entry-size, fill_entry-start, octet-fill_entry_before, octet-fill_entry_name,
}

-- The test of one entry in `fs_find`.
abbrev is_named : List ℕ → List ℕ → ℕ → Bool
is_named dir name i =
    not (octet dir (i * ent_size) == 0) && matches dir (i * ent_size) name 0 name_len

find_entry-none :
    (left i : ℕ) (dir name : List ℕ)
    → find_entry dir name i left ≡ none
    → (j : ℕ) → i ≤ j
    → j < i + left
    → is_named dir name j ≡ false
unfolding find_entry
find_entry-none zero i dir name e j lo hi = absurd (omega arith)
find_entry-none (suc left) i dir name e j lo hi = elim (Bool-cases (is_named dir name i)) [
  | inl found ↦ absurd (cc (rw found at e))
  | inr other ↦ elim (ℕ_discrete i j) [
    | yes same ↦ rw same at other
    | no differ ↦
        find_entry-none left (suc i) dir name (rw other at e) j (omega arith) (omega arith)
  ]
]

find_entry-first :
    (left i slot : ℕ) (dir name : List ℕ)
    → i ≤ slot
    → slot < i + left
    → ((j : ℕ) → j < slot → is_named dir name j ≡ false)
    → is_named dir name slot ≡ true
    → find_entry dir name i left
      ≡ some (rd_u32 dir (slot * ent_size + 24), rd_u32 dir (slot * ent_size + 28))
unfolding find_entry
find_entry-first zero i slot dir name lo hi before found = absurd (omega arith)
find_entry-first (suc left) i slot dir name lo hi before found = elim (ℕ_discrete i slot) [
  | yes same ↦ rw (same, found) refl
  | no differ ↦
      rw (before i (omega arith))
        (find_entry-first left (suc i) slot dir name (omega arith) (omega arith) before found)
]

matches-all :
    (left x base : ℕ) (dir name : List ℕ)
    → ((y : ℕ) → y < x + left → octet dir (base + y) ≡ octet name y)
    → matches dir base name x left ≡ true
unfolding matches
matches-all zero x base dir name h = refl
matches-all (suc left) x base dir name h =
    rw (eq→== _ _ (h x (omega arith)))
      (matches-all left (suc x) base dir name (λ y l. h y (omega arith)))

matches-same :
    (left x base : ℕ) (dir dir' name : List ℕ)
    → ((y : ℕ) → y < x + left → octet dir (base + y) ≡ octet dir' (base + y))
    → matches dir base name x left ≡ matches dir' base name x left
unfolding matches
matches-same zero x base dir dir' name h = refl
matches-same (suc left) x base dir dir' name h =
    rw (h x (omega arith), matches-same left (suc x) base dir dir' name (λ y l. h y (omega arith)))
      refl

pub free_slot-free :
    (left i slot : ℕ) (dir : List ℕ)
    → free_slot dir i left ≡ some slot
    → (slot < i + left) × (octet dir (slot * ent_size) ≡ 0)
unfolding free_slot
free_slot-free zero i slot dir e = absurd (cc)
free_slot-free (suc left) i slot dir e = elim (Bool-cases (octet dir (i * ent_size) == 0)) [
  | inl free ↦ let same : i ≡ slot = cc (rw free at e) in (omega arith, rw same at (==→eq _ _ free))
  | inr taken ↦
      let (lt, z) = free_slot-free left (suc i) slot dir (rw taken at e) in (omega arith, z)
]

-- The slots without a file have no name left in them.
abbrev pub Clean : List ℕ → Type 0
Clean dir =
    (i x : ℕ)
    → i < dir_entries
    → x < name_len
    → octet dir (i * ent_size) ≡ 0
    → octet dir (i * ent_size + x) ≡ 0

pub fs_find-fill_entry :
    (dir name : List ℕ) (slot len start : ℕ)
    → length dir ≡ sector
    → Clean dir
    → free_slot dir 0 dir_entries ≡ some slot
    → fs_find dir name ≡ none
    → octet name 0 ≢ 0
    → len < 2 ^ 32
    → start < 2 ^ 32
    → fs_find (fill_entry dir (slot * ent_size) name len start) name ≡ some (len, start)
fs_find-fill_entry dir name slot len start whole clean free absent first small low =
    find_entry-first dir_entries 0 slot new name (omega arith) is_free.0 before found
    ∙ rw
        (
          fill_entry-size dir slot name len start whole here small,
          fill_entry-start dir slot name len start whole here low,
        )
        refl
  where
    is_free : (slot < 0 + dir_entries) × (octet dir (slot * ent_size) ≡ 0)
    is_free = free_slot-free dir_entries 0 slot dir free

    here : slot < dir_entries
    here = omega (arith, is_free.0)

    new : List ℕ
    new = fill_entry dir (slot * ent_size) name len start

    kept : (i : ℕ) → i < slot * ent_size → octet new i ≡ octet dir i
    kept i h = octet-fill_entry_before dir slot name len start whole here i h

    put : (x : ℕ) → x < name_len → octet new (slot * ent_size + x) ≡ octet name x
    put x h =
        octet-fill_entry_name dir slot name len start whole here x h (clean slot x here h is_free.1)

    before : (j : ℕ) → j < slot → is_named new name j ≡ false
    before j h =
        rw
          (
            kept (j * ent_size) (omega arith),
            matches-same name_len 0 (j * ent_size) new dir name
                (λ y l. kept (j * ent_size + y) (omega arith)),
          )
          (find_entry-none dir_entries 0 dir name absent j (omega arith) (omega (arith, here)))

    start_of_name : octet new (slot * ent_size) ≡ octet name 0
    start_of_name =
        let e : slot * ent_size + 0 ≡ slot * ent_size = omega arith in rw e at (put 0 (omega arith))

    found : is_named new name slot ≡ true
    found =
        let visible : (octet name 0 == 0) ≡ false = ground arith in
        rw (start_of_name, visible)
          (matches-all name_len 0 (slot * ent_size) new name (λ y l. put y (omega arith)))
