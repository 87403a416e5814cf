-- ===== src/Fs/Entries.antt =====
-- The directory of XernelFS in Xernel/userland/init/src/main.rs: the entry that `fs_create` fills is
-- the one that `fs_find` finds.
use xernel.Prelude.{
  octet-take, length-splice, octet-splice_after, octet-splice_before, octet-splice_in, length, take,
  length-take, get_elem?-ge, le_bytes, from_le_bytes, octet_of, octet, splice, length-le_bytes,
  from_le_bytes-le_bytes, ℕ, ◌+◌, ◌*◌, ◌^◌, ◌≤◌, ◌<◌, min, ◌≡◌, refl, sym, ap, ◌∙◌, List, arith,
  dec_lt,
}
use xernel.Fs.{sector, dir_entries, ent_size, name_len, rd_u32, wr_u32, fill_entry}

module _ (buf : List ℕ) (off v : ℕ) (fits : off + 4 ≤ length buf) where
  inside : off + length (le_bytes 4 v) ≤ length buf
  inside = omega (arith, length-le_bytes 4 v)

  pub length-wr_u32 : length (wr_u32 buf off v) ≡ length buf
  unfolding wr_u32
  length-wr_u32 = length-splice buf off (le_bytes 4 v) inside

  pub rd_u32-wr_u32 : v < 2 ^ 32 → rd_u32 (wr_u32 buf off v) off ≡ v
  unfolding rd_u32 wr_u32 from_le_bytes le_bytes
  rd_u32-wr_u32 small =
      let at = octet-splice_in buf off (le_bytes 4 v) inside in
      let e0 : off + 0 ≡ off = omega arith in
      rw (rw e0 at (at 0 (omega arith)), at 1 (omega arith), at 2 (omega arith), at 3 (omega arith))
        (from_le_bytes-le_bytes 4 v small)

  pub octet-wr_u32_before : (i : ℕ) → i < off → octet (wr_u32 buf off v) i ≡ octet buf i
  unfolding wr_u32
  octet-wr_u32_before i h = octet-splice_before buf off (le_bytes 4 v) inside i h

  pub octet-wr_u32_after : (i : ℕ) → off + 4 ≤ i → octet (wr_u32 buf off v) i ≡ octet buf i
  unfolding wr_u32
  octet-wr_u32_after i h =
      octet-splice_after buf off (le_bytes 4 v) inside i (omega (arith, length-le_bytes 4 v))

rd_u32-same :
    (xs ys : List ℕ) (off : ℕ)
    → ((i : ℕ) → off ≤ i → i < off + 4 → octet xs i ≡ octet ys i)
    → rd_u32 xs off ≡ rd_u32 ys off
unfolding rd_u32
rd_u32-same xs ys off h =
    rw
      (
        h off (omega arith) (omega arith),
        h (off + 1) (omega arith) (omega arith),
        h (off + 2) (omega arith) (omega arith),
        h (off + 3) (omega arith) (omega arith),
      )
      refl

-- The part of a name that an entry has room for.
abbrev cut : List ℕ → List ℕ
cut name = take (min name_len (length name)) name

length-cut : (name : List ℕ) → length (cut name) ≡ min name_len (length name)
length-cut name = omega (arith, length-take (min name_len (length name)) name)

-- The entry of a file, written to slot `slot` of a directory.
module _ (dir : List ℕ) (slot : ℕ) (name : List ℕ) (len start : ℕ) (whole : length dir ≡ sector)
    (here : slot < dir_entries) where
  abbrev named : List ℕ
  named = splice dir (slot * ent_size) (cut name)

  abbrev sized : List ℕ
  sized = wr_u32 named (slot * ent_size + 24) len

  room : slot * ent_size + length (cut name) ≤ length dir
  room = omega (arith, length-cut name)

  length-named : length named ≡ sector
  length-named = omega (arith, length-splice dir (slot * ent_size) (cut name) room)

  length-sized : length sized ≡ sector
  length-sized = omega (
    arith,
    length-named,
    length-wr_u32 named (slot * ent_size + 24) len (omega (arith, length-named)),
  )

  pub length-fill_entry : length (fill_entry dir (slot * ent_size) name len start) ≡ sector
  unfolding fill_entry
  length-fill_entry = omega (
    arith,
    length-sized,
    length-wr_u32 sized (slot * ent_size + 28) start (omega (arith, length-sized)),
  )

  pub fill_entry-size :
      len < 2 ^ 32
      → rd_u32 (fill_entry dir (slot * ent_size) name len start) (slot * ent_size + 24) ≡ len
  unfolding fill_entry
  fill_entry-size small =
      rd_u32-same _ sized (slot * ent_size + 24) (λ i lo hi.
        octet-wr_u32_before sized (slot * ent_size + 28) start (omega (arith, length-sized)) i
          (omega arith))
      ∙ rd_u32-wr_u32 named (slot * ent_size + 24) len (omega (arith, length-named)) small

  pub fill_entry-start :
      start < 2 ^ 32
      → rd_u32 (fill_entry dir (slot * ent_size) name len start) (slot * ent_size + 28) ≡ start
  unfolding fill_entry
  fill_entry-start small =
      rd_u32-wr_u32 sized (slot * ent_size + 28) start (omega (arith, length-sized)) small

  -- In front of the two numbers, and in front of the entry.
  octet-fill_entry_exact :
      (i : ℕ)
      → i < slot * ent_size + 24
      → octet (fill_entry dir (slot * ent_size) name len start) i ≡ octet named i
  unfolding fill_entry
  octet-fill_entry_exact i h =
      octet-wr_u32_before sized (slot * ent_size + 28) start (omega (arith, length-sized)) i
        (omega arith)
      ∙ octet-wr_u32_before named (slot * ent_size + 24) len (omega (arith, length-named)) i h

  pub octet-fill_entry_before :
      (i : ℕ)
      → i < slot * ent_size
      → octet (fill_entry dir (slot * ent_size) name len start) i ≡ octet dir i
  octet-fill_entry_before i h =
      octet-fill_entry_exact i (omega arith)
      ∙ octet-splice_before dir (slot * ent_size) (cut name) room i h

  -- The name is there, followed by zeros if the slot had none.
  pub octet-fill_entry_name :
      (x : ℕ)
      → x < name_len
      → octet dir (slot * ent_size + x) ≡ 0
      → octet (fill_entry dir (slot * ent_size) name len start) (slot * ent_size + x) ≡ octet name x
  octet-fill_entry_name x h clean = elim (dec_lt x (length name)) [
    | yes short ↦
        octet-fill_entry_exact (slot * ent_size + x) (omega arith)
        ∙ octet-splice_in dir (slot * ent_size) (cut name) room x (omega (arith, length-cut name))
        ∙ octet-take (min name_len (length name)) name x (omega arith)
    | no over ↦
        octet-fill_entry_exact (slot * ent_size + x) (omega arith)
        ∙ octet-splice_after dir (slot * ent_size) (cut name) room (slot * ent_size + x)
            (omega (arith, length-cut name))
        ∙ clean
        ∙ sym (ap octet_of (get_elem?-ge name x (omega arith)))
  ]
