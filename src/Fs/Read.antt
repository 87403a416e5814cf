-- ===== src/Fs/Read.antt =====
-- Looking up and reading a file of XernelFS in Xernel/userland/init/src/main.rs.
use xernel.Prelude.{
  ltb, leb, ◌==◌, if◌then◌else◌, length, take, octet, slice, splice, ℕ, zero, suc, ◌+◌, ◌-◌, ◌*◌,
  min, Bool, true, ◌&&◌, ◌||◌, not, Option, none, some, List,
}
use xernel.Fs.{
  Disk, sector, dir_sector, dir_entries, ent_size, name_len, rd_u32, sectors_for, read_sector,
}

-- The name in the entry at `base` is `name`, cut to its length or padded with zeros: `left`
-- positions from `x` on.
unfoldable pub matches : List ℕ → ℕ → List ℕ → ℕ → ℕ → Bool
matches dir base name x zero = true
matches dir base name x (suc left) =
    octet dir (base + x) == octet name x && matches dir base name (suc x) left

-- `find_map` over the entries from `i` on: the size and the first sector.
unfoldable pub find_entry : List ℕ → List ℕ → ℕ → ℕ → Option (ℕ × ℕ)
unfolding matches rd_u32
find_entry dir name i zero = none
find_entry dir name i (suc left) =
    let base = i * ent_size in
    let rest = find_entry dir name (suc i) left in
    if not (octet dir base == 0) && matches dir base name 0 name_len
    then some (rd_u32 dir (base + 24), rd_u32 dir (base + 28))
    else rest

abbrev pub fs_find : List ℕ → List ℕ → Option (ℕ × ℕ)
fs_find dir name = find_entry dir name 0 dir_entries

-- A piece of the file goes to the buffer if all of it fits.
abbrev pub put_piece : List ℕ → ℕ → ℕ → List ℕ → List ℕ
put_piece out off n secbuf =
    if leb (off + n) (length out) then splice out off (take n secbuf) else out

-- `dir[i * ENT_SIZE..i * ENT_SIZE + NAME_LEN]`.
abbrev pub entry_name : List ℕ → ℕ → List ℕ
entry_name dir i = slice dir (i * ent_size) name_len

-- The slot is outside the directory, or empty.
abbrev pub no_entry : List ℕ → ℕ → Bool
no_entry dir i = leb dir_entries i || octet dir (i * ent_size) == 0

module _ (d : Disk) where
  -- The size, or a failure, with what is in the buffer then.
  abbrev pub Outcome : Type 0
  Outcome = (Option ℕ × List ℕ) × d.Blk

  -- The loop of `fs_read`. The sectors of the file are the rounds.
  unfoldable pub read_data : ℕ → ℕ → ℕ → List ℕ → ℕ → d.Blk → Outcome
  read_data size off s out zero b = ((some size, out), b)
  read_data size off s out (suc rounds) b =
      let (got, b') = read_sector d s b in
      if ltb off size
      then elim got [
        | none ↦ ((none, out), b')
        | some secbuf ↦
            let n = min sector (size - off) in
            read_data size (off + n) (s + 1) (put_piece out off n secbuf) rounds b'
      ]
      else ((some size, out), b)

  abbrev pub read_found : List ℕ → Option (ℕ × ℕ) → d.Blk → Outcome
  read_found out none b = ((none, out), b)
  read_found out (some (size, start)) b = read_data size 0 start out (sectors_for size) b

  abbrev pub with_dir : List ℕ → (List ℕ → d.Blk → Outcome) → Option (List ℕ) × d.Blk → Outcome
  with_dir out f (none, b) = ((none, out), b)
  with_dir out f (some dir, b) = f dir b

  unfoldable pub fs_read : List ℕ → List ℕ → d.Blk → Outcome
  fs_read name out b =
      with_dir out (λ dir. read_found out (fs_find dir name)) (read_sector d dir_sector b)

  abbrev read_entry : ℕ → List ℕ → List ℕ → d.Blk → Outcome
  read_entry i out dir b =
      if no_entry dir i then ((none, out), b) else fs_read (entry_name dir i) out b

  unfoldable pub read_by_index : ℕ → List ℕ → d.Blk → Outcome
  unfolding fs_read
  read_by_index i out b = with_dir out (read_entry i out) (read_sector d dir_sector b)
