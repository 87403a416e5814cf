-- ===== src/Fs.antt =====
-- XernelFS, the file system of Xernel/userland/init/src/main.rs, over a block device. `blk_rw` drives
-- a virtio device, so the device is a parameter, by what a transfer of one sector answers.
pub mod Read
pub mod Serve
pub mod Device
pub mod Safety
pub mod Sectors
pub mod Entries
pub mod Lookup
pub mod RoundTrip
pub mod Total
mod Tests
use xernel.Prelude.{
  if◌then◌else◌, ltb, ◌==◌, length, take, replicate, le_bytes, from_le_bytes, octet, slice, splice,
  ℕ, zero, suc, ◌+◌, ◌-◌, ◌*◌, ◌/◌, min, Bool, true, false, ◌&&◌, not, Option, none, some, List, [],
  ◌∷◌,
}

-- A transfer may fail. A read gives the 512 bytes of a sector.
pub record Disk : Type 1 where
  pub Blk : Type 0
  pub read : Blk → ℕ → Option (List ℕ) × Blk
  pub write : Blk → ℕ → List ℕ → Bool × Blk

abbrev pub sector : ℕ
sector = 512

-- "XERNFS01"
abbrev pub fs_magic : List ℕ
fs_magic = 0x58 ∷ 0x45 ∷ 0x52 ∷ 0x4e ∷ 0x46 ∷ 0x53 ∷ 0x30 ∷ 0x31 ∷ []

abbrev pub sb_sector : ℕ
sb_sector = 1

abbrev pub dir_sector : ℕ
dir_sector = 2

abbrev pub data_start : ℕ
data_start = 3

abbrev pub total_sectors : ℕ
total_sectors = 2048

abbrev pub dir_entries : ℕ
dir_entries = 16

abbrev pub ent_size : ℕ
ent_size = 32

abbrev pub name_len : ℕ
name_len = 24

unfoldable pub rd_u32 : List ℕ → ℕ → ℕ
rd_u32 buf off =
    from_le_bytes
      (octet buf off ∷ octet buf (off + 1) ∷ octet buf (off + 2) ∷ octet buf (off + 3) ∷ [])

unfoldable pub wr_u32 : List ℕ → ℕ → ℕ → List ℕ
wr_u32 buf off v = splice buf off (le_bytes 4 v)

-- `&sb[..8] == FS_MAGIC`.
abbrev pub has_magic : List ℕ → ℕ → List ℕ → Bool
has_magic sb i [] = true
has_magic sb i (m ∷ magic) = octet sb i == m && has_magic sb (suc i) magic

abbrev pub zeros : List ℕ
zeros = replicate sector 0

-- `(0..DIR_ENTRIES).find(|&i| dir[i * ENT_SIZE] == 0)`, from `i` on.
unfoldable pub free_slot : List ℕ → ℕ → ℕ → Option ℕ
free_slot dir i zero = none
free_slot dir i (suc left) =
    let rest = free_slot dir (suc i) left in if octet dir (i * ent_size) == 0 then some i else rest

-- `data.len().div_ceil(SECTOR)`.
abbrev pub sectors_for : ℕ → ℕ
sectors_for len = (len + 511) / 512

-- The bytes of one sector of the data, padded with zeros.
abbrev pub sector_at : List ℕ → ℕ → List ℕ
sector_at contents off = splice zeros 0 (slice contents off (min sector (length contents - off)))

-- The entry of a new file.
unfoldable pub fill_entry : List ℕ → ℕ → List ℕ → ℕ → ℕ → List ℕ
unfolding wr_u32
fill_entry dir base name len start =
    wr_u32 (wr_u32 (splice dir base (take (min name_len (length name)) name)) (base + 24) len)
      (base + 28) start

unfoldable pub new_superblock : List ℕ
unfolding wr_u32
new_superblock =
    wr_u32 (wr_u32 (wr_u32 (splice zeros 0 fs_magic) 8 1) 12 total_sectors) 16 data_start

module _ (d : Disk) where
  -- A call that answers, or fails; both leave the device in some state.
  abbrev pub Io : Type 0 → Type 0
  Io A = d.Blk → Option A × d.Blk

  abbrev pub read_sector : ℕ → Io (List ℕ)
  read_sector s b = d.read b s

  abbrev did : Bool × d.Blk → Option (Unit {0}) × d.Blk
  did (true, b) = (some tt, b)
  did (false, b) = (none, b)

  abbrev pub write_sector : ℕ → List ℕ → Io (Unit {0})
  write_sector s bytes b = did (d.write b s bytes)

  abbrev pub return : {A : Type 0} → A → Io A
  return a b = (some a, b)

  abbrev pub fail : {A : Type 0} → Io A
  fail b = (none, b)

  abbrev pub and_then : {A B : Type 0} → (A → Io B) → Option A × d.Blk → Option B × d.Blk
  and_then f (none, b) = (none, b)
  and_then f (some a, b) = f a b

  abbrev pub bind : {A B : Type 0} → Io A → (A → Io B) → Io B
  bind m f b = and_then f (m b)

  -- Here and below the answer `true` is a value, and `false` is a failure.
  unfoldable pub fs_format : Io (Unit {0})
  unfolding new_superblock
  fs_format = bind (write_sector sb_sector new_superblock) λ done. write_sector dir_sector zeros

  -- The loop of `fs_create` over the data. A round writes 512 bytes or the rest of them, so that
  -- the sectors of the data are the rounds.
  unfoldable pub write_data : List ℕ → ℕ → ℕ → ℕ → Io (Unit {0})
  write_data contents off s zero b = (some tt, b)
  write_data contents off s (suc rounds) b =
      if ltb off (length contents)
      then and_then
          (λ done. write_data contents (off + min sector (length contents - off)) (s + 1) rounds)
          (write_sector s (sector_at contents off) b)
      else (some tt, b)

  -- What `fs_create` does once it has a slot and room for the data.
  unfoldable pub store_file : List ℕ → List ℕ → List ℕ → List ℕ → ℕ → Io (Unit {0})
  store_file sb dir name contents slot =
      let start = rd_u32 sb 16 in
      let nsec = sectors_for (length contents) in
      bind (write_data contents 0 start nsec) λ written.
        bind
          (write_sector dir_sector (fill_entry dir (slot * ent_size) name (length contents) start))
          λ listed. write_sector sb_sector (wr_u32 sb 16 (start + nsec))

  abbrev pub with_slot : List ℕ → List ℕ → List ℕ → List ℕ → Option ℕ → Io (Unit {0})
  with_slot sb dir name contents none = fail
  with_slot sb dir name contents (some slot) =
      if ltb total_sectors (rd_u32 sb 16 + sectors_for (length contents))
      then fail
      else store_file sb dir name contents slot

  unfoldable pub fs_create : List ℕ → List ℕ → Io (Unit {0})
  fs_create name contents = bind (read_sector sb_sector) λ sb.
      if not (has_magic sb 0 fs_magic)
      then fail
      else bind (read_sector dir_sector)
          λ dir. with_slot sb dir name contents (free_slot dir 0 dir_entries)
