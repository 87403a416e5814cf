-- ===== src/Fs/Total.antt =====
-- On a disk whose transfers succeed, `fs_create` of Xernel/userland/init/src/main.rs succeeds if there are a
-- file system, a free slot and room for the data.
use xernel.Prelude.{
  ltb, if◌then◌else◌, Bool-cases, length, ℕ, zero, suc, ◌+◌, ◌-◌, ◌*◌, ◌≤◌, ◌<◌, min, ◌≡◌, refl, ap,
  ◌∙◌, inl, inr, true, false, not, some, List, arith,
}
use xernel.Fs.{
  Disk, sector, fs_magic, sb_sector, dir_sector, total_sectors, dir_entries, ent_size, rd_u32,
  wr_u32, has_magic, free_slot, sectors_for, sector_at, fill_entry, Io, read_sector, write_sector,
  fail, bind, write_data, store_file, with_slot, fs_create,
}
use xernel.Fs.Device.{IsLawful}
use xernel.Fs.Sectors.{ReadsFine}

module _ (d : Disk) (law : IsLawful d) where
  -- Every write of a sector of the disk succeeds.
  abbrev pub WritesFine : Type 0
  WritesFine =
      (b : d.Blk) (s : ℕ) (bytes : List ℕ) → s < total_sectors → (d.write b s bytes).0 ≡ true

  -- There are a file system, a free slot and room.
  abbrev pub HasRoom : d.Blk → List ℕ → Type 0
  HasRoom b contents =
      (has_magic (law.held b sb_sector) 0 fs_magic ≡ true)
      × ((slot : ℕ) × (free_slot (law.held b dir_sector) 0 dir_entries ≡ some slot))
      × (rd_u32 (law.held b sb_sector) 16 + sectors_for (length contents) ≤ total_sectors)

  module _ (reads : ReadsFine d law) (writes : WritesFine) where
    bind-some :
        {A B : Type 0} (m : Io d A) (f : A → Io d B) (b : d.Blk) (a : A)
        → (m b).0 ≡ some a
        → bind d m f b ≡ f a (m b).1
    bind-some m f b a e = rw e refl

    write_sector-some :
        (s : ℕ) (bytes : List ℕ) (b : d.Blk)
        → s < total_sectors
        → (write_sector d s bytes b).0 ≡ some tt
    write_sector-some s bytes b h = rw (writes b s bytes h) refl

    write_data-some :
        (rounds off s : ℕ) (contents : List ℕ) (b : d.Blk)
        → s + rounds ≤ total_sectors
        → (write_data d contents off s rounds b).0 ≡ some tt
    unfolding write_data
    write_data-some zero off s contents b h = refl
    write_data-some (suc rounds) off s contents b h =
        elim (Bool-cases (ltb off (length contents))) [
          | inr over ↦ rw over refl
          | inl more ↦
              let rest = λ (done : Unit {0}).
                write_data d contents (off + min sector (length contents - off)) (s + 1) rounds in
              let first = write_sector d s (sector_at contents off) in
              let wrote = write_sector-some s (sector_at contents off) b (omega arith) in
              rw more (
                ap (λ r. r.0) (bind-some first rest b tt wrote)
                ∙ write_data-some rounds (off + min sector (length contents - off)) (s + 1) contents
                    (first b).1 (omega arith))
        ]

    store_file-some :
        (sb dir name contents : List ℕ) (slot : ℕ) (b : d.Blk)
        → rd_u32 sb 16 + sectors_for (length contents) ≤ total_sectors
        → (store_file d sb dir name contents slot b).0 ≡ some tt
    unfolding store_file
    store_file-some sb dir name contents slot b room =
        let start = rd_u32 sb 16 in
        let nsec = sectors_for (length contents) in
        let entry = fill_entry dir (slot * ent_size) name (length contents) start in
        let last = λ (listed : Unit {0}). write_sector d sb_sector (wr_u32 sb 16 (start + nsec)) in
        let all = write_data d contents 0 start nsec in
        let b1 = (all b).1 in
        let b2 = (write_sector d dir_sector entry b1).1 in
        ap (λ r. r.0)
          (bind-some all (λ written. bind d (write_sector d dir_sector entry) last) b tt
              (write_data-some nsec 0 start contents b room)
            ∙ bind-some (write_sector d dir_sector entry) last b1 tt
                (write_sector-some dir_sector entry b1 (omega arith)))
        ∙ write_sector-some sb_sector (wr_u32 sb 16 (start + nsec)) b2 (omega arith)

    with_slot-some :
        (sb dir name contents : List ℕ) (slot : ℕ) (b : d.Blk)
        → rd_u32 sb 16 + sectors_for (length contents) ≤ total_sectors
        → (with_slot d sb dir name contents (some slot) b).0 ≡ some tt
    with_slot-some sb dir name contents slot b room =
        let fits : ltb total_sectors (rd_u32 sb 16 + sectors_for (length contents)) ≡ false =
          ground arith in
        rw fits (store_file-some sb dir name contents slot b room)

    -- Creating a file succeeds on a disk whose transfers do, if the disk has the file system's mark, a
    -- free slot in its directory, and room for the data behind the first free sector.
    pub fs_create-success :
        (name contents : List ℕ) (b : d.Blk)
        → HasRoom b contents
        → (fs_create d name contents b).0 ≡ some tt
    unfolding fs_create
    fs_create-success name contents b (ours, (slot, free), room) =
        let sb = law.held b sb_sector in
        let dir = law.held b dir_sector in
        let b1 = (d.read b sb_sector).1 in
        let b2 = (d.read b1 dir_sector).1 in
        let listing : (d.read b1 dir_sector).0 ≡ some dir =
          reads b1 dir_sector (omega arith) ∙ ap some (law.read-keeps b sb_sector dir_sector) in
        let on_dir : List ℕ → Io d (Unit {0}) =
          λ dir. with_slot d sb dir name contents (free_slot dir 0 dir_entries) in
        let on_sb : List ℕ → Io d (Unit {0}) = λ sb'.
          if not (has_magic sb' 0 fs_magic)
          then fail d
          else bind d (read_sector d dir_sector)
              λ dir. with_slot d sb' dir name contents (free_slot dir 0 dir_entries) in
        ap (λ r. r.0)
          (bind-some (read_sector d sb_sector) on_sb b sb (reads b sb_sector (omega arith)))
        ∙ rw ours (
            ap (λ r. r.0) (bind-some (read_sector d dir_sector) on_dir b1 dir listing)
            ∙ rw free (with_slot-some sb dir name contents slot b2 room))
