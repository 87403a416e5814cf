-- ===== src/Fs/Safety.antt =====
-- `fs_create` of Xernel/userland/init/src/main.rs and the files that are there already.
use xernel.Fs.Device.{
  held-read, Keeps-if, IsLawful, Keeps, Keeps-bind, Keeps-write, Keeps-write_data,
}
use xernel.Prelude.{
  ltb, length, ℕ, ◌<◌, ◌≡◌, refl, sym, ap, ◌≢◌, not, Option, none, some, List, arith,
}
use xernel.Fs.{
  Disk, fs_magic, sb_sector, dir_sector, total_sectors, dir_entries, rd_u32, has_magic, free_slot,
  sectors_for, read_sector, write_sector, write_data, store_file, with_slot, fs_create,
}

module _ (d : Disk) (law : IsLawful d) where
  -- The first sector that is not taken, and the sectors of data in front of it.
  abbrev pub next_free : d.Blk → ℕ
  next_free b = rd_u32 (law.held b sb_sector) 16

  abbrev pub Taken : ℕ → ℕ → Type 0
  Taken start t = (t < start) × (t ≢ sb_sector) × (t ≢ dir_sector)

  store_file-Keeps :
      (sb dir name contents : List ℕ) (slot : ℕ)
      → Keeps d law (Taken (rd_u32 sb 16)) (store_file d sb dir name contents slot)
  unfolding store_file
  store_file-Keeps sb dir name contents slot =
      let P = Taken (rd_u32 sb 16) in
      Keeps-bind d law P (write_data d contents 0 (rd_u32 sb 16) (sectors_for (length contents))) _
        (Keeps-write_data d law P contents 0 (rd_u32 sb 16) _ (λ t p. p.0))
        λ written.
          Keeps-bind d law P (write_sector d dir_sector _) _
            (Keeps-write d law P dir_sector _ (λ t p e. p.2 (sym e)))
            λ listed. Keeps-write d law P sb_sector _ (λ t p e. p.1 (sym e))

  with_slot-Keeps :
      (sb dir name contents : List ℕ) (slot : Option ℕ)
      → Keeps d law (Taken (rd_u32 sb 16)) (with_slot d sb dir name contents slot)
  with_slot-Keeps sb dir name contents none = λ b t p. refl
  with_slot-Keeps sb dir name contents (some slot) =
      Keeps-if d law (Taken (rd_u32 sb 16)) (ltb total_sectors _) _ _ (λ b t p. refl)
        (store_file-Keeps sb dir name contents slot)

  -- However creating a file ends, with success, on a full disk or at a transfer that failed, it
  -- leaves every sector of data alone that was taken before: the sectors below the first free one,
  -- but for the superblock and the directory.
  pub fs_create-Keeps :
      (name contents : List ℕ) (b : d.Blk) (t : ℕ)
      → t < next_free b
      → t ≢ sb_sector
      → t ≢ dir_sector
      → law.held (fs_create d name contents b).1 t ≡ law.held b t
  unfolding fs_create
  fs_create-Keeps name contents b t below not_sb not_dir =
      held-read d law sb_sector _ b t λ sb b' e.
        let P = Taken (rd_u32 sb 16) in
        let free : rd_u32 sb 16 ≡ next_free b = ap (λ x. rd_u32 x 16) e in
        Keeps-if d law P (not (has_magic sb 0 fs_magic)) _ _ (λ b t p. refl)
          (Keeps-bind d law P (read_sector d dir_sector) _ (λ b t p. law.read-keeps b dir_sector t)
            (λ dir. with_slot-Keeps sb dir name contents (free_slot dir 0 dir_entries)))
          b' t (omega arith, not_sb, not_dir)
