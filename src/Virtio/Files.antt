-- ===== src/Virtio/Files.antt =====
-- The block layer of Xernel/userland/init/src/main.rs at work: sectors written and read back, and XernelFS
-- on the virtio device.
use xernel.Fs.{total_sectors, sb_sector, dir_sector, rd_u32, fs_create}
use xernel.Prelude.{
  length, u64_mod, octet, ℕ, ◌≤◌, ◌<◌, ◌≡◌, refl, ◌∙◌, ◌≢◌, ◌⊎◌, Bool, true, false, none, some,
  List, arith, dec_lt,
}
use xernel.Virtio.{Bus, Sys}
use xernel.Virtio.Block.{Blk, blk_rw}
use xernel.Virtio.Device.{IsBlockDevice, IsHealthy, Ready}
use xernel.Virtio.Transfer.{blk_rw-Served, blk_rw-success}
use xernel.Virtio.Disk.{
  Driven, virtio_disk, read_on-success, write_on-success, contents_of, virtio_disk-IsLawful,
}
use xernel.Fs.Read.{fs_find, fs_read}
use xernel.Fs.Sectors.{ReadsFine, Reads}
use xernel.Fs.Lookup.{Clean}
use xernel.Fs.Safety.{fs_create-Keeps}
use xernel.Fs.Total.{HasRoom, WritesFine, fs_create-success}
use xernel.Fs.RoundTrip.{fs_read-fs_create}

pair_of :
    {p : Bool × List ℕ} {ok : Bool} {bytes : List ℕ} → p.0 ≡ ok → p.1 ≡ bytes → p ≡ (ok, bytes)
pair_of e f = rw (e, f) refl

module _ (bus : Bus) (seen : ℕ → ℕ) (law : IsBlockDevice bus seen) where
  module _ (b : Blk) (s : Sys bus) (ready : Ready bus seen law b s) (sector : ℕ)
      (small : sector < u64_mod) where
    -- A transfer that the device answers, with success or with an error status, ends with the driver and
    -- the device at the same request again, ready for the next one, and it changes no other sector
    -- than the one it was asked to write. The device keeps to the standard and answers within the
    -- loop's turns, so that the driver does not give up, they were at the same request before, and
    -- the sector is a `u64`.
    pub blk_rw-Ready :
        (write : Bool) (buf : List ℕ) (t : ℕ)
        → (write ≡ false) ⊎ (sector ≢ t)
        → Ready bus seen law
            (blk_rw bus b sector write buf s).1.0
            (blk_rw bus b sector write buf s).1.1
          × (law.held (blk_rw bus b sector write buf s).1.1.0 t ≡ law.held s.0 t)
    blk_rw-Ready write buf t other =
        let (d, m) = s in
        let served = blk_rw-Served bus seen law b d m ready sector write buf small in
        (served.ready, served.keeps t other)

    -- On a healthy device, what is written to a sector is read back from it: both transfers succeed,
    -- and all 512 bytes pass through the driver's buffers and the device unchanged.
    pub blk_rw-blk_rw :
        (size : ℕ) (bytes out : List ℕ)
        → IsHealthy bus seen law size
        → sector < size
        → length bytes ≡ 512
        → ((blk_rw bus b sector true bytes s).0.0 ≡ true)
          × ((blk_rw bus
                (blk_rw bus b sector true bytes s).1.0
                sector
                false
                out
                (blk_rw bus b sector true bytes s).1.1).0
              ≡ (true, bytes))
    blk_rw-blk_rw size bytes out healthy below len =
        let (d, m) = s in
        let first = blk_rw-Served bus seen law b d m ready sector true bytes small in
        let wrote =
          blk_rw-success bus seen law b d m ready sector true bytes small size healthy below in
        let r = (blk_rw bus b sector true bytes s).1 in
        let second =
          blk_rw-Served bus seen law r.0 r.1.0 r.1.1 first.ready sector false out small in
        let got =
          blk_rw-success bus seen law r.0 r.1.0 r.1.1 first.ready sector false out small size
            healthy below in
        let same = second.reads got refl ∙ first.writes wrote refl len in (wrote, pair_of got same)

  -- However creating a file on the virtio device ends, it leaves every sector of data alone that was
  -- taken before. The device keeps to the standard and answers within the loop's turns.
  pub fs_create-device :
      (name contents : List ℕ) (x : Driven bus seen law) (t : ℕ)
      → t < rd_u32 (contents_of bus seen law x sb_sector) 16
      → t ≢ sb_sector
      → t ≢ dir_sector
      → contents_of bus seen law (fs_create (virtio_disk bus seen law) name contents x).1 t
        ≡ contents_of bus seen law x t
  fs_create-device name contents x t below not_sb not_dir =
      fs_create-Keeps (virtio_disk bus seen law) (virtio_disk-IsLawful bus seen law) name contents x
        t below not_sb not_dir

  reads_fine :
      IsHealthy bus seen law total_sectors
      → ReadsFine (virtio_disk bus seen law) (virtio_disk-IsLawful bus seen law)
  reads_fine healthy x s h =
      read_on-success bus seen law total_sectors healthy x s (dec_lt s u64_mod) h (omega arith)

  writes_fine :
      IsHealthy bus seen law total_sectors
      → WritesFine (virtio_disk bus seen law) (virtio_disk-IsLawful bus seen law)
  writes_fine healthy x s bytes h =
      write_on-success bus seen law total_sectors healthy x s bytes (dec_lt s u64_mod) h
        (omega arith)

  -- On a healthy virtio device a file is created and read back. The creation succeeds; the read
  -- succeeds, reports the size of the contents, leaves them at the front of a buffer that has room
  -- for them, and changes no sector. The device keeps to the standard and answers every request for
  -- a sector of the disk with success within the loop's turns; the disk has the file system's mark, a
  -- free slot and room for the data; the first free sector is behind the directory, whose free slots
  -- have no name left in them; the name does not begin with a zero and was not in use.
  pub fs_read-device :
      (name contents out : List ℕ) (x : Driven bus seen law)
      → IsHealthy bus seen law total_sectors
      → HasRoom (virtio_disk bus seen law) (virtio_disk-IsLawful bus seen law) x contents
      → 3 ≤ rd_u32 (contents_of bus seen law x sb_sector) 16
      → Clean (contents_of bus seen law x dir_sector)
      → fs_find (contents_of bus seen law x dir_sector) name ≡ none
      → octet name 0 ≢ 0
      → length contents ≤ length out
      → ((fs_create (virtio_disk bus seen law) name contents x).0 ≡ some tt)
        × Reads
            (virtio_disk bus seen law)
            (virtio_disk-IsLawful bus seen law)
            contents
            (fs_create (virtio_disk bus seen law) name contents x).1
            (fs_read
              (virtio_disk bus seen law)
              name
              out
              (fs_create (virtio_disk bus seen law) name contents x).1)
  fs_read-device name contents out x healthy room above clean absent first fits =
      let disk = virtio_disk bus seen law in
      let lawful = virtio_disk-IsLawful bus seen law in
      let created =
        fs_create-success disk lawful (reads_fine healthy) (writes_fine healthy) name contents x
          room in
      (
        created,
        fs_read-fs_create disk lawful (reads_fine healthy) name contents out x tt above clean absent
            first fits created,
      )
