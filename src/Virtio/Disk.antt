-- ===== src/Virtio/Disk.antt =====
-- The block layer of Xernel/userland/init/src/main.rs as the disk that XernelFS stands on: `blk_rw` with
-- its driver, and a device behind it.
use xernel.Prelude.{
  if◌then◌else◌, length, u64_mod, ℕ, ◌<◌, ◌≡◌, refl, ap, ◌∙◌, ◌≢◌, inl, inr, Bool, true, false,
  Option, none, some, List, [], dec_lt,
}
use xernel.Virtio.{Bus, Sys}
use xernel.Virtio.Block.{Blk, blk_rw}
use xernel.Virtio.Device.{IsBlockDevice, IsHealthy, Ready}
use xernel.Virtio.Transfer.{blk_rw-Served, blk_rw-success}
use xernel.Fs.{Disk}
use xernel.Fs.Device.{IsLawful}

module _ (bus : Bus) (seen : ℕ → ℕ) (law : IsBlockDevice bus seen) where
  -- The driver, the device and the memory, at the same request.
  abbrev pub Driven : Type 0
  Driven = (b : Blk) × (s : Sys bus) × Ready bus seen law b s

  abbrev pub after :
      (x : Driven) (sector : ℕ) (write : Bool) (buf : List ℕ) → sector < u64_mod → Driven
  after (b, (d, m), ready) sector write buf small =
      let r = blk_rw bus b sector write buf (d, m) in
      (r.1.0, r.1.1, (blk_rw-Served bus seen law b d m ready sector write buf small).ready)

  -- The bytes read, if the transfer succeeds. A number that is no `u64` is no sector.
  abbrev read_on : (x : Driven) (s : ℕ) → Dec (s < u64_mod) → Option (List ℕ) × Driven
  read_on x s (no big) = (none, x)
  read_on (b, (d, m), ready) s (yes small) =
      let r = blk_rw bus b s false [] (d, m) in
      (if r.0.0 then some r.0.1 else none, after (b, (d, m), ready) s false [] small)

  abbrev write_on : (x : Driven) (s : ℕ) → List ℕ → Dec (s < u64_mod) → Bool × Driven
  write_on x s bytes (no big) = (false, x)
  write_on (b, (d, m), ready) s bytes (yes small) =
      ((blk_rw bus b s true bytes (d, m)).0.0, after (b, (d, m), ready) s true bytes small)

  abbrev pub virtio_disk : Disk
  virtio_disk = record {
    Blk = Driven;
    read = λ x s. read_on x s (dec_lt s u64_mod);
    write = λ x s bytes. write_on x s bytes (dec_lt s u64_mod);
  }

  abbrev pub contents_of : Driven → ℕ → List ℕ
  contents_of x t = law.held x.1.0 t

  read-success :
      (ok : Bool) (got bytes : List ℕ)
      → (if ok then some got else none) ≡ some bytes
      → (ok ≡ true) × (bytes ≡ got)
  read-success true got bytes e = (refl, cc)
  read-success false got bytes e = absurd (cc)

  pub read_on-held :
      (x : Driven) (s : ℕ) (bytes : List ℕ) (c : Dec (s < u64_mod))
      → (read_on x s c).0 ≡ some bytes
      → bytes ≡ contents_of x s
  read_on-held x s bytes (no big) e = absurd (cc)
  read_on-held (b, (d, m), ready) s bytes (yes small) e =
      let served = blk_rw-Served bus seen law b d m ready s false [] small in
      let (done, same) =
        read-success (blk_rw bus b s false [] (d, m)).0.0 (blk_rw bus b s false [] (d, m)).0.1 bytes
          e in
      same ∙ served.reads done refl

  pub read_on-keeps :
      (x : Driven) (s t : ℕ) (c : Dec (s < u64_mod))
      → contents_of (read_on x s c).1 t ≡ contents_of x t
  read_on-keeps x s t (no big) = refl
  read_on-keeps (b, (d, m), ready) s t (yes small) =
      (blk_rw-Served bus seen law b d m ready s false [] small).keeps t (inl refl)

  pub read_on-success :
      (size : ℕ) (healthy : IsHealthy bus seen law size) (x : Driven) (s : ℕ)
      (c : Dec (s < u64_mod))
      → s < size
      → s < u64_mod
      → (read_on x s c).0 ≡ some (contents_of x s)
  read_on-success size healthy x s (no big) h small = absurd (big small)
  read_on-success size healthy (b, (d, m), ready) s (yes small) h _ =
      let done = blk_rw-success bus seen law b d m ready s false [] small size healthy h in
      let served = blk_rw-Served bus seen law b d m ready s false [] small in
      rw done (ap some (served.reads done refl))

  pub write_on-success :
      (size : ℕ) (healthy : IsHealthy bus seen law size) (x : Driven) (s : ℕ) (bytes : List ℕ)
      (c : Dec (s < u64_mod))
      → s < size
      → s < u64_mod
      → (write_on x s bytes c).0 ≡ true
  write_on-success size healthy x s bytes (no big) h small = absurd (big small)
  write_on-success size healthy (b, (d, m), ready) s bytes (yes small) h _ =
      blk_rw-success bus seen law b d m ready s true bytes small size healthy h

  pub write_on-held :
      (x : Driven) (s : ℕ) (bytes : List ℕ) (c : Dec (s < u64_mod))
      → length bytes ≡ 512
      → (write_on x s bytes c).0 ≡ true
      → contents_of (write_on x s bytes c).1 s ≡ bytes
  write_on-held x s bytes (no big) len e = absurd (cc)
  write_on-held (b, (d, m), ready) s bytes (yes small) len e =
      (blk_rw-Served bus seen law b d m ready s true bytes small).writes e refl len

  pub write_on-keeps :
      (x : Driven) (s : ℕ) (bytes : List ℕ) (t : ℕ) (c : Dec (s < u64_mod))
      → s ≢ t
      → contents_of (write_on x s bytes c).1 t ≡ contents_of x t
  write_on-keeps x s bytes t (no big) apart = refl
  write_on-keeps (b, (d, m), ready) s bytes t (yes small) apart =
      (blk_rw-Served bus seen law b d m ready s true bytes small).keeps t (inr apart)

  -- The driver with its device is a lawful disk: the block layer refines the store of sectors that
  -- XernelFS is built on.
  abbrev pub virtio_disk-IsLawful : IsLawful virtio_disk
  virtio_disk-IsLawful = record {
    held = contents_of;
    length-held = λ x t. law.length-held x.1.0 t;
    read-held = λ x s bytes e. read_on-held x s bytes (dec_lt s u64_mod) e;
    read-keeps = λ x s t. read_on-keeps x s t (dec_lt s u64_mod);
    write-held = λ x s bytes len e. write_on-held x s bytes (dec_lt s u64_mod) len e;
    write-keeps = λ x s bytes t apart. write_on-keeps x s bytes t (dec_lt s u64_mod) apart;
  }
