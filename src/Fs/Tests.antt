-- ===== src/Fs/Tests.antt =====
-- XernelFS on a device in memory.
use xernel.Prelude.{
  take-append, ◌==◌, if◌then◌else◌, ==_refl, length, take, replicate, length-append,
  length-replicate, length-take, le_bytes, from_le_bytes, octet, ℕ, zero, suc, ◌+◌, ◌*◌, ◌≡◌, refl,
  ap, ◌∙◌, ◌≢◌, true, false, none, some, List, [], ◌∷◌, ◌++◌, arith,
}
use xernel.Fs.{
  Disk, sector, sb_sector, ent_size, rd_u32, wr_u32, zeros, free_slot, fill_entry, new_superblock,
  write_data, store_file, fs_create,
}
use xernel.Fs.Read.{matches, find_entry, fs_find, fs_read}
use xernel.Fs.Device.{IsLawful}
use xernel.Fs.Sectors.{Reads}
use xernel.Fs.Safety.{next_free, fs_create-Keeps}
use xernel.Fs.RoundTrip.{fs_read-fs_create}

-- What a sector holds: the first 512 bytes of what was put there.
abbrev padded : List ℕ → List ℕ
padded bytes = take sector (bytes ++ zeros)

abbrev in_memory : Disk
in_memory = record {
  Blk = ℕ → List ℕ;
  read = λ b s. (some (padded (b s)), b);
  write = λ b s bytes. (true, λ t. if t == s then bytes else b t);
}

length-zeros : length zeros ≡ sector
length-zeros = length-replicate {A = ℕ} sector 0

length-padded : (bytes : List ℕ) → length (padded bytes) ≡ sector
length-padded bytes =
    omega (arith, length-take sector (bytes ++ zeros), length-append bytes zeros, length-zeros)

padded-whole : (bytes : List ℕ) → length bytes ≡ sector → padded bytes ≡ bytes
padded-whole bytes e = take-append bytes zeros sector e

other_sector :
    (b : ℕ → List ℕ) (s t : ℕ) (bytes : List ℕ)
    → s ≢ t
    → padded (if t == s then bytes else b t) ≡ padded (b t)
other_sector b s t bytes apart = let differ : (t == s) ≡ false = ground arith in rw differ refl

same_sector :
    (b : ℕ → List ℕ) (s : ℕ) (bytes : List ℕ)
    → length bytes ≡ sector
    → padded (if s == s then bytes else b s) ≡ bytes
same_sector b s bytes e = rw (==_refl s) (padded-whole bytes e)

abbrev in_memory-IsLawful : IsLawful in_memory
in_memory-IsLawful = record {
  held = λ b s. padded (b s);
  length-held = λ b s. length-padded (b s);
  read-held = λ b s bytes e. cc;
  read-keeps = λ b s t. refl;
  write-held = λ b s bytes e done. same_sector b s bytes e;
  write-keeps = λ b s bytes t apart. other_sector b s t bytes apart;
}

-- As `fs_format` leaves it.
abbrev formatted : ℕ → List ℕ
formatted s = if s == sb_sector then new_superblock else zeros

abbrev letters : List ℕ
letters = 0x61 ∷ 0x62 ∷ 0x63 ∷ []

abbrev file_name : List ℕ
file_name = 0x66 ∷ 0x31 ∷ []

creates : (fs_create in_memory file_name letters formatted).0 ≡ some tt
unfolding fs_create store_file free_slot write_data fill_entry wr_u32 rd_u32 le_bytes from_le_bytes
    new_superblock
creates = refl

starts : rd_u32 (padded new_superblock) 16 ≡ 3
unfolding rd_u32 from_le_bytes new_superblock wr_u32 le_bytes
starts = refl

octet-replicate : (n i : ℕ) → octet (replicate n 0) i ≡ 0
octet-replicate zero i = refl
octet-replicate (suc n) zero = refl
octet-replicate (suc n) (suc i) = octet-replicate n i

octet-blank : (i : ℕ) → octet (padded zeros) i ≡ 0
octet-blank i = ap (λ x. octet x i) (padded-whole zeros length-zeros) ∙ octet-replicate sector i

absent : fs_find (padded zeros) file_name ≡ none
unfolding find_entry matches rd_u32 from_le_bytes
absent = refl

fs_read-fs_create_example :
    Reads in_memory in_memory-IsLawful letters (fs_create in_memory file_name letters formatted).1 (
      fs_read in_memory file_name
        (replicate 8 0)
        (fs_create in_memory file_name letters formatted).1)
fs_read-fs_create_example =
    fs_read-fs_create in_memory in_memory-IsLawful (λ b s h. refl) file_name letters (replicate 8 0)
      formatted tt (omega (arith, starts)) (λ i x h k e. octet-blank (i * ent_size + x)) absent
      (λ e. cc) (omega arith) creates

start_free : next_free in_memory in_memory-IsLawful formatted ≡ 3
start_free = starts

fs_create-Keeps_example :
    padded ((fs_create in_memory file_name letters formatted).1 0) ≡ padded (formatted 0)
fs_create-Keeps_example =
    fs_create-Keeps in_memory in_memory-IsLawful file_name letters formatted 0
      (omega (arith, start_free)) (λ e. cc) (λ e. cc)
