-- ===== src/Fs/RoundTrip.antt =====
-- A file that `fs_create` of Xernel/userland/init/src/main.rs has made can be read.
use xernel.Prelude.{
  ltb, if◌then◌else◌, Bool-cases, length, octet, ℕ, ◌+◌, ◌*◌, ◌≤◌, ◌<◌, ◌≡◌, refl, sym, ap, ◌∙◌,
  ◌≢◌, inl, inr, not, Option, none, some, List, arith,
}
use xernel.Fs.{
  Disk, sector, fs_magic, sb_sector, dir_sector, total_sectors, dir_entries, ent_size, rd_u32,
  wr_u32, has_magic, free_slot, sectors_for, fill_entry, Io, read_sector, write_sector, fail, bind,
  write_data, store_file, with_slot, fs_create,
}
use xernel.Fs.Read.{fs_find, fs_read}
use xernel.Fs.Sectors.{
  Holds, bind-success, write_sector-held, write_data-Holds, ReadsFine, Reads, read_data-Holds,
}
use xernel.Fs.Entries.{length-fill_entry}
use xernel.Fs.Device.{IsLawful, Keeps-write}
use xernel.Fs.Lookup.{Clean, free_slot-free, fs_find-fill_entry}

module _ (d : Disk) (law : IsLawful d) (fine : ReadsFine d law) where
  bind-read :
      {B : Type 0} (s : ℕ) (f : List ℕ → Io d B) (b : d.Blk)
      → s < total_sectors
      → bind d (read_sector d s) f b ≡ f (law.held b s) (d.read b s).1
  bind-read s f b h = rw (read_sector, fine b s h) refl

  -- The device after the superblock and the directory have been read.
  opened : d.Blk → d.Blk
  opened b = (d.read (d.read b sb_sector).1 dir_sector).1

  held-opened : (b : d.Blk) (t : ℕ) → law.held (opened b) t ≡ law.held b t
  unfolding opened
  held-opened b t =
      law.read-keeps (d.read b sb_sector).1 dir_sector t ∙ law.read-keeps b sb_sector t

  with_slot-success :
      (sb dir name contents : List ℕ) (o : Option ℕ) (b : d.Blk) (x : Unit {0})
      → (with_slot d sb dir name contents o b).0 ≡ some x
      → (slot : ℕ) × (o ≡ some slot)
        × (rd_u32 sb 16 + sectors_for (length contents) ≤ total_sectors)
        × (with_slot d sb dir name contents o b ≡ store_file d sb dir name contents slot b)
  with_slot-success sb dir name contents none b x e = absurd (cc)
  with_slot-success sb dir name contents (some slot) b x e =
      elim (Bool-cases (ltb total_sectors (rd_u32 sb 16 + sectors_for (length contents)))) [
        | inl full ↦ absurd (cc (rw full at e))
        | inr fits ↦ (slot, refl, ground arith, rw fits refl)
      ]

  -- What a success of `fs_create` says of the disk before.
  fs_create-success :
      (name contents : List ℕ) (b : d.Blk) (x : Unit {0})
      → (fs_create d name contents b).0 ≡ some x
      → (slot : ℕ) × (free_slot (law.held b dir_sector) 0 dir_entries ≡ some slot)
        × (rd_u32 (law.held b sb_sector) 16 + sectors_for (length contents) ≤ total_sectors)
        × (fs_create d name contents b
            ≡ store_file d
                (law.held b sb_sector)
                (law.held b dir_sector)
                name
                contents
                slot
                (opened b))
  unfolding fs_create opened
  fs_create-success name contents b x e =
      let sb = law.held b sb_sector in
      let on_dir : List ℕ → List ℕ → Io d (Unit {0}) =
        λ sb dir. with_slot d sb dir name contents (free_slot dir 0 dir_entries) in
      let on_sb : List ℕ → Io d (Unit {0}) = λ sb.
        if not (has_magic sb 0 fs_magic)
        then fail d
        else bind d (read_sector d dir_sector) (on_dir sb) in
      let b1 = (d.read b sb_sector).1 in
      let first = bind-read sb_sector on_sb b (omega arith) in
      let through : (on_sb sb b1).0 ≡ some x = sym (ap (λ r. r.0) first) ∙ e in
      elim (Bool-cases (has_magic sb 0 fs_magic)) [
        | inr foreign ↦ absurd (cc (rw foreign at through))
        | inl ours ↦
            let b2 = (d.read b1 dir_sector).1 in
            let listing : law.held b1 dir_sector ≡ law.held b dir_sector =
              law.read-keeps b sb_sector dir_sector in
            let second : bind d (read_sector d dir_sector) (on_dir sb) b1
                ≡ on_dir sb (law.held b dir_sector) b2 =
              bind-read dir_sector (on_dir sb) b1 (omega arith)
              ∙ ap (λ dir. on_dir sb dir b2) listing in
            let listed = sym (ap (λ r. r.0) second) ∙ (rw ours at through) in
            let (slot, free, room, same) =
              with_slot-success sb (law.held b dir_sector) name contents
                (free_slot (law.held b dir_sector) 0 dir_entries) b2 x listed in
            (slot, free, room, first ∙ rw ours (second ∙ same))
      ]

  stored :
      (sb dir name contents : List ℕ) (b : d.Blk) (slot : ℕ) (x : Unit {0})
      → 3 ≤ rd_u32 sb 16
      → length dir ≡ sector
      → slot < dir_entries
      → (store_file d sb dir name contents slot b).0 ≡ some x
      → (b' : d.Blk) × ((store_file d sb dir name contents slot b).1 ≡ b')
        × (law.held b' dir_sector
            ≡ fill_entry dir (slot * ent_size) name (length contents) (rd_u32 sb 16))
        × Holds (law.held b') contents 0 (rd_u32 sb 16)
  unfolding store_file
  stored sb dir name contents b slot x above whole here e =
      let start = rd_u32 sb 16 in
      let nsec = sectors_for (length contents) in
      let entry = fill_entry dir (slot * ent_size) name (length contents) start in
      let sb_after = wr_u32 sb 16 (start + nsec) in
      let last = λ (listed : Unit {0}). write_sector d sb_sector sb_after in
      let (u, w1, s1) =
        bind-success d (write_data d contents 0 start nsec)
          (λ written. bind d (write_sector d dir_sector entry) last) b x e in
      let b1 = (write_data d contents 0 start nsec b).1 in
      let (v, w2, s2) = bind-success d (write_sector d dir_sector entry) last b1 x (rw s1 at e) in
      let b2 = (write_sector d dir_sector entry b1).1 in
      let b3 = (write_sector d sb_sector sb_after b2).1 in
      let listed =
        write_sector-held d law dir_sector entry b1
          (length-fill_entry dir slot name (length contents) start whole here) w2 in
      let holds = write_data-Holds d law nsec 0 start contents b (omega arith) w1 in
      (
        b3,
        ap (λ r. r.1) (s1 ∙ s2),
        Keeps-write d law (λ t. t ≡ dir_sector) sb_sector sb_after (λ t p. omega arith) b2
              dir_sector refl
            ∙ listed,
        λ i h.
            Keeps-write d law (λ t. 3 ≤ t) sb_sector sb_after (λ t p. omega arith) b2 (start + i)
              (omega arith)
            ∙ Keeps-write d law (λ t. 3 ≤ t) dir_sector entry (λ t p. omega arith) b1 (start + i)
                (omega arith)
            ∙ holds i h,
      )

  -- A file that has been created is read back: the read succeeds, reports the size of the contents,
  -- leaves them at the front of a buffer that has room for them, and changes no sector. Reads of the
  -- disk's sectors succeed; the first free sector is behind the directory, whose free slots have no name
  -- left in them; the name does not begin with a zero and was not in use.
  pub fs_read-fs_create :
      (name contents out : List ℕ) (b : d.Blk) (x : Unit {0})
      → 3 ≤ rd_u32 (law.held b sb_sector) 16
      → Clean (law.held b dir_sector)
      → fs_find (law.held b dir_sector) name ≡ none
      → octet name 0 ≢ 0
      → length contents ≤ length out
      → (fs_create d name contents b).0 ≡ some x
      → Reads d law contents
          (fs_create d name contents b).1
          (fs_read d name out (fs_create d name contents b).1)
  unfolding fs_read
  fs_read-fs_create name contents out b x above clean absent first room e =
      let start = rd_u32 (law.held b sb_sector) 16 in
      let dir = law.held b dir_sector in
      let (slot, free, fits, same) = fs_create-success name contents b x e in
      let (below, empty) = free_slot-free dir_entries 0 slot dir free in
      let (b', after, listed, holds) =
        stored (law.held b sb_sector) dir name contents (opened b) slot x above
          (law.length-held b dir_sector) (omega (arith, below)) (sym (ap (λ r. r.0) same) ∙ e) in
      let found =
        fs_find-fill_entry dir name slot (length contents) start (law.length-held b dir_sector)
          clean free absent first (omega (arith, fits)) (omega (arith, fits)) in
      let b1 = (d.read b' dir_sector).1 in
      let (out', reads, all, kept) =
        read_data-Holds d law fine (sectors_for (length contents)) 0 start contents out b1 fits
          (omega arith) (omega arith) room
          (λ i h. law.read-keeps b' dir_sector (start + i) ∙ holds i h) refl in
      rw (ap (λ r. r.1) same ∙ after) (
        rw (read_sector, fine b' dir_sector (omega arith), listed, found)
          (out', reads, all, λ t. kept t ∙ law.read-keeps b' dir_sector t))
