-- ===== src/Virtio/Tests.antt =====
-- The virtio drivers of Xernel/userland/init/src/main.rs on devices in memory.
use xernel.Prelude.{
  take-append, leb, ◌==◌, if◌then◌else◌, leb→le, Bool-cases, replicate, length-replicate, u64_mod,
  le_bytes, from_le_bytes, octet, ℕ, zero, suc, ◌+◌, ◌*◌, ◌≤◌, ◌<◌, ◌≡◌, refl, sym, ap, ◌∙◌, ◌≢◌,
  inl, inr, true, false, Option, none, some, List, [], ◌∷◌, ◌++◌, arith,
}
use xernel.Virtio.{Memory, Bus, add16, read16}
use xernel.Virtio.Block.{
  Blk, new_blk, publish, blk_rw, handshake, negotiate, read_capacity, blk_init,
}
use xernel.Virtio.Card.{Net, rx_publish, tx_publish}
use xernel.Virtio.Decode.{decode}
use xernel.Virtio.MemoryDisk.{
  padded, in_memory, in_memory-IsBlockDevice, in_memory-IsHealthy, the_blk, blank,
  the_blk-IsLaidOut, the_blk-IsSeen, before, ready,
}
use xernel.Virtio.Publish.{IsLaidOut}
use xernel.Virtio.Request.{decode-publish}
use xernel.Virtio.Device.{Ready}
use xernel.Virtio.Disk.{Driven, virtio_disk, virtio_disk-IsLawful}
use xernel.Virtio.Files.{blk_rw-Ready, blk_rw-blk_rw, fs_read-device}
use xernel.Virtio.Init.{IsAllocator, Within, blk_init-IsLaidOut}
use xernel.Virtio.Packet.{packet, IsRing}
use xernel.Virtio.Frames.{tx_publish-packet, rx_publish-overrun}
use xernel.Fs.{
  Disk, fs_magic, sb_sector, dir_entries, ent_size, rd_u32, wr_u32, has_magic, zeros, free_slot,
  new_superblock, fs_create,
}
use xernel.Fs.Read.{matches, find_entry, fs_find, fs_read}
use xernel.Fs.Sectors.{Reads}

abbrev ones : List ℕ
ones = replicate 512 1

blk_rw-Ready_example :
    Ready in_memory
      (λ a. a)
      in_memory-IsBlockDevice
      (blk_rw in_memory the_blk 3 true ones (before (λ t. []))).1.0
      (blk_rw in_memory the_blk 3 true ones (before (λ t. []))).1.1
    × (padded ((blk_rw in_memory the_blk 3 true ones (before (λ t. []))).1.1.0.0 4) ≡ padded [])
blk_rw-Ready_example =
    blk_rw-Ready in_memory (λ a. a) in_memory-IsBlockDevice the_blk (before (λ t. []))
      (ready (λ t. [])) 3 (omega arith) true ones 4 (inr (omega arith))

blk_rw-blk_rw_example :
    ((blk_rw in_memory the_blk 3 true ones (before (λ t. []))).0.0 ≡ true)
    × ((blk_rw in_memory
          (blk_rw in_memory the_blk 3 true ones (before (λ t. []))).1.0
          3
          false
          []
          (blk_rw in_memory the_blk 3 true ones (before (λ t. []))).1.1).0
        ≡ (true, ones))
blk_rw-blk_rw_example =
    blk_rw-blk_rw in_memory (λ a. a) in_memory-IsBlockDevice the_blk (before (λ t. []))
      (ready (λ t. [])) 3 (omega arith) 2048 ones [] in_memory-IsHealthy (omega arith)
      (length-replicate {A = ℕ} 512 1)

decode-publish_example :
    decode (λ a. a) (publish the_blk 3 true ones blank) 0x1000 8 0
    ≡ some (record { kind = 1; sector = 3; buffer = 0x4010; status_at = 0x4210 })
decode-publish_example =
    decode-publish the_blk the_blk-IsLaidOut 3 true ones blank (λ a. a) the_blk-IsSeen (omega arith)

-- As `fs_format` leaves the disk.
abbrev formatted : ℕ → List ℕ
formatted s = if s == sb_sector then new_superblock else zeros

abbrev letters : List ℕ
letters = 0x61 ∷ 0x62 ∷ 0x63 ∷ []

abbrev file_name : List ℕ
file_name = 0x66 ∷ 0x31 ∷ []

abbrev driven : Driven in_memory (λ a. a) in_memory-IsBlockDevice
driven = (the_blk, before formatted, ready formatted)

abbrev disk : Disk
disk = virtio_disk in_memory (λ a. a) in_memory-IsBlockDevice

starts : rd_u32 (padded new_superblock) 16 ≡ 3
unfolding rd_u32 from_le_bytes new_superblock wr_u32 le_bytes
starts = refl

marked : has_magic (padded new_superblock) 0 fs_magic ≡ true
unfolding new_superblock wr_u32 le_bytes
marked = refl

first_slot : free_slot (padded zeros) 0 dir_entries ≡ some 0
unfolding free_slot
first_slot = refl

absent : fs_find (padded zeros) file_name ≡ none
unfolding find_entry matches rd_u32 from_le_bytes
absent = refl

octet-replicate : (n i : ℕ) → octet (replicate n 0) i ≡ 0
octet-replicate zero i = refl
octet-replicate (suc n) zero = refl
octet-replicate (suc n) (suc i) = octet-replicate n i

octet-blank : (i : ℕ) → octet (padded zeros) i ≡ 0
octet-blank i =
    ap (λ x. octet x i) (take-append zeros (replicate 512 0) 512 (length-replicate {A = ℕ} 512 0))
    ∙ octet-replicate 512 i

fs_read-device_example :
    ((fs_create disk file_name letters driven).0 ≡ some tt)
    × Reads disk
        (virtio_disk-IsLawful in_memory (λ a. a) in_memory-IsBlockDevice)
        letters
        (fs_create disk file_name letters driven).1
        (fs_read disk file_name (replicate 8 0) (fs_create disk file_name letters driven).1)
fs_read-device_example =
    fs_read-device in_memory (λ a. a) in_memory-IsBlockDevice file_name letters (replicate 8 0)
      driven in_memory-IsHealthy (marked, (0, first_slot), omega (arith, starts))
      (omega (arith, starts)) (λ i x h k e. octet-blank (i * ent_size + x)) absent (λ e. cc)
      (omega arith)

abbrev bump_alloc : ℕ → Memory → ℕ → Option (ℕ × ℕ) × (ℕ × Memory)
bump_alloc d m len = if leb (d + len) u64_mod then (some (d, d), (d + len, m)) else (none, (d, m))

-- A kernel that hands out one buffer behind the other, and a device with a queue of eight entries.
abbrev bump_bus : Bus
bump_bus = record {
  Dev = ℕ;
  config_read = λ d slot dev func offset. 0xc001;
  read_port = λ d port size. (8, d);
  write_port = λ d m port size value. (d, m);
  alloc_dma = bump_alloc;
  pause = λ d m. (d, m);
}

bump_alloc-given :
    (d len va phys : ℕ) (m : Memory) (s' : ℕ × Memory)
    → bump_alloc d m len ≡ (some (va, phys), s')
    → (d + len ≤ u64_mod) × (va ≡ d) × (s'.0 ≡ d + len)
bump_alloc-given d len va phys m s' e = elim (Bool-cases (leb (d + len) u64_mod)) [
  | inl fits ↦
      let given = rw fits at e in
      let area : some (d, d) ≡ some (va, phys) = ap (λ r. r.0) given in
      let rest : d + len ≡ s'.0 = ap (λ r. r.1.0) given in
      (leb→le (d + len) u64_mod fits, cc, sym rest)
  | inr full ↦ let o : none ≡ some (va, phys) = ap (λ r. r.0) (rw full at e) in absurd (cc)
]

bump_alloc-keeps :
    (s s' : ℕ × Memory) (len x : ℕ) (o : Option (ℕ × ℕ))
    → bump_alloc s.0 s.1 len ≡ (o, s')
    → x < s.0
    → x < s'.0
bump_alloc-keeps (d, m) s' len x o e low = elim (Bool-cases (leb (d + len) u64_mod)) [
  | inl fits ↦ let rest : d + len ≡ s'.0 = ap (λ r. r.1.0) (rw fits at e) in omega arith
  | inr full ↦ let rest : d ≡ s'.0 = ap (λ r. r.1.0) (rw full at e) in omega arith
]

abbrev bump_bus-IsAllocator : IsAllocator bump_bus
bump_bus-IsAllocator = record {
  Owned = λ s x. x < s.0;
  inside = λ s s' len va phys e.
      let (fits, same, next) = bump_alloc-given s.0 len va phys s.1 s' e in omega arith;
  fresh = λ s s' len va phys x e low high owned.
      let (fits, same, next) = bump_alloc-given s.0 len va phys s.1 s' e in omega arith;
  owned = λ s s' len va phys x e low high.
      let (fits, same, next) = bump_alloc-given s.0 len va phys s.1 s' e in omega arith;
  keeps = bump_alloc-keeps;
  port_out-keeps = λ s port size value x owned. owned;
}

abbrev set_up : Blk
set_up = new_blk 0xc000 8 4096 8262 8262

sets_up : (blk_init bump_bus 5 (4096, blank)).0 ≡ some set_up
unfolding blk_init handshake negotiate read_capacity
sets_up = refl

blk_init-IsLaidOut_example :
    IsLaidOut set_up
    × (set_up.seq ≡ 0)
    × Within bump_bus bump_bus-IsAllocator set_up (blk_init bump_bus 5 (4096, blank)).1
blk_init-IsLaidOut_example =
    blk_init-IsLaidOut bump_bus bump_bus-IsAllocator 5 (4096, blank) set_up sets_up (omega arith)

-- A network card with queues of 256 entries.
abbrev card : ℕ → ℕ → Net
card received transmitted = record {
  io = 0xc000;
  mac = [];
  rx_ring = 0x10000;
  rx_used_off = 8192;
  rx_avail = 0x11000;
  rx_buf_va = 0x20000;
  rx_buf_phys = 0x20000;
  rx_posted = received;
  tx_ring = 0x30000;
  tx_used_off = 8192;
  tx_avail = 0x31000;
  tx_buf_va = 0x40000;
  tx_buf_phys = 0x40000;
  tx_posted = transmitted;
}

rx_ring : IsRing 0x10000 256 8192 0x11000
rx_ring = record {
  some_entry = omega arith;
  avail_at = omega arith;
  used_behind = omega arith;
  ring_end = omega arith;
}

tx_ring : IsRing 0x30000 256 8192 0x31000
tx_ring = record {
  some_entry = omega arith;
  avail_at = omega arith;
  used_behind = omega arith;
  ring_end = omega arith;
}

tx_publish-packet_example :
    packet (λ a. a) (tx_publish (card 0 5) letters blank) 0x30000 256 5
    ≡ some (replicate 10 0 ++ letters)
tx_publish-packet_example =
    tx_publish-packet (card 0 5) letters blank 256 tx_ring (omega arith) (omega arith)
      (inl (omega arith)) (omega arith) (omega arith) (λ a. a) refl (omega arith)
      (inl (omega arith))

rx_publish-overrun_example :
    (read16 (rx_publish (card 2047 0) blank) 0x12002 ≡ 0) × (add16 2047 1 ≢ 0)
rx_publish-overrun_example =
    rx_publish-overrun (card 2047 0) 256 rx_ring (omega arith) blank (omega arith)
