-- ===== src/Virtio.antt =====
-- The virtio drivers of Xernel/userland/init/src/main.rs: the register block, the virtqueues in memory,
-- and the calls of the kernel through which the drivers reach the device. The device is a parameter.
pub mod Memory
pub mod Decode
pub mod Publish
pub mod Request
pub mod Device
pub mod Transfer
pub mod Disk
pub mod Files
pub mod Init
pub mod Card
pub mod Packet
pub mod Frames
pub mod MemoryDisk
mod Tests
pub mod Queue
pub mod Block
use xernel.Prelude.{
  ltb, leb, ◌==◌, if◌then◌else◌, ltb→lt, leb→le, eq→==, ==→eq, ==_refl, Bool-cases, Option-cases,
  length, get_elem?, set, take, drop, replicate, length-append, length-set, length-replicate,
  length-take, length-drop, get_elem?-set_self, get_elem?-set_ne, get_elem?-lt, get_elem?-ge,
  get_elem?-none, get_elem?-exists, get_elem?-append_left, get_elem?-append_length, u64_mod,
  u64_max, add64, sub64, mul64, checked_add, checked_sub, saturating_add, saturating_sub,
  length-modify, get_elem?-modify_self, get_elem?-modify_ne, get_elem?-modify, length-map,
  get_elem?-map, map-cases, test_bit, bit_or, test_bit-bit_or, test_bit_zero, test_bit-none,
  le_bytes, from_le_bytes, octet_of, octet, slice, splice, length-le_bytes, from_le_bytes-le_bytes,
  ℕ, zero, suc, ◌+◌, ◌-◌, ◌*◌, ◌/◌, ◌%◌, ◌^◌, ◌≤◌, ◌<◌, min, max, ◌≡◌, refl, sym, ap, subst, ◌∙◌,
  ◌≢◌, ◌↔◌, ◌⊎◌, inl, inr, Bool, true, false, ◌&&◌, ◌||◌, not, Option, none, some, List, [], ◌∷◌,
  ◌++◌, map, append_assoc, append-nil, arith, dec_lt, ℕ_discrete,
}

-- The memory that driver and device share, by the address the driver uses.
abbrev pub Memory : Type 0
Memory = ℕ → ℕ

-- What the driver reaches by system calls: a read of the configuration space, a read and a write of
-- a port, given a size in bytes, and a buffer for the device, with its address for the driver and
-- its physical address. Only here, and while the driver looks at memory again and again (`pause`),
-- does the device get to work, and it may change the memory.
pub record Bus : Type 1 where
  pub Dev : Type 0
  pub config_read : Dev → ℕ → ℕ → ℕ → ℕ → ℕ
  pub read_port : Dev → ℕ → ℕ → ℕ × Dev
  pub write_port : Dev → Memory → ℕ → ℕ → ℕ → Dev × Memory
  pub alloc_dma : Dev → Memory → ℕ → Option (ℕ × ℕ) × (Dev × Memory)
  pub pause : Dev → Memory → Dev × Memory

abbrev pub vio_device_features : ℕ
vio_device_features = 0x00

abbrev pub vio_guest_features : ℕ
vio_guest_features = 0x04

abbrev pub vio_queue_pfn : ℕ
vio_queue_pfn = 0x08

abbrev pub vio_queue_size : ℕ
vio_queue_size = 0x0C

abbrev pub vio_queue_select : ℕ
vio_queue_select = 0x0E

abbrev pub vio_queue_notify : ℕ
vio_queue_notify = 0x10

abbrev pub vio_status : ℕ
vio_status = 0x12

abbrev pub vio_config : ℕ
vio_config = 0x14

abbrev pub st_ack : ℕ
st_ack = 1

abbrev pub st_driver : ℕ
st_driver = 2

abbrev pub st_driver_ok : ℕ
st_driver_ok = 4

abbrev pub desc_next : ℕ
desc_next = 1

abbrev pub desc_write : ℕ
desc_write = 2

abbrev pub blk_t_in : ℕ
blk_t_in = 0

abbrev pub blk_t_out : ℕ
blk_t_out = 1

abbrev pub qalign : ℕ
qalign = 4096

-- For `a` a power of two, the bits that are cleared are the remainder.
abbrev pub align_up : ℕ → ℕ → ℕ
align_up x a = let y = sub64 (add64 x a) 1 in y - y % a

-- `io + offset` of `u16`.
abbrev pub add16 : ℕ → ℕ → ℕ
add16 a b = (a + b) % 2 ^ 16

-- Writes of consecutive bytes; the driver's `write_volatile` of a number is one of its bytes.
unfoldable pub store : Memory → ℕ → List ℕ → Memory
store m a bytes = λ x. if leb a x && ltb x (a + length bytes) then octet bytes (x - a) else m x

-- The bytes from an address on.
unfoldable pub fetch : Memory → ℕ → ℕ → List ℕ
fetch m a zero = []
fetch m a (suc n) = m a ∷ fetch m (suc a) n

abbrev pub wr_u8 : Memory → ℕ → ℕ → Memory
wr_u8 m va v = store m va (v ∷ [])

abbrev pub write16 : Memory → ℕ → ℕ → Memory
write16 m a v = store m a (le_bytes 2 v)

abbrev pub write32 : Memory → ℕ → ℕ → Memory
write32 m a v = store m a (le_bytes 4 v)

abbrev pub write64 : Memory → ℕ → ℕ → Memory
write64 m a v = store m a (le_bytes 8 v)

abbrev pub read16 : Memory → ℕ → ℕ
read16 m a = from_le_bytes (fetch m a 2)

module _ (bus : Bus) where
  abbrev pub Sys : Type 0
  Sys = bus.Dev × Memory

  abbrev pub pci_read : ℕ → ℕ → ℕ → ℕ → Sys → ℕ
  pci_read slot dev func offset (d, m) = bus.config_read d slot dev func offset % 2 ^ 32

  abbrev truncated : ℕ × bus.Dev → Memory → ℕ × Sys
  truncated (v, d) m = (v % 2 ^ 32, (d, m))

  abbrev pub port_in : ℕ → ℕ → Sys → ℕ × Sys
  port_in port size (d, m) = truncated (bus.read_port d port size) m

  abbrev pub port_out : ℕ → ℕ → ℕ → Sys → Sys
  port_out port size value (d, m) = bus.write_port d m port size value

  -- The buffer's address and its physical address, or `(u64::MAX, 0)`.
  abbrev dma_answer : Option (ℕ × ℕ) × Sys → (ℕ × ℕ) × Sys
  dma_answer (none, s) = ((u64_max, 0), s)
  dma_answer (some area, s) = (area, s)

  abbrev pub dma_alloc : ℕ → Sys → (ℕ × ℕ) × Sys
  dma_alloc len (d, m) = dma_answer (bus.alloc_dma d m len)

  abbrev pub pause : Sys → Sys
  pause (d, m) = bus.pause d m

  -- The loops that poll the used index until it is `seq`, and give up after so many looks.
  unfoldable pub poll : ℕ → ℕ → ℕ → Sys → Bool × Sys
  poll used_idx seq zero s = (false, s)
  poll used_idx seq (suc looks) s =
      let rest = poll used_idx seq looks (pause s) in
      if read16 s.1 used_idx == seq then (true, s) else rest

  -- Whether the device in a slot is virtio, with the device id `devid`.
  abbrev is_virtio : ℕ → ℕ → Bool
  is_virtio devid id = id % 2 ^ 16 == 0x1af4 && id / 2 ^ 16 % 2 ^ 16 == devid

  -- The loop over the slots from `dev` on.
  unfoldable pub find_from : ℕ → ℕ → ℕ → Sys → ℕ
  find_from devid dev zero s = 0xFF
  find_from devid dev (suc left) s =
      let rest = find_from devid (suc dev) left s in
      if is_virtio devid (pci_read 0 dev 0 0 s) then dev else rest

  abbrev pub pci_find_virtio : ℕ → Sys → ℕ
  pci_find_virtio devid s = find_from devid 0 32 s

-- `write_desc`: descriptor `i` of the table at `base`.
unfoldable pub write_desc : Memory → ℕ → ℕ → ℕ → ℕ → ℕ → ℕ → Memory
write_desc m base i addr len flags next =
    let d = add64 base (mul64 i 16) in
    write16 (write16 (write32 (write64 m d addr) (add64 d 8) len) (add64 d 12) flags) (add64 d 14)
      next
