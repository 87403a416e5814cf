-- ===== src/Virtio/Block.antt =====
-- The virtio block device driver of Xernel/userland/init/src/main.rs: `blk_init` and `blk_rw`. What it
-- prints is left out.
use xernel.Prelude.{
  ◌==◌, if◌then◌else◌, u64_max, add64, mul64, octet, ℕ, zero, suc, ◌+◌, ◌-◌, ◌/◌, ◌%◌, ◌^◌, Bool,
  true, false, not, Option, none, some, List, [], ◌∷◌,
}
use xernel.Virtio.{
  Memory, Bus, vio_device_features, vio_guest_features, vio_queue_pfn, vio_queue_size,
  vio_queue_select, vio_queue_notify, vio_status, vio_config, st_ack, st_driver, st_driver_ok,
  desc_next, desc_write, blk_t_in, blk_t_out, qalign, align_up, add16, wr_u8, write16, write32,
  write64, Sys, pci_read, port_in, port_out, dma_alloc, poll, write_desc,
}

pub record Blk : Type 0 where
  pub io : ℕ
  pub q_va : ℕ
  pub used_off : ℕ
  pub n : ℕ
  pub avail_va : ℕ
  pub hdr_va : ℕ
  pub hdr_phys : ℕ
  pub data_va : ℕ
  pub data_phys : ℕ
  pub status_va : ℕ
  pub status_phys : ℕ
  pub seq : ℕ

-- `used_off` of a queue of `n` entries, and how long its buffer is.
abbrev pub used_off_of : ℕ → ℕ
used_off_of n = align_up (add64 (add64 (mul64 16 n) 6) (mul64 2 n)) qalign

abbrev pub queue_len : ℕ → ℕ
queue_len n = add64 (add64 (used_off_of n) 6) (mul64 8 n)

-- The driver of a queue and a page of buffers.
abbrev pub new_blk : ℕ → ℕ → ℕ → ℕ → ℕ → Blk
new_blk io n q_va b_va b_phys = record {
  io = io;
  q_va = q_va;
  used_off = used_off_of n;
  n = n;
  avail_va = add64 q_va (mul64 16 n);
  hdr_va = b_va;
  hdr_phys = b_phys;
  data_va = add64 b_va 16;
  data_phys = add64 b_phys 16;
  status_va = add64 (add64 b_va 16) 512;
  status_phys = add64 (add64 b_phys 16) 512;
  seq = 0;
}

-- The limit of the loop of `blk_rw`, 200 000 000 turns.
unfoldable pub max_spins : ℕ
max_spins = 200000000

-- The loop that fills the data buffer, from index `i` on.
unfoldable pub copy_in : Memory → ℕ → List ℕ → ℕ → ℕ → Memory
copy_in m va buf i zero = m
copy_in m va buf i (suc left) = copy_in (wr_u8 m (add64 va i) (octet buf i)) va buf (suc i) left

-- The loop that empties it.
unfoldable pub copy_out : Memory → ℕ → ℕ → ℕ → List ℕ
copy_out m va i zero = []
copy_out m va i (suc left) = m (add64 va i) ∷ copy_out m va (suc i) left

-- The parts of `blk_rw` before the device is notified: the header of the request, with the
-- sentinel in the status, the data, the descriptors, and the entry in the available ring.
unfoldable pub write_header : Blk → ℕ → Bool → Memory → Memory
write_header b sector write m =
    wr_u8
      (write64
        (write32 (write32 m b.hdr_va (if write then blk_t_out else blk_t_in)) (add64 b.hdr_va 4) 0)
        (add64 b.hdr_va 8) sector)
      b.status_va 0xFF

abbrev pub fill_data : Blk → Bool → List ℕ → Memory → Memory
fill_data b write buf m = if write then copy_in m b.data_va buf 0 512 else m

-- `DESC_NEXT | if write { 0 } else { DESC_WRITE }`.
abbrev pub data_flags : Bool → ℕ
data_flags write = if write then 1 else 3

unfoldable pub write_descs : Blk → Bool → Memory → Memory
write_descs b write m =
    write_desc
      (write_desc (write_desc m b.q_va 0 b.hdr_phys 16 desc_next 1) b.q_va 1 b.data_phys 512
        (data_flags write) 2)
      b.q_va 2 b.status_phys 1 desc_write 0

abbrev pub next_seq : Blk → ℕ
next_seq b = add16 b.seq 1

unfoldable pub write_avail : Blk → Memory → Memory
write_avail b m =
    let slot = b.seq % b.n in
    write16 (write16 m (add64 (add64 b.avail_va 4) (mul64 2 slot)) 0) (add64 b.avail_va 2)
      (next_seq b)

abbrev pub publish : Blk → ℕ → Bool → List ℕ → Memory → Memory
publish b sector write buf m =
    write_avail b (write_descs b write (fill_data b write buf (write_header b sector write m)))

module _ (bus : Bus) where
  -- The transfer's answer, what is in the buffer then, and the driver and the device after.
  abbrev pub Transfer : Type 0
  Transfer = (Bool × List ℕ) × (Blk × Sys bus)

  -- The part of `blk_rw` after the loop.
  abbrev pub finish : Blk → Bool → List ℕ → Bool × Sys bus → Transfer
  finish b write buf (false, s) = ((false, buf), (b, s))
  finish b write buf (true, s) =
      if not (s.1 b.status_va == 0)
      then ((false, buf), (b, s))
      else ((true, if write then buf else copy_out s.1 b.data_va 0 512), (b, s))

  unfoldable pub blk_rw : Blk → ℕ → Bool → List ℕ → Sys bus → Transfer
  blk_rw b sector write buf (d, m) =
      finish (record b { seq = next_seq b }) write buf
        (poll bus (add64 (add64 b.q_va b.used_off) 2) (next_seq b) (suc max_spins)
          (port_out bus (add16 b.io vio_queue_notify) 2 0 (d, publish b sector write buf m)))

  -- The status handshake, the reads of the capacity, and the negotiation that takes no feature.
  unfoldable pub handshake : ℕ → Sys bus → Sys bus
  handshake io s =
      let s1 = port_out bus (add16 io vio_status) 1 0 s in
      let s2 = port_out bus (add16 io vio_status) 1 st_ack s1 in
      port_out bus (add16 io vio_status) 1 (st_ack + st_driver) s2

  unfoldable pub negotiate : ℕ → Sys bus → Sys bus
  negotiate io s =
      let (features, s1) = port_in bus (add16 io vio_device_features) 4 s in
      port_out bus (add16 io vio_guest_features) 4 0 s1

  unfoldable pub read_capacity : ℕ → Sys bus → Sys bus
  read_capacity io s =
      let (lo, s1) = port_in bus (add16 io vio_config) 4 s in
      let (hi, s2) = port_in bus (add16 (add16 io vio_config) 4) 4 s1 in s2

  -- The request buffers.
  abbrev pub with_buffer : ℕ → ℕ → ℕ → (ℕ × ℕ) × Sys bus → Option Blk × Sys bus
  with_buffer io n q_va ((b_va, b_phys), s) =
      if b_va == u64_max then (none, s) else (some (new_blk io n q_va b_va b_phys), s)

  abbrev pub with_queue : ℕ → ℕ → (ℕ × ℕ) × Sys bus → Option Blk × Sys bus
  with_queue io n ((q_va, q_phys), s) =
      if q_va == u64_max
      then (none, s)
      else let s1 = port_out bus (add16 io vio_queue_pfn) 4 (q_phys / 4096 % 2 ^ 32) s in
        let s2 = port_out bus (add16 io vio_status) 1 (st_ack + st_driver + st_driver_ok) s1 in
        with_buffer io n q_va (dma_alloc bus 4096 s2)

  abbrev pub with_size : ℕ → ℕ × Sys bus → Option Blk × Sys bus
  with_size io (n, s) =
      if n == 0 then (none, s) else with_queue io n (dma_alloc bus (queue_len n) s)

  unfoldable pub blk_init : ℕ → Sys bus → Option Blk × Sys bus
  blk_init dev s =
      let bar0 = pci_read bus 0 dev 0 0x10 s in
      let io = bar0 % 2 ^ 16 - bar0 % 4 in
      if not (bar0 % 2 == 1)
      then (none, s)
      else let s1 = negotiate io (read_capacity io (handshake io s)) in
        let s2 = port_out bus (add16 io vio_queue_select) 2 0 s1 in
        with_size io (port_in bus (add16 io vio_queue_size) 2 s2)
