-- ===== src/Virtio/Card.antt =====
-- The virtio network driver of Xernel/userland/init/src/main.rs: `vq_setup`, `net_init`, `net_rx_arm`,
-- `net_rx_wait` and `net_tx`. What it prints is left out.
use xernel.Prelude.{
  ◌==◌, if◌then◌else◌, length, replicate, u64_max, add64, mul64, ℕ, zero, suc, ◌+◌, ◌-◌, ◌/◌, ◌%◌,
  ◌^◌, Bool, true, false, not, Option, none, some, List, [], ◌∷◌,
}
use xernel.Virtio.{
  Memory, Bus, vio_queue_pfn, vio_queue_size, vio_queue_select, vio_queue_notify, vio_status,
  vio_config, st_ack, st_driver, st_driver_ok, desc_write, add16, write16, Sys, pci_read, port_in,
  port_out, dma_alloc, poll, write_desc,
}
use xernel.Virtio.Block.{used_off_of, queue_len, copy_in, copy_out, handshake, negotiate}

pub record Net : Type 0 where
  pub io : ℕ
  pub mac : List ℕ
  pub rx_ring : ℕ
  pub rx_used_off : ℕ
  pub rx_avail : ℕ
  pub rx_buf_va : ℕ
  pub rx_buf_phys : ℕ
  pub rx_posted : ℕ
  pub tx_ring : ℕ
  pub tx_used_off : ℕ
  pub tx_avail : ℕ
  pub tx_buf_va : ℕ
  pub tx_buf_phys : ℕ
  pub tx_posted : ℕ

abbrev pub vnet_rx : ℕ
vnet_rx = 0

abbrev pub vnet_tx : ℕ
vnet_tx = 1

abbrev pub vnet_hdr_len : ℕ
vnet_hdr_len = 10

abbrev pub net_buf : ℕ
net_buf = 2048

-- The limits of the loops of `net_rx_wait` and `net_tx`.
unfoldable pub rx_spins : ℕ
rx_spins = 800000000

unfoldable pub tx_spins : ℕ
tx_spins = 200000000

-- `x - 1` of `u16`.
abbrev pub pred16 : ℕ → ℕ
pred16 x = (x + 65535) % 2 ^ 16

-- The descriptor, the entry of the available ring and its index, for a count of buffers that has
-- been raised already. The entry is not taken modulo the size of the queue.
unfoldable pub post : ℕ → ℕ → ℕ → ℕ → ℕ → ℕ → Memory → Memory
post ring avail addr len flags posted m =
    write16
      (write16 (write_desc m ring 0 addr len flags 0)
        (add64 (add64 avail 4) (mul64 2 (pred16 posted))) 0)
      (add64 avail 2) posted

unfoldable pub rx_publish : Net → Memory → Memory
rx_publish n m = post n.rx_ring n.rx_avail n.rx_buf_phys net_buf desc_write (add16 n.rx_posted 1) m

-- The header of zeros, and the frame behind it.
abbrev pub fill_packet : Net → List ℕ → Memory → Memory
fill_packet n frame m =
    copy_in (copy_in m n.tx_buf_va (replicate vnet_hdr_len 0) 0 vnet_hdr_len)
      (add64 n.tx_buf_va vnet_hdr_len) frame 0 (length frame)

unfoldable pub tx_publish : Net → List ℕ → Memory → Memory
tx_publish n frame m =
    post n.tx_ring n.tx_avail n.tx_buf_phys (add64 vnet_hdr_len (length frame) % 2 ^ 32) 0
      (add16 n.tx_posted 1) (fill_packet n frame m)

module _ (bus : Bus) where
  unfoldable pub net_rx_arm : Net → Sys bus → Net × Sys bus
  unfolding rx_publish
  net_rx_arm n (d, m) = (
    record n { rx_posted = add16 n.rx_posted 1 },
    port_out bus (add16 n.io vio_queue_notify) 2 vnet_rx (d, rx_publish n m),
  )

  -- The frame behind the header, as long as the buffer is.
  abbrev frame_of : Net → List ℕ → Bool × Sys bus → (Bool × List ℕ) × Sys bus
  frame_of n out (false, s) = ((false, out), s)
  frame_of n out (true, s) =
      ((true, copy_out s.1 (add64 n.rx_buf_va vnet_hdr_len) 0 (length out)), s)

  unfoldable pub net_rx_wait : Net → List ℕ → Sys bus → (Bool × List ℕ) × Sys bus
  net_rx_wait n out s =
      frame_of n out
        (poll bus (add64 (add64 n.rx_ring n.rx_used_off) 2) n.rx_posted (suc rx_spins) s)

  unfoldable pub net_tx : Net → List ℕ → Sys bus → Bool × (Net × Sys bus)
  unfolding tx_publish
  net_tx n frame (d, m) =
      let posted = add16 n.tx_posted 1 in
      let (done, s) =
        poll bus (add64 (add64 n.tx_ring n.tx_used_off) 2) posted (suc tx_spins)
          (port_out bus (add16 n.io vio_queue_notify) 2 vnet_tx (d, tx_publish n frame m)) in
      (done, (record n { tx_posted = posted }, s))

  -- The ring, the offset of its used ring, and its available ring.
  abbrev pub VirtQueue : Type 0
  VirtQueue = ℕ × ℕ × ℕ

  abbrev ring_at : ℕ → ℕ → (ℕ × ℕ) × Sys bus → Option VirtQueue × Sys bus
  ring_at io n ((q_va, q_phys), s) = if q_va == u64_max then (none, s) else (
    some (q_va, used_off_of n, add64 q_va (mul64 16 n)),
    port_out bus (add16 io vio_queue_pfn) 4 (q_phys / 4096 % 2 ^ 32) s,
  )

  abbrev ring_of : ℕ → ℕ × Sys bus → Option VirtQueue × Sys bus
  ring_of io (n, s) = if n == 0 then (none, s) else ring_at io n (dma_alloc bus (queue_len n) s)

  unfoldable pub vq_setup : ℕ → ℕ → Sys bus → Option VirtQueue × Sys bus
  vq_setup io idx s =
      ring_of io
        (port_in bus (add16 io vio_queue_size) 2 (port_out bus (add16 io vio_queue_select) 2 idx s))

  -- A queue and a buffer for it, or the end of the setup.
  abbrev with_buf : Option VirtQueue × Sys bus → Option (VirtQueue × ℕ × ℕ) × Sys bus
  with_buf (none, s) = (none, s)
  with_buf (some ring, s) =
      let ((va, phys), s1) = dma_alloc bus net_buf s in
      if va == u64_max then (none, s1) else (some (ring, va, phys), s1)

  -- The loop that reads the hardware address, from byte `i` on.
  unfoldable pub read_mac : ℕ → ℕ → ℕ → Sys bus → List ℕ × Sys bus
  read_mac io i zero s = ([], s)
  read_mac io i (suc left) s =
      let (b, s1) = port_in bus (add16 (add16 io vio_config) i) 1 s in
      let (rest, s2) = read_mac io (suc i) left s1 in (b % 256 ∷ rest, s2)

  abbrev with_tx :
      ℕ → List ℕ → VirtQueue × ℕ × ℕ → Option (VirtQueue × ℕ × ℕ) × Sys bus → Option Net × Sys bus
  with_tx io mac rx (none, s) = (none, s)
  with_tx io mac ((rx_ring, rx_used_off, rx_avail), rx_va, rx_phys)
        (some ((tx_ring, tx_used_off, tx_avail), tx_va, tx_phys), s) =
      (
        some (record {
          io = io;
          mac = mac;
          rx_ring = rx_ring;
          rx_used_off = rx_used_off;
          rx_avail = rx_avail;
          rx_buf_va = rx_va;
          rx_buf_phys = rx_phys;
          rx_posted = 0;
          tx_ring = tx_ring;
          tx_used_off = tx_used_off;
          tx_avail = tx_avail;
          tx_buf_va = tx_va;
          tx_buf_phys = tx_phys;
          tx_posted = 0;
        }),
        port_out bus (add16 io vio_status) 1 (st_ack + st_driver + st_driver_ok) s,
      )

  abbrev with_rx : ℕ → List ℕ → Option (VirtQueue × ℕ × ℕ) × Sys bus → Option Net × Sys bus
  with_rx io mac (none, s) = (none, s)
  with_rx io mac (some rx, s) = with_tx io mac rx (with_buf (vq_setup io vnet_tx s))

  unfoldable pub net_init : ℕ → Sys bus → Option Net × Sys bus
  net_init dev s =
      let bar0 = pci_read bus 0 dev 0 0x10 s in
      let io = bar0 % 2 ^ 16 - bar0 % 4 in
      if not (bar0 % 2 == 1)
      then (none, s)
      else let (mac, s1) = read_mac io 0 6 (negotiate bus io (handshake bus io s)) in
        with_rx io mac (with_buf (vq_setup io vnet_rx s1))
