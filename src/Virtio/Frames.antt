-- ===== src/Virtio/Frames.antt =====
-- Frames in the queues of the virtio network driver of Xernel/userland/init/src/main.rs: how `net_tx` hands
-- one to the device, and what `net_rx_arm` does to the queue as the count of frames grows.
use xernel.Prelude.{
  length, replicate, u64_mod, add64, from_le_bytes, ℕ, suc, ◌+◌, ◌*◌, ◌%◌, ◌^◌, ◌≤◌, ◌<◌, ◌≡◌, refl,
  ap, ◌∙◌, ◌≢◌, ◌⊎◌, inl, inr, some, List, ◌++◌, arith,
}
use xernel.Virtio.{Memory, desc_write, add16, fetch, read16}
use xernel.Virtio.Block.{copy_in}
use xernel.Virtio.Memory.{fetch_ext, fetch_cong, fetch_add}
use xernel.Virtio.Queue.{copy_in-out, copy_in-in}
use xernel.Virtio.Card.{Net, vnet_hdr_len, net_buf, post, rx_publish, fill_packet, tx_publish}
use xernel.Virtio.Packet.{packet, IsRing, post-out, post-entry, post-posted_desc}

module _ (n : Net) (frame : List ℕ) (m : Memory) where
  module _ (fits : length frame ≤ 2038) (page_end : n.tx_buf_va + 2048 ≤ u64_mod) where
    header_at : add64 n.tx_buf_va 10 ≡ n.tx_buf_va + 10
    header_at = omega (arith, page_end)

    -- The packet in the buffer.
    pub fill_packet-fetch :
        fetch (fill_packet n frame m) n.tx_buf_va (10 + length frame) ≡ replicate 10 0 ++ frame
    fill_packet-fetch =
        let m1 = copy_in m n.tx_buf_va (replicate 10 0) 0 10 in
        let m2 = copy_in m1 (n.tx_buf_va + 10) frame 0 (length frame) in
        let front : fetch m2 n.tx_buf_va 10 ≡ replicate 10 0 =
          fetch_ext m2 n.tx_buf_va (replicate 10 0) λ i h.
            copy_in-out (length frame) 0 m1 (n.tx_buf_va + 10) frame (n.tx_buf_va + i)
              (omega (arith, page_end)) (inl (omega arith))
            ∙ copy_in-in 10 0 m n.tx_buf_va (replicate 10 0) i (omega (arith, page_end))
                (omega arith) (omega arith) in
        let back : fetch m2 (n.tx_buf_va + 10) (length frame) ≡ frame =
          fetch_ext m2 (n.tx_buf_va + 10) frame λ i h.
            copy_in-in (length frame) 0 m1 (n.tx_buf_va + 10) frame i (omega (arith, page_end))
              (omega arith) (omega arith) in
        rw header_at (fetch_add m2 n.tx_buf_va 10 (length frame) ∙ rw (front, back) refl)

    pub fill_packet-out :
        (x : ℕ) → (x < n.tx_buf_va) ⊎ (n.tx_buf_va + 2048 ≤ x) → fill_packet n frame m x ≡ m x
    fill_packet-out x apart =
        let m1 = copy_in m n.tx_buf_va (replicate 10 0) 0 10 in
        rw header_at (
          copy_in-out (length frame) 0 m1 (n.tx_buf_va + 10) frame x (omega (arith, page_end))
            (elim apart [ inl h ↦ inl (omega arith) | inr h ↦ inr (omega arith) ])
          ∙ copy_in-out 10 0 m n.tx_buf_va (replicate 10 0) x (omega (arith, page_end))
              (elim apart [ inl h ↦ inl (omega arith) | inr h ↦ inr (omega arith) ]))

  module _ (entries : ℕ) (is_ring : IsRing n.tx_ring entries n.tx_used_off n.tx_avail)
      (fits : length frame ≤ 2038) (page_end : n.tx_buf_va + 2048 ≤ u64_mod)
      (apart : (n.tx_ring + n.tx_used_off + 6 + 8 * entries ≤ n.tx_buf_va)
        ⊎ (n.tx_buf_va + 2048 ≤ n.tx_ring))
      (below : suc n.tx_posted < 2 ^ 16)
      (inside : 16 * entries + 6 + 2 * n.tx_posted ≤ n.tx_used_off) where
    len_plain : add64 vnet_hdr_len (length frame) % 2 ^ 32 ≡ 10 + length frame
    len_plain = omega (arith, fits)

    -- A frame of up to 2038 bytes, a bound that `net_tx` does not check itself, is exactly what the
    -- device finds to send when `net_tx` is given it, behind a header of ten zeros. The queue and
    -- the buffer are laid out apart, which is assumed here; there have been fewer than 2^16 - 1
    -- frames, and few enough that the entry is in front of the used ring; the frame is one of the
    -- first round or its entry in the ring is zero already; and the device sees the buffer where
    -- the driver does.
    pub tx_publish-packet :
        (seen : ℕ → ℕ)
        → seen n.tx_buf_phys ≡ n.tx_buf_va
        → n.tx_buf_phys < u64_mod
        → (n.tx_posted < entries)
          ⊎ (read16 m (n.tx_ring + 16 * entries + 4 + 2 * (n.tx_posted % entries)) ≡ 0)
        → packet seen (tx_publish n frame m) n.tx_ring entries n.tx_posted
          ≡ some (replicate 10 0 ++ frame)
    unfolding tx_publish
    tx_publish-packet seen known small head =
        let m1 = fill_packet n frame m in
        let len = 10 + length frame in
        let new = post n.tx_ring n.tx_avail n.tx_buf_phys len 0 (add16 n.tx_posted 1) m1 in
        let modulo : n.tx_posted % entries < entries = omega (arith, is_ring.some_entry) in
        let old : (n.tx_posted < entries)
            ⊎ (read16 m1 (n.tx_ring + 16 * entries + 4 + 2 * (n.tx_posted % entries)) ≡ 0) =
          elim head [
            | inl h ↦ inl h
            | inr h ↦ inr (
                ap from_le_bytes (
                  fetch_cong m1 m (n.tx_ring + 16 * entries + 4 + 2 * (n.tx_posted % entries)) 2
                    λ i l.
                      fill_packet-out fits page_end
                        (n.tx_ring + 16 * entries + 4 + 2 * (n.tx_posted % entries) + i)
                        (elim apart [
                          | inl far ↦ inl (omega (arith, is_ring.used_behind))
                          | inr far ↦ inr (omega arith)
                        ]))
                ∙ h)
          ] in
        let found =
          post-posted_desc n.tx_ring entries n.tx_used_off n.tx_avail is_ring n.tx_buf_phys len 0
            n.tx_posted below m1 (omega (arith, inside)) small (omega (arith, fits)) (omega arith)
            old in
        let kept : fetch new n.tx_buf_va (10 + length frame)
            ≡ fetch m1 n.tx_buf_va (10 + length frame) =
          fetch_cong new m1 n.tx_buf_va (10 + length frame) λ i l.
            post-out n.tx_ring entries n.tx_used_off n.tx_avail is_ring n.tx_buf_phys len 0
              n.tx_posted below m1 (omega (arith, inside)) (n.tx_buf_va + i)
              (elim apart [
                | inl far ↦ inr (omega (arith, inside))
                | inr far ↦ inl (omega (arith, fits))
              ]) in
        rw len_plain (rw found (rw known (ap some (kept ∙ fill_packet-fetch fits page_end))))

module _ (n : Net) (entries : ℕ) (is_ring : IsRing n.rx_ring entries n.rx_used_off n.rx_avail)
    (below : suc n.rx_posted < 2 ^ 16) where
  -- Arming a receive buffer leaves the used ring as it is while the entry of the frame, which is not
  -- taken modulo the size of the queue, is in front of that ring.
  pub rx_publish-used :
      (m : Memory) (x : ℕ)
      → 16 * entries + 6 + 2 * n.rx_posted ≤ n.rx_used_off
      → n.rx_ring + n.rx_used_off ≤ x
      → rx_publish n m x ≡ m x
  unfolding rx_publish
  rx_publish-used m x inside behind =
      post-out n.rx_ring entries n.rx_used_off n.rx_avail is_ring n.rx_buf_phys net_buf desc_write
        n.rx_posted below m (omega arith) x (inr (omega arith))

  -- The frame whose entry falls on the index of the used ring resets that index to zero, whatever
  -- the device has put there, although the driver waits for the count of the frame.
  pub rx_publish-overrun :
      (m : Memory)
      → 16 * entries + 4 + 2 * n.rx_posted ≡ n.rx_used_off + 2
      → (read16 (rx_publish n m) (n.rx_ring + n.rx_used_off + 2) ≡ 0) × (add16 n.rx_posted 1 ≢ 0)
  unfolding rx_publish
  rx_publish-overrun m on_index =
      let e : n.rx_ring + n.rx_used_off + 2 ≡ n.rx_ring + 16 * entries + 4 + 2 * n.rx_posted =
        omega arith in
      (
        rw e (
            post-entry n.rx_ring entries n.rx_used_off n.rx_avail is_ring n.rx_buf_phys net_buf
              desc_write n.rx_posted below m (omega arith)),
        λ zero_count. omega arith,
      )
