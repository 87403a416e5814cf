-- ===== src/Virtio/Packet.antt =====
-- What a virtio network device finds in the queues that `net_rx_arm` and `net_tx` of
-- Xernel/userland/init/src/main.rs fill.
use xernel.Prelude.{
  ◌==◌, if◌then◌else◌, ==_refl, u64_mod, add64, mul64, from_le_bytes, ℕ, suc, ◌+◌, ◌*◌, ◌%◌, ◌^◌,
  ◌≤◌, ◌<◌, ◌≡◌, ap, ◌∙◌, ◌⊎◌, inl, inr, true, Option, none, some, List, arith, dec_lt,
}
use native.Mathlib.Nat.{mod-eq_of_lt}
use xernel.Virtio.{Memory, add16, fetch, read16, write_desc}
use xernel.Virtio.Memory.{fetch_cong}
use xernel.Virtio.Queue.{
  Desc, read_desc, from_le_bytes-store, read-store_apart, store_le-out, write_desc-out,
  read_desc-write_desc, read_desc-cong,
}
use xernel.Virtio.Card.{pred16, post}

-- The descriptor that is new to a device that has taken `count` buffers from a queue of `n`
-- entries with its table of descriptors at `table`.
abbrev pub posted_desc : Memory → ℕ → ℕ → ℕ → Option Desc
posted_desc m table n count =
    let avail = table + 16 * n in
    if read16 m (avail + 2) == (count + 1) % 2 ^ 16
    then some (read_desc m table (read16 m (avail + 4 + 2 * (count % n))))
    else none

abbrev bytes_of : (ℕ → ℕ) → Memory → Option Desc → Option (List ℕ)
bytes_of seen m none = none
bytes_of seen m (some d) = some (fetch m (seen d.addr) d.len)

-- The bytes that the device sends.
abbrev pub packet : (ℕ → ℕ) → Memory → ℕ → ℕ → ℕ → Option (List ℕ)
packet seen m table n count = bytes_of seen m (posted_desc m table n count)

-- A queue of `n` entries at `ring`: the table of descriptors, the available ring and the used ring
-- one after the other.
pub record IsRing (ring n used_off avail : ℕ) : Type 0 where
  pub some_entry : 1 ≤ n
  pub avail_at : avail ≡ ring + 16 * n
  pub used_behind : 16 * n + 6 + 2 * n ≤ used_off
  pub ring_end : ring + used_off + 6 + 8 * n ≤ u64_mod

module _ (ring n used_off avail : ℕ) (is_ring : IsRing ring n used_off avail)
    (addr len flags count : ℕ) (below : suc count < 2 ^ 16) (m : Memory) where
  abbrev entries : ℕ
  entries = ring + 16 * n + 4

  abbrev posted : Memory
  posted = post ring avail addr len flags (add16 count 1) m

  module _ (inside : 16 * n + 4 + 2 * count ≤ used_off + 2) where
    entry_at : add64 (add64 avail 4) (mul64 2 (pred16 (add16 count 1))) ≡ entries + 2 * count
    entry_at = omega (arith, is_ring.avail_at, is_ring.ring_end)

    idx_at : add64 avail 2 ≡ ring + 16 * n + 2
    idx_at = omega (arith, is_ring.avail_at, is_ring.ring_end, is_ring.used_behind)

    table_fits : ring + 16 * 0 + 16 ≤ u64_mod
    table_fits = omega (arith, is_ring.some_entry, is_ring.ring_end, is_ring.used_behind)

    pub post-out : (x : ℕ) → (x < ring) ⊎ (ring + 16 * n + 6 + 2 * count ≤ x) → posted x ≡ m x
    unfolding post
    post-out x apart =
        rw (entry_at, idx_at)
          (store_le-out _ (ring + 16 * n + 2) 2 (add16 count 1) x
              (elim apart [ inl h ↦ inl (omega arith) | inr h ↦ inr (omega arith) ])
            ∙ store_le-out _ (entries + 2 * count) 2 0 x
                (elim apart [ inl h ↦ inl (omega arith) | inr h ↦ inr (omega arith) ])
            ∙ write_desc-out m ring 0 addr len flags 0 table_fits x (elim apart [
              | inl h ↦ inl (omega arith)
              | inr h ↦ inr (omega (arith, is_ring.some_entry))
            ]))

    post-idx : read16 posted (ring + 16 * n + 2) ≡ add16 count 1
    unfolding post
    post-idx =
        rw (entry_at, idx_at)
          (from_le_bytes-store _ (ring + 16 * n + 2) 2 (add16 count 1) (omega arith))

    pub post-entry : read16 posted (entries + 2 * count) ≡ 0
    unfolding post
    post-entry =
        rw (entry_at, idx_at)
          (read-store_apart _ (ring + 16 * n + 2) 2 (add16 count 1) (entries + 2 * count) 2
              (inr (omega arith))
            ∙ from_le_bytes-store _ (entries + 2 * count) 2 0 (omega arith))

    post-old_entry :
        (k : ℕ) → k < count → read16 posted (entries + 2 * k) ≡ read16 m (entries + 2 * k)
    unfolding post
    post-old_entry k h =
        rw (entry_at, idx_at)
          (read-store_apart _ (ring + 16 * n + 2) 2 (add16 count 1) (entries + 2 * k) 2
              (inr (omega arith))
            ∙ read-store_apart _ (entries + 2 * count) 2 0 (entries + 2 * k) 2 (inl (omega arith))
            ∙ ap from_le_bytes (
                fetch_cong _ m (entries + 2 * k) 2 λ i l.
                  write_desc-out m ring 0 addr len flags 0 table_fits (entries + 2 * k + i)
                    (inr (omega (arith, is_ring.some_entry)))))

    post-desc :
        addr < u64_mod
        → len < 2 ^ 32
        → flags < 2 ^ 16
        → read_desc posted ring 0 ≡ record { addr = addr; len = len; flags = flags; next = 0 }
    unfolding post
    post-desc ha hl hf =
        rw (entry_at, idx_at)
          (read_desc-cong _ (write_desc m ring 0 addr len flags 0) ring 0 (λ x low high.
              store_le-out _ (ring + 16 * n + 2) 2 (add16 count 1) x
                (inl (omega (arith, is_ring.some_entry)))
              ∙ store_le-out _ (entries + 2 * count) 2 0 x
                  (inl (omega (arith, is_ring.some_entry))))
            ∙ read_desc-write_desc m ring 0 addr len flags 0 table_fits ha hl hf (omega arith))

    -- The entry that the device reads is the new one while the available ring is filled for the
    -- first time, and an old one after that.
    post-head :
        (count < n) ⊎ (read16 m (entries + 2 * (count % n)) ≡ 0)
        → read16 posted (entries + 2 * (count % n)) ≡ 0
    post-head (inl new) = let e = mod-eq_of_lt new in rw e post-entry
    post-head (inr old) = elim (dec_lt count n) [
      | yes new ↦ let e = mod-eq_of_lt new in rw e post-entry
      | no full ↦ post-old_entry (count % n) (omega (arith, is_ring.some_entry)) ∙ old
    ]

    -- The device finds the descriptor that was written.
    pub post-posted_desc :
        addr < u64_mod
        → len < 2 ^ 32
        → flags < 2 ^ 16
        → (count < n) ⊎ (read16 m (entries + 2 * (count % n)) ≡ 0)
        → posted_desc posted ring n count
          ≡ some (record { addr = addr; len = len; flags = flags; next = 0 })
    post-posted_desc ha hl hf head =
        let counted : (add16 count 1 == add16 count 1) ≡ true = ==_refl (add16 count 1) in
        rw (post-idx, counted) (rw (post-head head) (ap some (post-desc ha hl hf)))
