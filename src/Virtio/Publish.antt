-- ===== src/Virtio/Publish.antt =====
-- The request that `blk_rw` of Xernel/userland/init/src/main.rs leaves in memory, part by part.
use xernel.Prelude.{
  if◌then◌else◌, u64_mod, add64, mul64, from_le_bytes, ℕ, ◌+◌, ◌*◌, ◌%◌, ◌^◌, ◌≤◌, ◌<◌, ◌≡◌, ap,
  ◌∙◌, ◌⊎◌, inl, inr, Bool, [], ◌∷◌, arith,
}
use xernel.Virtio.{Memory, blk_t_in, blk_t_out, read16}
use xernel.Virtio.Block.{Blk, write_header, next_seq, write_avail}
use xernel.Virtio.Memory.{store_out, fetch-store_apart}
use xernel.Virtio.Queue.{
  read32, read64, add64-plain, from_le_bytes-store, read-store_apart, store_le-out,
}

-- How a queue of `n` entries and the page of the buffers lie: the table of descriptors, the
-- available ring and the used ring one after the other, at least three descriptors, and the page
-- beside the queue.
pub record IsLaidOut (b : Blk) : Type 0 where
  pub room : 3 ≤ b.n
  pub avail_at : b.avail_va ≡ b.q_va + 16 * b.n
  pub used_behind : 16 * b.n + 6 + 2 * b.n ≤ b.used_off
  pub data_at : b.data_va ≡ b.hdr_va + 16
  pub status_at : b.status_va ≡ b.hdr_va + 528
  pub queue_end : b.q_va + b.used_off + 6 + 8 * b.n ≤ u64_mod
  pub page_end : b.hdr_va + 4096 ≤ u64_mod
  pub apart : (b.q_va + b.used_off + 6 + 8 * b.n ≤ b.hdr_va) ⊎ (b.hdr_va + 4096 ≤ b.q_va)

-- The device sees the buffers where the driver does.
pub record IsSeen (seen : ℕ → ℕ) (b : Blk) : Type 0 where
  pub hdr_seen : seen b.hdr_phys ≡ b.hdr_va
  pub data_seen : seen b.data_phys ≡ b.data_va
  pub status_seen : seen b.status_phys ≡ b.status_va
  pub hdr_small : b.hdr_phys < u64_mod
  pub data_small : b.data_phys < u64_mod
  pub status_small : b.status_phys < u64_mod

module _ (b : Blk) (laid : IsLaidOut b) where
  abbrev table_end : ℕ
  table_end = b.q_va + 16 * b.n

  abbrev entry : ℕ
  entry = b.seq % b.n

  entry-lt : entry < b.n
  entry-lt = omega (arith, laid.room)

  avail_idx : add64 b.avail_va 2 ≡ table_end + 2
  avail_idx = omega (arith, laid.avail_at, laid.queue_end, laid.used_behind)

  avail_entry : add64 (add64 b.avail_va 4) (mul64 2 entry) ≡ table_end + 4 + 2 * entry
  avail_entry = omega (arith, laid.avail_at, laid.queue_end, laid.used_behind, entry-lt)

  pub write_avail-out :
      (m : Memory) (x : ℕ) → (x < table_end) ⊎ (b.q_va + b.used_off ≤ x) → write_avail b m x ≡ m x
  unfolding write_avail
  write_avail-out m x apart =
      rw (avail_idx, avail_entry)
        (store_le-out _ (table_end + 2) 2 (next_seq b) x (elim apart [
          | inl h ↦ inl (omega arith)
          | inr h ↦ inr (omega (arith, laid.used_behind))
        ])
          ∙ store_le-out m (table_end + 4 + 2 * entry) 2 0 x (elim apart [
            | inl h ↦ inl (omega arith)
            | inr h ↦ inr (omega (arith, laid.used_behind, entry-lt))
          ]))

  pub write_avail-idx : (m : Memory) → read16 (write_avail b m) (table_end + 2) ≡ next_seq b
  unfolding write_avail
  write_avail-idx m =
      rw (avail_idx, avail_entry)
        (from_le_bytes-store _ (table_end + 2) 2 (next_seq b) (omega arith))

  pub write_avail-entry : (m : Memory) → read16 (write_avail b m) (table_end + 4 + 2 * entry) ≡ 0
  unfolding write_avail
  write_avail-entry m =
      rw (avail_idx, avail_entry)
        (read-store_apart _ (table_end + 2) 2 (next_seq b) (table_end + 4 + 2 * entry) 2
            (inr (omega arith))
          ∙ from_le_bytes-store m (table_end + 4 + 2 * entry) 2 0 (omega arith))

  -- The header, and what else is written with it.
  pub write_header-out :
      (sector : ℕ) (write : Bool) (m : Memory) (x : ℕ)
      → (x < b.hdr_va) ⊎ (b.hdr_va + 529 ≤ x)
      → write_header b sector write m x ≡ m x
  unfolding write_header
  write_header-out sector write m x apart =
      let beside : (a n : ℕ) → b.hdr_va ≤ a → a + n ≤ b.hdr_va + 529 → (x < a) ⊎ (a + n ≤ x) =
        λ a n l h. ground arith in
      rw
        (
          add64-plain b.hdr_va 4 (omega (arith, laid.page_end)),
          add64-plain b.hdr_va 8 (omega (arith, laid.page_end)),
          laid.status_at,
        )
        (store_out _ (b.hdr_va + 528) (0xFF ∷ []) x
            (beside (b.hdr_va + 528) 1 (omega arith) (omega arith))
          ∙ store_le-out _ (b.hdr_va + 8) 8 sector x
              (beside (b.hdr_va + 8) 8 (omega arith) (omega arith))
          ∙ store_le-out _ (b.hdr_va + 4) 4 0 x
              (beside (b.hdr_va + 4) 4 (omega arith) (omega arith))
          ∙ store_le-out m b.hdr_va 4 _ x (beside b.hdr_va 4 (omega arith) (omega arith)))

  pub write_header-kind :
      (sector : ℕ) (write : Bool) (m : Memory)
      → read32 (write_header b sector write m) b.hdr_va ≡ (if write then blk_t_out else blk_t_in)
  unfolding write_header
  write_header-kind sector write m =
      let small : (w : Bool) → (if w then blk_t_out else blk_t_in) < 256 ^ 4 = λ w. ground arith in
      rw
        (
          add64-plain b.hdr_va 4 (omega (arith, laid.page_end)),
          add64-plain b.hdr_va 8 (omega (arith, laid.page_end)),
          laid.status_at,
        )
        (ap from_le_bytes
            (fetch-store_apart _ (b.hdr_va + 528) (0xFF ∷ []) b.hdr_va 4 (inl (omega arith)))
          ∙ read-store_apart _ (b.hdr_va + 8) 8 sector b.hdr_va 4 (inl (omega arith))
          ∙ read-store_apart _ (b.hdr_va + 4) 4 0 b.hdr_va 4 (inl (omega arith))
          ∙ from_le_bytes-store m b.hdr_va 4 _ (small write))

  pub write_header-sector :
      (sector : ℕ) (write : Bool) (m : Memory)
      → sector < u64_mod
      → read64 (write_header b sector write m) (b.hdr_va + 8) ≡ sector
  unfolding write_header
  write_header-sector sector write m small =
      rw
        (
          add64-plain b.hdr_va 4 (omega (arith, laid.page_end)),
          add64-plain b.hdr_va 8 (omega (arith, laid.page_end)),
          laid.status_at,
        )
        (ap from_le_bytes
            (fetch-store_apart _ (b.hdr_va + 528) (0xFF ∷ []) (b.hdr_va + 8) 8 (inl (omega arith)))
          ∙ from_le_bytes-store _ (b.hdr_va + 8) 8 sector (omega arith))
