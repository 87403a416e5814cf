-- ===== src/Virtio/Request.antt =====
-- The memory as `blk_rw` of Xernel/userland/init/src/main.rs leaves it when it notifies the device.
use xernel.Prelude.{
  ◌==◌, if◌then◌else◌, ==_refl, length, u64_mod, from_le_bytes, octet, ℕ, ◌+◌, ◌*◌, ◌^◌, ◌≤◌, ◌<◌,
  ◌≡◌, refl, ap, subst, ◌∙◌, ◌⊎◌, inl, inr, Bool, true, false, some, List, arith,
}
use xernel.Virtio.{Memory, desc_next, desc_write, blk_t_in, blk_t_out, fetch, write_desc}
use xernel.Virtio.Block.{Blk, write_header, fill_data, data_flags, write_descs, next_seq, publish}
use xernel.Virtio.Memory.{fetch_ext, fetch_cong}
use xernel.Virtio.Queue.{
  Desc, read32, read64, read_desc, write_desc-out, read_desc-write_desc, read_desc-cong,
  copy_in-out, copy_in-in,
}
use xernel.Virtio.Decode.{request_of, chain, decode}
use xernel.Virtio.Publish.{
  IsLaidOut, IsSeen, write_avail-out, write_avail-idx, write_avail-entry, write_header-out,
  write_header-kind, write_header-sector,
}

module _ (b : Blk) (laid : IsLaidOut b) where
  off_queue :
      (x : ℕ)
      → b.hdr_va ≤ x
      → x < b.hdr_va + 4096
      → (x < b.q_va) ⊎ (b.q_va + b.used_off + 6 + 8 * b.n ≤ x)
  off_queue x low high = elim laid.apart [ inl h ↦ inr (omega arith) | inr h ↦ inl (omega arith) ]

  off_page :
      (x : ℕ)
      → b.q_va ≤ x
      → x < b.q_va + b.used_off + 6 + 8 * b.n
      → (x < b.hdr_va) ⊎ (b.hdr_va + 4096 ≤ x)
  off_page x low high = elim laid.apart [ inl h ↦ inl (omega arith) | inr h ↦ inr (omega arith) ]

  table_fits : b.q_va + 16 * 2 + 16 ≤ u64_mod
  table_fits = omega (arith, laid.room, laid.queue_end, laid.used_behind)

  write_descs-out :
      (write : Bool) (m : Memory) (x : ℕ)
      → (x < b.q_va) ⊎ (b.q_va + 48 ≤ x)
      → write_descs b write m x ≡ m x
  unfolding write_descs
  write_descs-out write m x apart =
      let beside : (i : ℕ) → i < 3 → (x < b.q_va + 16 * i) ⊎ (b.q_va + 16 * i + 16 ≤ x) =
        λ i h. elim apart [ inl p ↦ inl (omega arith) | inr p ↦ inr (omega arith) ] in
      write_desc-out _ b.q_va 2 _ _ _ _ table_fits x (beside 2 (omega arith))
      ∙ write_desc-out _ b.q_va 1 _ _ _ _ (omega (arith, table_fits)) x (beside 1 (omega arith))
      ∙ write_desc-out m b.q_va 0 _ _ _ _ (omega (arith, table_fits)) x (beside 0 (omega arith))

  -- The three descriptors.
  write_descs-read :
      (seen : ℕ → ℕ) (known : IsSeen seen b) (write : Bool) (m : Memory)
      → (read_desc (write_descs b write m) b.q_va 0
          ≡ record { addr = b.hdr_phys; len = 16; flags = 1; next = 1 })
        × (read_desc (write_descs b write m) b.q_va 1
            ≡ record { addr = b.data_phys; len = 512; flags = data_flags write; next = 2 })
        × (read_desc (write_descs b write m) b.q_va 2
            ≡ record { addr = b.status_phys; len = 1; flags = 2; next = 0 })
  unfolding write_descs
  write_descs-read seen known write m =
      let m0 = write_desc m b.q_va 0 b.hdr_phys 16 desc_next 1 in
      let m1 = write_desc m0 b.q_va 1 b.data_phys 512 (data_flags write) 2 in
      let m2 = write_desc m1 b.q_va 2 b.status_phys 1 desc_write 0 in
      let fits1 : b.q_va + 16 * 1 + 16 ≤ u64_mod = omega (arith, table_fits) in
      let fits0 : b.q_va + 16 * 0 + 16 ≤ u64_mod = omega (arith, table_fits) in
      let small : (w : Bool) → data_flags w < 2 ^ 16 = λ w. ground arith in
      let last : (x : ℕ) → x < b.q_va + 16 * 2 → m2 x ≡ m1 x =
        λ x h. write_desc-out m1 b.q_va 2 b.status_phys 1 desc_write 0 table_fits x (inl h) in
      let middle : (x : ℕ) → x < b.q_va + 16 * 1 → m1 x ≡ m0 x =
        λ x h. write_desc-out m0 b.q_va 1 b.data_phys 512 (data_flags write) 2 fits1 x (inl h) in
      (
        read_desc-cong m2 m0 b.q_va 0 (λ x l h. last x (omega arith) ∙ middle x (omega arith))
            ∙ read_desc-write_desc m b.q_va 0 b.hdr_phys 16 desc_next 1 fits0 known.hdr_small
                (omega arith) (omega arith) (omega arith),
        read_desc-cong m2 m1 b.q_va 1 (λ x l h. last x (omega arith))
            ∙ read_desc-write_desc m0 b.q_va 1 b.data_phys 512 (data_flags write) 2 fits1
                known.data_small (omega arith) (small write) (omega arith),
        read_desc-write_desc m1 b.q_va 2 b.status_phys 1 desc_write 0 table_fits known.status_small
            (omega arith) (omega arith) (omega arith),
      )

  fill_data-out :
      (write : Bool) (buf : List ℕ) (m : Memory) (x : ℕ)
      → (x < b.hdr_va + 16) ⊎ (b.hdr_va + 528 ≤ x)
      → fill_data b write buf m x ≡ m x
  fill_data-out false buf m x apart = refl
  fill_data-out true buf m x apart = rw laid.data_at (
      copy_in-out 512 0 m (b.hdr_va + 16) buf x (omega (arith, laid.page_end))
        (elim apart [ inl h ↦ inl (omega arith) | inr h ↦ inr (omega arith) ]))

  fill_data-in :
      (buf : List ℕ) (m : Memory) (j : ℕ)
      → j < 512
      → fill_data b true buf m (b.data_va + j) ≡ octet buf j
  fill_data-in buf m j h = rw laid.data_at (
      copy_in-in 512 0 m (b.hdr_va + 16) buf j (omega (arith, laid.page_end)) (omega arith)
        (omega arith))

  chain-request :
      (seen : ℕ → ℕ) (m : Memory) (table head : ℕ) {d0 d1 d2 : Desc}
      → read_desc m table head ≡ d0
      → read_desc m table d0.next ≡ d1
      → read_desc m table d1.next ≡ d2
      → chain seen m table head ≡ request_of seen m d0 d1 d2
  chain-request seen m table head {d0} {d1} {d2} e0 e1 e2 =
      let after : Desc → Desc = λ d. read_desc m table d.next in
      ap (λ d. request_of seen m d (after d) (after (after d))) e0
      ∙ ap (λ d. request_of seen m d0 d (after d)) e1
      ∙ ap (λ d. request_of seen m d0 d1 d) e2

  request-seen :
      (seen : ℕ → ℕ) (known : IsSeen seen b) (m : Memory) (sector : ℕ) (write : Bool)
      → read32 m b.hdr_va ≡ (if write then blk_t_out else blk_t_in)
      → read64 m (b.hdr_va + 8) ≡ sector
      → request_of seen m
          (record { addr = b.hdr_phys; len = 16; flags = 1; next = 1 })
          (record { addr = b.data_phys; len = 512; flags = data_flags write; next = 2 })
          (record { addr = b.status_phys; len = 1; flags = 2; next = 0 })
        ≡ some (record {
          kind = if write then blk_t_out else blk_t_in;
          sector = sector;
          buffer = b.data_va;
          status_at = b.status_va;
        })
  request-seen seen known m sector true kind place =
      rw (known.hdr_seen, known.data_seen, known.status_seen, kind, place) refl
  request-seen seen known m sector false kind place =
      rw (known.hdr_seen, known.data_seen, known.status_seen, kind, place) refl

  module _ (sector : ℕ) (write : Bool) (buf : List ℕ) (m : Memory) where
    -- Behind the page's writes only the queue is written.
    publish-page :
        (x : ℕ)
        → b.hdr_va ≤ x
        → x < b.hdr_va + 4096
        → publish b sector write buf m x ≡ fill_data b write buf (write_header b sector write m) x
    publish-page x low high =
        let away = off_queue x low high in
        write_avail-out b laid _ x
          (elim away [ inl h ↦ inl (omega arith) | inr h ↦ inr (omega arith) ])
        ∙ write_descs-out write _ x
            (elim away [ inl h ↦ inl h | inr h ↦ inr (omega (arith, laid.room, laid.used_behind)) ])

    -- The used ring is left as it was.
    pub publish-used :
        (x : ℕ)
        → b.q_va + b.used_off ≤ x
        → x < b.q_va + b.used_off + 6 + 8 * b.n
        → publish b sector write buf m x ≡ m x
    publish-used x low high =
        let away = off_page x (omega arith) high in
        write_avail-out b laid _ x (inr low)
        ∙ write_descs-out write _ x (inr (omega (arith, laid.room, laid.used_behind)))
        ∙ fill_data-out write buf _ x
            (elim away [ inl h ↦ inl (omega arith) | inr h ↦ inr (omega arith) ])
        ∙ write_header-out b laid sector write m x
            (elim away [ inl h ↦ inl h | inr h ↦ inr (omega arith) ])

    publish-header :
        (off n : ℕ)
        → off + n ≤ 16
        → fetch (publish b sector write buf m) (b.hdr_va + off) n
          ≡ fetch (write_header b sector write m) (b.hdr_va + off) n
    publish-header off n h = fetch_cong _ _ (b.hdr_va + off) n λ i k.
        publish-page (b.hdr_va + off + i) (omega arith) (omega arith)
        ∙ fill_data-out write buf _ (b.hdr_va + off + i) (inl (omega arith))

    publish-descs :
        (i : ℕ)
        → i < 3
        → read_desc (publish b sector write buf m) b.q_va i
          ≡ read_desc
              (write_descs b write (fill_data b write buf (write_header b sector write m)))
              b.q_va
              i
    publish-descs i h =
        read_desc-cong _ _ b.q_va i
          λ x low high. write_avail-out b laid _ x (inl (omega (arith, laid.room)))

    -- The device finds exactly the request in memory that the driver was asked for, with the
    -- driver's buffer and status: behind the count of the requests so far there is one new head in
    -- the available ring, and the chain from it is well formed. The queue and the buffers are laid
    -- out apart, the device sees them where the driver does, and the sector is a `u64`.
    pub decode-publish :
        (seen : ℕ → ℕ)
        → IsSeen seen b
        → sector < u64_mod
        → decode seen (publish b sector write buf m) b.q_va b.n b.seq
          ≡ some (record {
            kind = if write then blk_t_out else blk_t_in;
            sector = sector;
            buffer = b.data_va;
            status_at = b.status_va;
          })
    unfolding decode
    decode-publish seen known small =
        let filled = fill_data b write buf (write_header b sector write m) in
        let new = publish b sector write buf m in
        let (r0, r1, r2) = write_descs-read seen known write filled in
        let z : b.hdr_va + 0 ≡ b.hdr_va = omega arith in
        let front = rw z at (publish-header 0 4 (omega arith)) in
        let count : (next_seq b == next_seq b) ≡ true = ==_refl (next_seq b) in
        rw (write_avail-idx b laid (write_descs b write filled), count)
          (rw (write_avail-entry b laid (write_descs b write filled)) (
            chain-request seen new b.q_va 0 (publish-descs 0 (omega arith) ∙ r0)
              (publish-descs 1 (omega arith) ∙ r1) (publish-descs 2 (omega arith) ∙ r2)
            ∙ request-seen seen known new sector write
                (ap from_le_bytes front ∙ write_header-kind b laid sector write m)
                (ap from_le_bytes (publish-header 8 8 (omega arith))
                  ∙ write_header-sector b laid sector write m small)))

  -- The data of a write, as the device finds them.
  pub publish-contents :
      (sector : ℕ) (buf : List ℕ) (m : Memory)
      → length buf ≡ 512
      → fetch (publish b sector true buf m) b.data_va 512 ≡ buf
  publish-contents sector buf m len =
      subst (λ k. fetch (publish b sector true buf m) b.data_va k ≡ buf) len
        (fetch_ext _ b.data_va buf λ i h.
          publish-page sector true buf m (b.data_va + i) (omega (arith, laid.data_at))
            (omega (arith, laid.data_at, len))
          ∙ fill_data-in buf _ i (omega (arith, len)))
