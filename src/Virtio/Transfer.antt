-- ===== src/Virtio/Transfer.antt =====
-- `blk_rw` of Xernel/userland/init/src/main.rs with a virtio block device: the whole of a transfer.
use xernel.Prelude.{
  ◌==◌, if◌then◌else◌, eq→==, ==→eq, Bool-cases, u64_mod, add64, from_le_bytes, ℕ, suc, ◌+◌, ◌<◌,
  ◌≡◌, refl, ap, subst, ◌∙◌, ◌≢◌, ◌⊎◌, inl, inr, Bool, true, false, some, List, arith,
}
use xernel.Virtio.{Memory, Bus, blk_t_in, blk_t_out, add16, fetch, read16, Sys, poll}
use xernel.Virtio.Block.{Blk, max_spins, next_seq, publish, finish, blk_rw}
use xernel.Virtio.Memory.{fetch_cong}
use xernel.Virtio.Queue.{copy_out-fetch}
use xernel.Virtio.Decode.{decode, Request}
use xernel.Virtio.Publish.{IsLaidOut, IsSeen}
use xernel.Virtio.Request.{publish-used, decode-publish, publish-contents}
use xernel.Virtio.Device.{
  Clear, queue_of, progress, notified, IsBlockDevice, IsHealthy, poll-answered, Ready, Served,
}

-- The driver after a request.
abbrev advanced : Blk → Blk
advanced b = record b { seq = next_seq b }

advanced-IsLaidOut : (b : Blk) → IsLaidOut b → IsLaidOut (advanced b)
advanced-IsLaidOut b laid = record {
  room = laid.room;
  avail_at = laid.avail_at;
  used_behind = laid.used_behind;
  data_at = laid.data_at;
  status_at = laid.status_at;
  queue_end = laid.queue_end;
  page_end = laid.page_end;
  apart = laid.apart;
}

advanced-IsSeen : (seen : ℕ → ℕ) (b : Blk) → IsSeen seen b → IsSeen seen (advanced b)
advanced-IsSeen seen b known = record {
  hdr_seen = known.hdr_seen;
  data_seen = known.data_seen;
  status_seen = known.status_seen;
  hdr_small = known.hdr_small;
  data_small = known.data_small;
  status_small = known.status_small;
}

abbrev requested : Blk → ℕ → Bool → Request
requested b sector write = record {
  kind = if write then blk_t_out else blk_t_in;
  sector = sector;
  buffer = b.data_va;
  status_at = b.status_va;
}

module _ (bus : Bus) (seen : ℕ → ℕ) (law : IsBlockDevice bus seen) (b : Blk) (d : bus.Dev)
    (m : Memory) (ready : Ready bus seen law b (d, m)) (sector : ℕ) (write : Bool) (buf : List ℕ)
    (small : sector < u64_mod) where
  abbrev given : Memory
  given = publish b sector write buf m

  abbrev used_at : ℕ
  used_at = b.q_va + b.used_off + 2

  decoded : decode seen given b.q_va b.n (law.count d) ≡ some (requested b sector write)
  decoded = rw ready.counted (decode-publish b ready.laid sector write buf m seen ready.known small)

  used_kept : read16 given used_at ≡ b.seq
  used_kept =
      ap from_le_bytes (
        fetch_cong given m used_at 2 λ i h.
          publish-used b ready.laid sector write buf m (used_at + i) (omega arith) (omega arith))
      ∙ ready.used_up

  clear : Clear (queue_of b) (requested b sector write)
  clear = record {
    buffer_off = elim ready.laid.apart [
      | inl h ↦ inr (omega (arith, ready.laid.data_at))
      | inr h ↦ inl (omega (arith, ready.laid.data_at))
    ];
    status_off = elim ready.laid.apart [
      | inl h ↦ inr (omega (arith, ready.laid.status_at))
      | inr h ↦ inl (omega (arith, ready.laid.status_at))
    ];
    status_beside = inr (omega (arith, ready.laid.data_at, ready.laid.status_at));
  }

  used_plain : add64 (add64 b.q_va b.used_off) 2 ≡ used_at
  used_plain = omega (arith, ready.laid.queue_end)

  early :
      (j : ℕ)
      → j < law.delay d given
      → read16 (progress bus j (notified bus (queue_of b) (d, given))).1 used_at ≢ next_seq b
  early j h e =
      let same =
        law.waiting d given (queue_of b) (requested b sector write) j ready.live decoded h in
      omega (arith, e, same, used_kept, ready.seq_small)

  -- What the device has done when the loop ends.
  abbrev Done : Sys bus → Type 0
  Done s =
      law.Live s.0 (queue_of b)
      × (law.count s.0 ≡ add16 (law.count d) 1)
      × (read16 s.1 used_at ≡ law.count s.0)
      × ((t : ℕ)
          → ((requested b sector write).kind ≡ blk_t_in) ⊎ (sector ≢ t)
          → law.held s.0 t ≡ law.held d t)
      × ((requested b sector write).kind ≡ blk_t_in
          → s.1 b.status_va ≡ 0
          → fetch s.1 b.data_va 512 ≡ law.held d sector)
      × ((requested b sector write).kind ≡ blk_t_out
          → s.1 b.status_va ≡ 0
          → law.held s.0 sector ≡ fetch given b.data_va 512)

  polled :
      (s : Sys bus) × (poll bus
          (add64 (add64 b.q_va b.used_off) 2)
          (next_seq b)
          (suc max_spins)
          (notified bus (queue_of b) (d, given))
        ≡ (true, s))
      × (progress bus (law.delay d given) (notified bus (queue_of b) (d, given)) ≡ s)
      × Done s
  polled =
      let (s, same, live, count, used, keeps, reads, writes) =
        law.answered d given (queue_of b) (requested b sector write) ready.live decoded clear in
      let there : read16 (progress bus (law.delay d given) (notified bus (queue_of b) (d, given))).1
            used_at
          ≡ next_seq b =
        rw same (used ∙ count ∙ ap (λ c. add16 c 1) ready.counted) in
      let run =
        poll-answered bus (law.delay d given) (suc max_spins) used_at (next_seq b)
          (notified bus (queue_of b) (d, given)) early there
          (omega (arith, law.delay-bound d given)) in
      (
        s,
        rw used_plain (run ∙ ap (λ x. (true, x)) same),
        same,
        (live, count, used, keeps, reads, writes),
      )

  ready_again : (s : Sys bus) → Done s → Ready bus seen law (advanced b) s
  ready_again s (live, count, used, keeps, reads, writes) = record {
    laid = advanced-IsLaidOut b ready.laid;
    known = advanced-IsSeen seen b ready.known;
    seq_small = omega arith;
    counted = count ∙ ap (λ c. add16 c 1) ready.counted;
    used_up = used ∙ count ∙ ap (λ c. add16 c 1) ready.counted;
    live = live;
  }

  kind_in : write ≡ false → (requested b sector write).kind ≡ blk_t_in
  kind_in e = rw e refl

  kind_out : write ≡ true → (requested b sector write).kind ≡ blk_t_out
  kind_out e = rw e refl

  finished :
      (s : Sys bus)
      → Done s
      → Served bus seen law b sector write buf (d, m) (finish bus (advanced b) write buf (true, s))
  finished s done =
      let (live, count, used, keeps, reads, writes) = done in
      let others : (t : ℕ) → (write ≡ false) ⊎ (sector ≢ t) → law.held s.0 t ≡ law.held d t =
        λ t e. keeps t (elim e [ inl no_write ↦ inl (kind_in no_write) | inr other ↦ inr other ]) in
      elim (Bool-cases (s.1 b.status_va == 0)) [
        | inr refused ↦ rw refused (record {
          ready = ready_again s done;
          keeps = others;
          reads = λ success e. absurd (cc);
          writes = λ success e len. absurd (cc);
        })
        | inl fine ↦
            let status : s.1 b.status_va ≡ 0 = ==→eq (s.1 b.status_va) 0 fine in
            let copied =
              copy_out-fetch 512 0 s.1 b.data_va
                (omega (arith, ready.laid.data_at, ready.laid.page_end)) in
            let front : b.data_va + 0 ≡ b.data_va = omega arith in
            rw fine (record {
              ready = ready_again s done;
              keeps = others;
              reads = λ success e. rw (e, copied, front) (reads (kind_in e) status);
              writes = λ success e len.
                  writes (kind_out e) status
                  ∙ rw e (publish-contents b ready.laid sector buf m len);
            })
      ]

  -- A transfer of a sector does what a store of sectors does, and leaves driver and device at the
  -- next request: whether it succeeds or fails, no other sector changes, and none by a read; a read
  -- that succeeds leaves the sector in the buffer, and a write that succeeds leaves the buffer's 512
  -- bytes in the sector. The device keeps to the standard and answers within the loop's turns, the
  -- driver is at the same request as the device, and the sector is a `u64`.
  pub blk_rw-Served :
      Served bus seen law b sector write buf (d, m) (blk_rw bus b sector write buf (d, m))
  unfolding blk_rw
  blk_rw-Served = let (s, run, same, done) = polled in rw run (finished s done)

  -- On a healthy device the transfer succeeds.
  pub blk_rw-success :
      (size : ℕ)
      → IsHealthy bus seen law size
      → sector < size
      → (blk_rw bus b sector write buf (d, m)).0.0 ≡ true
  unfolding blk_rw
  blk_rw-success size healthy below =
      let (s, run, same, done) = polled in
      let status : s.1 b.status_va ≡ 0 =
        subst (λ x. x.1 b.status_va ≡ 0) same
          (healthy d given (queue_of b) (requested b sector write) ready.live decoded clear
            below) in
      let fine : (s.1 b.status_va == 0) ≡ true = eq→== (s.1 b.status_va) 0 status in
      rw run (rw fine refl)
