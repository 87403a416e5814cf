-- ===== src/Virtio/Device.antt =====
-- What `blk_rw` of Xernel/userland/init/src/main.rs relies on of a virtio block device, and what it
-- does with one.
use xernel.Prelude.{
  ◌==◌, eq→==, length, ℕ, zero, suc, ◌+◌, ◌*◌, ◌^◌, ◌≤◌, ◌<◌, ◌≡◌, refl, ◌≢◌, ◌⊎◌, Bool, true,
  false, some, List, arith,
}
use xernel.Virtio.{
  Memory, Bus, vio_queue_notify, blk_t_in, blk_t_out, add16, fetch, read16, Sys, port_out, pause,
  poll,
}
use xernel.Virtio.Block.{Blk, max_spins, Transfer}
use xernel.Virtio.Decode.{decode, Request}
use xernel.Virtio.Publish.{IsLaidOut, IsSeen}

-- What the device knows of its one queue: its ports, the table of descriptors, the number of
-- entries, and the used ring.
pub record Queue : Type 0 where
  pub io : ℕ
  pub table : ℕ
  pub n : ℕ
  pub used : ℕ

abbrev pub queue_of : Blk → Queue
queue_of b = record { io = b.io; table = b.q_va; n = b.n; used = b.q_va + b.used_off }

module _ (bus : Bus) where
  -- After so many turns of the loop that polls.
  abbrev pub progress : ℕ → Sys bus → Sys bus
  progress zero s = s
  progress (suc k) s = progress k (pause bus s)

  abbrev pub notified : Queue → Sys bus → Sys bus
  notified q s = port_out bus (add16 q.io vio_queue_notify) 2 0 s

-- The buffer and the status of a request lie apart, and off the used ring.
pub record Clear (q : Queue) (r : Request) : Type 0 where
  pub buffer_off : (r.buffer + 512 ≤ q.used) ⊎ (q.used + 6 + 8 * q.n ≤ r.buffer)
  pub status_off : (r.status_at < q.used) ⊎ (q.used + 6 + 8 * q.n ≤ r.status_at)
  pub status_beside : (r.status_at < r.buffer) ⊎ (r.buffer + 512 ≤ r.status_at)

-- How the device answers the driver, by the virtio standard. It holds 512 bytes in each sector, and
-- counts the requests of its queue. A device that is live finds the next request when it is notified,
-- and leaves the index of the used ring alone for a while. Then it has raised the index by one and
-- is live again. A status of 0 says that it has put the sector into the buffer, or the buffer as it
-- was into the sector; no other sector changes, and none by a read. The while is shorter than the
-- driver waits.
pub record IsBlockDevice (bus : Bus) (seen : ℕ → ℕ) : Type 1 where
  pub held : bus.Dev → ℕ → List ℕ
  pub count : bus.Dev → ℕ
  pub Live : bus.Dev → Queue → Type 0
  pub delay : bus.Dev → Memory → ℕ
  pub length-held : (d : bus.Dev) (t : ℕ) → length (held d t) ≡ 512
  pub delay-bound : (d : bus.Dev) (m : Memory) → delay d m ≤ max_spins
  pub waiting :
      (d : bus.Dev) (m : Memory) (q : Queue) (r : Request) (k : ℕ)
      → Live d q
      → decode seen m q.table q.n (count d) ≡ some r
      → k < delay d m
      → read16 (progress bus k (notified bus q (d, m))).1 (q.used + 2) ≡ read16 m (q.used + 2)
  pub answered :
      (d : bus.Dev) (m : Memory) (q : Queue) (r : Request)
      → Live d q
      → decode seen m q.table q.n (count d) ≡ some r
      → Clear q r
      → (s : Sys bus) × (progress bus (delay d m) (notified bus q (d, m)) ≡ s)
        × Live s.0 q
        × (count s.0 ≡ add16 (count d) 1)
        × (read16 s.1 (q.used + 2) ≡ count s.0)
        × ((t : ℕ) → (r.kind ≡ blk_t_in) ⊎ (r.sector ≢ t) → held s.0 t ≡ held d t)
        × (r.kind ≡ blk_t_in → s.1 r.status_at ≡ 0 → fetch s.1 r.buffer 512 ≡ held d r.sector)
        × (r.kind ≡ blk_t_out → s.1 r.status_at ≡ 0 → held s.0 r.sector ≡ fetch m r.buffer 512)

module _ (bus : Bus) where
  -- A loop that polls ends as soon as the index is there, if it looks often enough.
  pub poll-answered :
      (k looks used_idx seq : ℕ) (s : Sys bus)
      → ((j : ℕ) → j < k → read16 (progress bus j s).1 used_idx ≢ seq)
      → read16 (progress bus k s).1 used_idx ≡ seq
      → k < looks
      → poll bus used_idx seq looks s ≡ (true, progress bus k s)
  unfolding poll
  poll-answered zero zero used_idx seq s early there enough = absurd (omega arith)
  poll-answered zero (suc looks) used_idx seq s early there enough =
      let here : (read16 s.1 used_idx == seq) ≡ true = eq→== (read16 s.1 used_idx) seq there in
      rw here refl
  poll-answered (suc k) zero used_idx seq s early there enough = absurd (omega arith)
  poll-answered (suc k) (suc looks) used_idx seq s early there enough =
      let differ = early 0 (omega arith) in
      let not_yet : (read16 s.1 used_idx == seq) ≡ false = ground arith in
      rw not_yet (
        poll-answered k looks used_idx seq (pause bus s) (λ j h. early (suc j) (omega arith)) there
          (omega arith))

module _ (bus : Bus) (seen : ℕ → ℕ) (law : IsBlockDevice bus seen) where
  -- The driver and the device are at the same request.
  pub record Ready (b : Blk) (s : Sys bus) : Type 0 where
    pub laid : IsLaidOut b
    pub known : IsSeen seen b
    pub seq_small : b.seq < 2 ^ 16
    pub counted : law.count s.0 ≡ b.seq
    pub used_up : read16 s.1 (b.q_va + b.used_off + 2) ≡ b.seq
    pub live : law.Live s.0 (queue_of b)

  -- What a transfer is to come to.
  pub record Served (b : Blk) (sector : ℕ) (write : Bool) (buf : List ℕ) (s : Sys bus)
      (r : Transfer bus) : Type 0 where
    pub ready : Ready r.1.0 r.1.1
    pub keeps : (t : ℕ) → (write ≡ false) ⊎ (sector ≢ t) → law.held r.1.1.0 t ≡ law.held s.0 t
    pub reads : r.0.0 ≡ true → write ≡ false → r.0.1 ≡ law.held s.0 sector
    pub writes : r.0.0 ≡ true → write ≡ true → length buf ≡ 512 → law.held r.1.1.0 sector ≡ buf

-- A device that answers every request for a sector below `size` with a status of 0.
abbrev pub IsHealthy : (bus : Bus) (seen : ℕ → ℕ) → IsBlockDevice bus seen → ℕ → Type 0
IsHealthy bus seen law size =
    (d : bus.Dev) (m : Memory) (q : Queue) (r : Request)
    → law.Live d q
    → decode seen m q.table q.n (law.count d) ≡ some r
    → Clear q r
    → r.sector < size
    → (progress bus (law.delay d m) (notified bus q (d, m))).1 r.status_at ≡ 0
