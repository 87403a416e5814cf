-- ===== src/Virtio/MemoryDisk.antt =====
-- A virtio block device in memory that answers at once, with the driver of
-- Xernel/userland/init/src/main.rs that has made no request yet.
use xernel.Prelude.{
  take-append, ◌==◌, if◌then◌else◌, ==_refl, Bool-cases, length, take, replicate, length-append,
  length-replicate, length-take, le_bytes, from_le_bytes, length-le_bytes, ℕ, ◌+◌, ◌<◌, ◌≡◌, refl,
  sym, ap, subst, ◌∙◌, ◌≢◌, ◌⊎◌, inl, inr, false, Option, none, some, List, [], ◌∷◌, ◌++◌, arith,
}
use xernel.Virtio.{Memory, Bus, blk_t_in, blk_t_out, add16, store, fetch, wr_u8, write16, read16}
use xernel.Virtio.Block.{Blk, new_blk}
use xernel.Virtio.Memory.{length-fetch, store_in, fetch-store_self, fetch-store_apart}
use xernel.Virtio.Queue.{from_le_bytes-store, store_le-out}
use xernel.Virtio.Decode.{Request, decode}
use xernel.Virtio.Publish.{IsLaidOut, IsSeen}
use xernel.Virtio.Device.{Queue, notified, Clear, IsBlockDevice, IsHealthy, Ready}

-- What a sector holds: the first 512 bytes of what was put there.
abbrev pub padded : List ℕ → List ℕ
padded bytes = take 512 (bytes ++ replicate 512 0)

pub length-padded : (bytes : List ℕ) → length (padded bytes) ≡ 512
length-padded bytes = omega (
  arith,
  length-take 512 (bytes ++ replicate 512 0),
  length-append bytes (replicate 512 0),
  length-replicate {A = ℕ} 512 0,
)

abbrev pub the_queue : Queue
the_queue = record { io = 0xc000; table = 0x1000; n = 8; used = 0x2000 }

-- The sectors, and the requests so far.
abbrev pub Cells : Type 0
Cells = (ℕ → List ℕ) × ℕ

abbrev pub answer : Request → ℕ → Memory → Memory
answer r c m = write16 (wr_u8 m r.status_at 0) 0x2002 (add16 c 1)

abbrev pub serve : Option Request → Cells → Memory → Cells × Memory
serve none d m = (d, m)
serve (some r) (cells, c) m =
    if r.kind == 0
    then ((cells, add16 c 1), answer r c (store m r.buffer (padded (cells r.sector))))
    else ((λ t. if t == r.sector then fetch m r.buffer 512 else cells t, add16 c 1), answer r c m)

abbrev pub in_memory : Bus
in_memory = record {
  Dev = Cells;
  config_read = λ d slot dev func offset. 0xc001;
  read_port = λ d port size. (8, d);
  write_port = λ d m port size value. serve (decode (λ a. a) m 0x1000 8 d.1) d m;
  alloc_dma = λ d m len. (none, (d, m));
  pause = λ d m. (d, m);
}

abbrev pub After : Request → Cells → Memory → Cells × Memory → Type 0
After r d m s =
    (s.0.1 ≡ add16 d.1 1)
    × (read16 s.1 0x2002 ≡ s.0.1)
    × ((t : ℕ) → (r.kind ≡ blk_t_in) ⊎ (r.sector ≢ t) → padded (s.0.0 t) ≡ padded (d.0 t))
    × (r.kind ≡ blk_t_in → s.1 r.status_at ≡ 0 → fetch s.1 r.buffer 512 ≡ padded (d.0 r.sector))
    × (r.kind ≡ blk_t_out → s.1 r.status_at ≡ 0 → padded (s.0.0 r.sector) ≡ fetch m r.buffer 512)

pub padded-fetch : (m : Memory) (a : ℕ) → padded (fetch m a 512) ≡ fetch m a 512
padded-fetch m a = take-append (fetch m a 512) (replicate 512 0) 512 (length-fetch m a 512)

pub answer-used : (r : Request) (c : ℕ) (m : Memory) → read16 (answer r c m) 0x2002 ≡ add16 c 1
answer-used r c m = from_le_bytes-store (wr_u8 m r.status_at 0) 0x2002 2 (add16 c 1) (omega arith)

pub answer-buffer :
    (r : Request) (c : ℕ) (m : Memory)
    → Clear the_queue r
    → fetch (answer r c m) r.buffer 512 ≡ fetch m r.buffer 512
answer-buffer r c m clear =
    fetch-store_apart (wr_u8 m r.status_at 0) 0x2002 (le_bytes 2 (add16 c 1)) r.buffer 512
      (elim clear.buffer_off [
        | inl h ↦ inl (omega arith)
        | inr h ↦ inr (omega (arith, length-le_bytes 2 (add16 c 1)))
      ])
    ∙ fetch-store_apart m r.status_at (0 ∷ []) r.buffer 512
        (elim clear.status_beside [ inl h ↦ inr (omega arith) | inr h ↦ inl (omega arith) ])

pub answer-status :
    (r : Request) (c : ℕ) (m : Memory) → Clear the_queue r → answer r c m r.status_at ≡ 0
answer-status r c m clear =
    let here : r.status_at + 0 ≡ r.status_at = omega arith in
    let put : wr_u8 m r.status_at 0 r.status_at ≡ 0 =
      rw here at (store_in m r.status_at (0 ∷ []) 0 (omega arith)) in
    store_le-out (wr_u8 m r.status_at 0) 0x2002 2 (add16 c 1) r.status_at
      (elim clear.status_off [ inl h ↦ inl (omega arith) | inr h ↦ inr (omega arith) ])
    ∙ put

pub serve-After :
    (r : Request) (d : Cells) (m : Memory) → Clear the_queue r → After r d m (serve (some r) d m)
serve-After r (cells, c) m clear = elim (Bool-cases (r.kind == 0)) [
  | inl reading ↦
      let put : fetch (store m r.buffer (padded (cells r.sector))) r.buffer 512
          ≡ padded (cells r.sector) =
        subst
          (λ k.
            fetch (store m r.buffer (padded (cells r.sector))) r.buffer k ≡ padded (cells r.sector))
          (length-padded (cells r.sector))
          (fetch-store_self m r.buffer (padded (cells r.sector))) in
      rw reading (
        refl,
        answer-used r c (store m r.buffer (padded (cells r.sector))),
        λ t other. refl,
        λ kind status. answer-buffer r c (store m r.buffer (padded (cells r.sector))) clear ∙ put,
        λ kind status. absurd (ground arith),
      )
  | inr writing ↦ rw writing (
    refl,
    answer-used r c m,
    λ t other.
        let differ : (t == r.sector) ≡ false = elim other [
          | inl kind ↦ absurd (ground arith)
          | inr apart ↦ ground arith
        ] in
        rw differ refl,
    λ kind status. absurd (ground arith),
    λ kind status. rw (==_refl r.sector) (padded-fetch m r.buffer),
  )
]

-- The device's answer in the queue that it has been given.
abbrev pub Answered : Cells → Memory → Request → Queue → Type 0
Answered d m r q =
    decode (λ a. a) m q.table q.n d.1 ≡ some r
    → Clear q r
    → (s : Cells × Memory) × (notified in_memory q (d, m) ≡ s)
      × (the_queue ≡ q)
      × (s.0.1 ≡ add16 d.1 1)
      × (read16 s.1 (q.used + 2) ≡ s.0.1)
      × ((t : ℕ) → (r.kind ≡ blk_t_in) ⊎ (r.sector ≢ t) → padded (s.0.0 t) ≡ padded (d.0 t))
      × (r.kind ≡ blk_t_in → s.1 r.status_at ≡ 0 → fetch s.1 r.buffer 512 ≡ padded (d.0 r.sector))
      × (r.kind ≡ blk_t_out → s.1 r.status_at ≡ 0 → padded (s.0.0 r.sector) ≡ fetch m r.buffer 512)

pub the_queue-Answered : (d : Cells) (m : Memory) (r : Request) → Answered d m r the_queue
the_queue-Answered d m r found clear =
    let (counted, used, keeps, reads, writes) = serve-After r d m clear in
    let served : notified in_memory the_queue (d, m) ≡ serve (some r) d m =
      ap (λ o. serve o d m) found in
    (serve (some r) d m, served, refl, counted, used, keeps, reads, writes)

pub queue-Answered :
    (d : Cells) (m : Memory) (q : Queue) (r : Request) → the_queue ≡ q → Answered d m r q
queue-Answered d m q r live = subst (Answered d m r) live (the_queue-Answered d m r)

pub status-serve :
    (r : Request) (d : Cells) (m : Memory)
    → Clear the_queue r
    → (serve (some r) d m).1 r.status_at ≡ 0
status-serve r (cells, c) m clear = elim (Bool-cases (r.kind == 0)) [
  | inl reading ↦ rw reading (answer-status r c (store m r.buffer (padded (cells r.sector))) clear)
  | inr writing ↦ rw writing (answer-status r c m clear)
]

abbrev pub in_memory-IsBlockDevice : IsBlockDevice in_memory (λ a. a)
in_memory-IsBlockDevice = record {
  held = λ d t. padded (d.0 t);
  count = λ d. d.1;
  Live = λ d q. the_queue ≡ q;
  delay = λ d m. 0;
  length-held = λ d t. length-padded (d.0 t);
  delay-bound = λ d m. omega arith;
  waiting = λ d m q r k live found early. absurd (omega arith);
  answered = λ d m q r live. queue-Answered d m q r live;
}

pub in_memory-IsHealthy : IsHealthy in_memory (λ a. a) in_memory-IsBlockDevice 2048
in_memory-IsHealthy d m q r live =
    subst
      (λ q.
        decode (λ a. a) m q.table q.n d.1 ≡ some r
        → Clear q r
        → r.sector < 2048
        → (notified in_memory q (d, m)).1 r.status_at ≡ 0)
      live
      (λ found clear below.
        let served : notified in_memory the_queue (d, m) ≡ serve (some r) d m =
          ap (λ o. serve o d m) found in
        subst (λ s. s.1 r.status_at ≡ 0) (sym served) (status-serve r d m clear))

abbrev pub the_blk : Blk
the_blk = new_blk 0xc000 8 0x1000 0x4000 0x4000

abbrev pub blank : Memory
blank = λ x. 0

pub the_blk-IsLaidOut : IsLaidOut the_blk
the_blk-IsLaidOut = record {
  room = omega arith;
  avail_at = omega arith;
  used_behind = omega arith;
  data_at = omega arith;
  status_at = omega arith;
  queue_end = omega arith;
  page_end = omega arith;
  apart = inl (omega arith);
}

pub the_blk-IsSeen : IsSeen (λ a. a) the_blk
the_blk-IsSeen = record {
  hdr_seen = refl;
  data_seen = refl;
  status_seen = refl;
  hdr_small = omega arith;
  data_small = omega arith;
  status_small = omega arith;
}

pub blank_used : read16 blank 0x2002 ≡ 0
unfolding fetch from_le_bytes
blank_used = refl

-- The device that holds the file system, before the first request.
abbrev pub before : (ℕ → List ℕ) → Cells × Memory
before cells = ((cells, 0), blank)

abbrev pub ready :
    (cells : ℕ → List ℕ) → Ready in_memory (λ a. a) in_memory-IsBlockDevice the_blk (before cells)
ready cells = record {
  laid = the_blk-IsLaidOut;
  known = the_blk-IsSeen;
  seq_small = omega arith;
  counted = refl;
  used_up = blank_used;
  live = refl;
}
