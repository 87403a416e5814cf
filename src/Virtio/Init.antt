-- ===== src/Virtio/Init.antt =====
-- What `blk_init` of Xernel/userland/init/src/main.rs sets up.
use xernel.Prelude.{
  Option, none, ◌==◌, Bool-cases, Option-cases, u64_mod, u64_max, ℕ, ◌+◌, ◌-◌, ◌*◌, ◌/◌, ◌%◌, ◌^◌,
  ◌≤◌, ◌<◌, max, ◌≡◌, refl, ap, subst, ◌≢◌, ◌⊎◌, inl, inr, some, arith, dec_lt,
}
use xernel.Virtio.{
  Bus, vio_queue_pfn, vio_queue_size, vio_queue_select, vio_status, st_ack, st_driver, st_driver_ok,
  add16, Sys, pci_read, port_in, port_out, dma_alloc,
}
use xernel.Virtio.Block.{
  Blk, used_off_of, queue_len, new_blk, handshake, negotiate, read_capacity, with_buffer,
  with_queue, with_size, blk_init,
}
use xernel.Virtio.Publish.{IsLaidOut}

-- The kernel hands out buffers inside the address space that do not overlap: `Owned` is what it has
-- handed out, and neither the device's ports nor a further buffer take anything back.
pub record IsAllocator (bus : Bus) : Type 1 where
  pub Owned : Sys bus → ℕ → Type 0
  pub inside :
      (s s' : Sys bus) (len va phys : ℕ)
      → bus.alloc_dma s.0 s.1 len ≡ (some (va, phys), s')
      → va + len ≤ u64_mod
  pub fresh :
      (s s' : Sys bus) (len va phys x : ℕ)
      → bus.alloc_dma s.0 s.1 len ≡ (some (va, phys), s')
      → va ≤ x
      → x < va + len
      → ¬ Owned s x
  pub owned :
      (s s' : Sys bus) (len va phys x : ℕ)
      → bus.alloc_dma s.0 s.1 len ≡ (some (va, phys), s')
      → va ≤ x
      → x < va + len
      → Owned s' x
  pub keeps :
      (s s' : Sys bus) (len x : ℕ) (o : Option (ℕ × ℕ))
      → bus.alloc_dma s.0 s.1 len ≡ (o, s')
      → Owned s x
      → Owned s' x
  pub port_out-keeps :
      (s : Sys bus) (port size value x : ℕ) → Owned s x → Owned (port_out bus port size value s) x

-- The used ring is behind the available ring, and the queue's buffer holds both.
pub used_off_of-ge : (n : ℕ) → n < 2 ^ 32 → 16 * n + 6 + 2 * n ≤ used_off_of n
used_off_of-ge n h = omega arith

pub queue_len-plain : (n : ℕ) → n < 2 ^ 32 → queue_len n ≡ used_off_of n + 6 + 8 * n
queue_len-plain n h = omega arith

-- Two areas of which one is all inside a set and the other all outside lie apart.
areas_apart :
    (P : ℕ → Type 0) (a n c k : ℕ)
    → 0 < n
    → 0 < k
    → ((x : ℕ) → a ≤ x → x < a + n → P x)
    → ((x : ℕ) → c ≤ x → x < c + k → ¬ P x)
    → (a + n ≤ c) ⊎ (c + k ≤ a)
areas_apart P a n c k some_a some_c all none_there = elim (dec_lt c (a + n)) [
  | no far ↦ inl (omega arith)
  | yes near ↦ elim (dec_lt a (c + k)) [
    | no far ↦ inr (omega arith)
    | yes both ↦ absurd (
        none_there (max a c) (omega arith) (omega arith)
          (all (max a c) (omega arith) (omega arith)))
  ]
]

new_blk-IsLaidOut :
    (io n q_va b_va b_phys : ℕ)
    → 3 ≤ n
    → n < 2 ^ 32
    → q_va + queue_len n ≤ u64_mod
    → b_va + 4096 ≤ u64_mod
    → (q_va + queue_len n ≤ b_va) ⊎ (b_va + 4096 ≤ q_va)
    → IsLaidOut (new_blk io n q_va b_va b_phys)
new_blk-IsLaidOut io n q_va b_va b_phys room small queue page apart =
    let behind = used_off_of-ge n small in
    let len = queue_len-plain n small in
    record {
      room = room;
      avail_at = omega (arith, len);
      used_behind = behind;
      data_at = omega arith;
      status_at = omega arith;
      queue_end = omega (arith, len);
      page_end = page;
      apart = elim apart [ inl h ↦ inl (omega (arith, len)) | inr h ↦ inr h ];
    }

module _ (bus : Bus) (alloc : IsAllocator bus) where
  -- A buffer that was handed out.
  abbrev Fresh : ℕ → Sys bus → (ℕ × ℕ) × Sys bus → Type 0
  Fresh len s ((va, phys), s') =
      (va + len ≤ u64_mod)
      × ((x : ℕ) → va ≤ x → x < va + len → ¬ alloc.Owned s x)
      × ((x : ℕ) → va ≤ x → x < va + len → alloc.Owned s' x)

  dma_alloc-Fresh :
      (len : ℕ) (s : Sys bus)
      → (dma_alloc bus len s).0.0 ≢ u64_max
      → Fresh len s (dma_alloc bus len s)
  dma_alloc-Fresh len (d, m) some_va = elim (Option-cases (bus.alloc_dma d m len).0) [
    | inl e ↦ absurd (some_va (rw e refl))
    | inr ((va, phys), e) ↦
        let s' = (bus.alloc_dma d m len).1 in
        let given : bus.alloc_dma d m len ≡ (some (va, phys), s') = ap (λ o. (o, s')) e in
        rw e (
          alloc.inside (d, m) s' len va phys given,
          λ x low high. alloc.fresh (d, m) s' len va phys x given low high,
          λ x low high. alloc.owned (d, m) s' len va phys x given low high,
        )
  ]

  -- The queue and the page of the buffers lie in what the kernel has handed out.
  abbrev pub Within : Blk → Sys bus → Type 0
  Within b s =
      ((x : ℕ) → b.q_va ≤ x → x < b.q_va + b.used_off + 6 + 8 * b.n → alloc.Owned s x)
      × ((x : ℕ) → b.hdr_va ≤ x → x < b.hdr_va + 4096 → alloc.Owned s x)

  abbrev Placed : Blk → Sys bus → Type 0
  Placed b s = IsLaidOut b × (b.seq ≡ 0) × Within b s

  dma_alloc-keeps :
      (len x : ℕ) (s : Sys bus) → alloc.Owned s x → alloc.Owned (dma_alloc bus len s).1 x
  dma_alloc-keeps len x (d, m) o = elim (Option-cases (bus.alloc_dma d m len).0) [
    | inl e ↦ rw e (
        alloc.keeps (d, m) (bus.alloc_dma d m len).1 len x none
          (ap (λ a. (a, (bus.alloc_dma d m len).1)) e) o)
    | inr (area, e) ↦ rw e (
        alloc.keeps (d, m) (bus.alloc_dma d m len).1 len x (some area)
          (ap (λ a. (a, (bus.alloc_dma d m len).1)) e) o)
  ]

  with_buffer-success :
      (io n q_va : ℕ) (r : (ℕ × ℕ) × Sys bus) (b : Blk)
      → (with_buffer bus io n q_va r).0 ≡ some b
      → (r.0.0 ≢ u64_max)
        × (new_blk io n q_va r.0.0 r.0.1 ≡ b)
        × ((with_buffer bus io n q_va r).1 ≡ r.1)
  with_buffer-success io n q_va ((b_va, b_phys), s) b e = elim (Bool-cases (b_va == u64_max)) [
    | inl refused ↦ absurd (cc (rw refused at e))
    | inr given ↦ (λ same. absurd (ground arith), cc (rw given at e), rw given refl)
  ]

  with_queue-IsLaidOut :
      (io n : ℕ) (s : Sys bus) (b : Blk)
      → 3 ≤ n
      → n < 2 ^ 32
      → (with_queue bus io n (dma_alloc bus (queue_len n) s)).0 ≡ some b
      → Placed b (with_queue bus io n (dma_alloc bus (queue_len n) s)).1
  with_queue-IsLaidOut io n s b room small e =
      let q_va = (dma_alloc bus (queue_len n) s).0.0 in
      let s1 =
        port_out bus (add16 io vio_queue_pfn) 4
          ((dma_alloc bus (queue_len n) s).0.1 / 4096 % 2 ^ 32) (dma_alloc bus (queue_len n) s).1 in
      let s2 = port_out bus (add16 io vio_status) 1 (st_ack + st_driver + st_driver_ok) s1 in
      elim (Bool-cases (q_va == u64_max)) [
        | inl refused ↦ absurd (cc (rw refused at e))
        | inr given ↦
            let (inside, apart, owned) =
              dma_alloc-Fresh (queue_len n) s (λ same. absurd (ground arith)) in
            let (page_given, same, end) =
              with_buffer-success io n q_va (dma_alloc bus 4096 s2) b (rw given at e) in
            let (page_inside, page_apart, page_owned) = dma_alloc-Fresh 4096 s2 page_given in
            let kept : (x : ℕ) → q_va ≤ x → x < q_va + queue_len n → alloc.Owned s2 x =
              λ x low high. alloc.port_out-keeps s1 _ _ _ x (
                alloc.port_out-keeps (dma_alloc bus (queue_len n) s).1 _ _ _ x
                  (owned x low high)) in
            let beside =
              areas_apart (alloc.Owned s2) q_va (queue_len n) (dma_alloc bus 4096 s2).0.0 4096
                (omega (arith, queue_len-plain n small)) (omega arith) kept page_apart in
            rw (given, end)
              (subst (λ b. Placed b (dma_alloc bus 4096 s2).1) same
                (
                  new_blk-IsLaidOut io n q_va (dma_alloc bus 4096 s2).0.0
                      (dma_alloc bus 4096 s2).0.1 room small inside page_inside beside,
                  refl,
                  (
                    λ x low high.
                        dma_alloc-keeps 4096 x s2
                          (kept x low (omega (arith, queue_len-plain n small))),
                    page_owned,
                  ),
                ))
      ]

  with_queue-n :
      (io n : ℕ) (r : (ℕ × ℕ) × Sys bus) (b : Blk) → (with_queue bus io n r).0 ≡ some b → b.n ≡ n
  with_queue-n io n ((q_va, q_phys), s) b e = elim (Bool-cases (q_va == u64_max)) [
    | inl refused ↦ absurd (cc (rw refused at e))
    | inr given ↦
        let (page_given, same, end) = with_buffer-success io n q_va _ b (rw given at e) in
        subst (λ b. b.n ≡ n) same refl
  ]

  with_size-IsLaidOut :
      (io : ℕ) (r : ℕ × Sys bus) (b : Blk)
      → r.0 < 2 ^ 32
      → 3 ≤ b.n
      → (with_size bus io r).0 ≡ some b
      → Placed b (with_size bus io r).1
  with_size-IsLaidOut io (n, s) b small room e = elim (Bool-cases (n == 0)) [
    | inl missing ↦ absurd (cc (rw missing at e))
    | inr there ↦
        let e1 = rw there at e in
        let same = with_queue-n io n (dma_alloc bus (queue_len n) s) b e1 in
        rw there (with_queue-IsLaidOut io n s b (omega arith) small e1)
  ]

  -- A driver that `blk_init` has set up has its queue and its buffers in their places: the table of
  -- descriptors, the available ring and the used ring do not overlap, the header, the data and the
  -- status lie in the page of buffers, the two do not overlap and end inside the address space, no
  -- request has been made, and every byte of the queue and of the page is one that the kernel has
  -- handed out. It is assumed of the kernel that it hands out buffers that lie inside the address
  -- space and do not overlap, and of the device that its queue has three entries or more.
  pub blk_init-IsLaidOut :
      (dev : ℕ) (s : Sys bus) (b : Blk)
      → (blk_init bus dev s).0 ≡ some b
      → 3 ≤ b.n
      → IsLaidOut b × (b.seq ≡ 0) × Within b (blk_init bus dev s).1
  unfolding blk_init
  blk_init-IsLaidOut dev s b e room =
      let bar0 = pci_read bus 0 dev 0 0x10 s in
      let io = bar0 % 2 ^ 16 - bar0 % 4 in
      let s1 = negotiate bus io (read_capacity bus io (handshake bus io s)) in
      let s2 = port_out bus (add16 io vio_queue_select) 2 0 s1 in
      elim (Bool-cases (bar0 % 2 == 1)) [
        | inr no_ports ↦ absurd (cc (rw no_ports at e))
        | inl ports ↦ rw ports (
            with_size-IsLaidOut io (port_in bus (add16 io vio_queue_size) 2 s2) b (omega arith) room
              (rw ports at e))
      ]
