-- ===== src/Syscall/Memory/Dma.antt =====
-- `sys_dma_alloc` of Xernel/kernel/src/syscall.rs. `map_to` stands for `map_user` of
-- arch/x86_64/paging.rs.
use xernel.Prelude.{
  le_bytes, ltb, ◌==◌, if◌then◌else◌, Bool-cases, u64_max, add64, checked_add,
  get_elem?-modify_self, ℕ, zero, suc, ◌+◌, ◌*◌, ◌^◌, ◌<◌, ◌≡◌, refl, ap, ◌∙◌, inl, inr, Bool, true,
  false, ◌||◌, Option, none, some, List, ◌++◌, arith,
}
use xernel.Syscall.Memory.{
  MapPage, dma_region_end, caps_of, set_caps, current_charge_untyped, current_refund_untyped,
  zeroed, pages_for, fits_window, map_page, map_pages, words_fit, put_words,
}
use xernel.Process.Control.{with_caps}
use xernel.Cap.Node.{CNode, charge_untyped, refund_untyped}
use xernel.Cap.Node.Budget.{total_budget, charge_untyped-total, refund-charge-total}
use xernel.Process.{Process, Core}
use xernel.Frame.{PhysFrameAllocator, alloc_contiguous}
use xernel.Syscall.{Kernel}
use xernel.Syscall.Ipc.{with_core, running}

module _ (map_to : MapPage) where
  abbrev dma_mapped : ℕ → ℕ → ℕ → ℕ → Bool × Kernel → Bool × Kernel
  dma_mapped va_base phys pages out_ptr (false, k) = (false, k)
  dma_mapped va_base phys pages out_ptr (true, k) =
      put_words (record k { next_dma_va = va_base + pages * 4096 }) out_ptr
        (le_bytes 8 va_base ++ le_bytes 8 phys)

  abbrev dma_window : Kernel → ℕ → ℕ → ℕ → Bool × Kernel
  dma_window k phys pages out_ptr =
      let room = fits_window (checked_add k.next_dma_va (pages * 4096)) dma_region_end in
      if room
      then dma_mapped k.next_dma_va phys pages out_ptr (map_pages map_to k k.next_dma_va phys pages)
      else (false, k)

  abbrev dma_allocated : Kernel → ℕ → ℕ → Option ℕ × PhysFrameAllocator → Bool × Kernel
  dma_allocated k pages out_ptr (none, frames) = (false, record k { frames = frames })
  dma_allocated k pages out_ptr (some phys, frames) =
      dma_window (record k { frames = frames; memory = zeroed k.memory phys (pages * 4096) }) phys
        pages out_ptr

  unfoldable pub dma_alloc_charged : Kernel → ℕ → ℕ → Bool × Kernel
  unfolding map_pages
  dma_alloc_charged k pages out_ptr =
      dma_allocated k pages out_ptr (alloc_contiguous k.frames pages)

  abbrev dma_answer : ℕ → Bool × Kernel → ℕ × Kernel
  dma_answer need (true, k) = (0, k)
  dma_answer need (false, k) = (u64_max, with_core k (current_refund_untyped k.core need))

  abbrev dma_charged : Kernel → ℕ → ℕ → Bool × Core → ℕ × Kernel
  dma_charged k pages out_ptr (true, c) =
      dma_answer (pages * 4096) (dma_alloc_charged (with_core k c) pages out_ptr)
  dma_charged k pages out_ptr (false, c) = (u64_max, k)

  unfoldable pub sys_dma_alloc : Kernel → ℕ → ℕ → ℕ × Kernel
  unfolding dma_alloc_charged current_charge_untyped current_refund_untyped
  sys_dma_alloc k len out_ptr =
      if len == 0 || ltb (2 ^ 20) len
      then (u64_max, k)
      else let pages = pages_for len in
        dma_charged k pages out_ptr (current_charge_untyped k.core (pages * 4096))

-- What the caller has left of its memory budget.
abbrev pub budget : Kernel → ℕ
budget k = total_budget (caps_of (running k.core)).slots

map_pages-core :
    (map_to : MapPage) (k : Kernel) (va phys pages : ℕ)
    → (map_pages map_to k va phys pages).1.core ≡ k.core
unfolding map_pages
map_pages-core map_to k va phys zero = refl
map_pages-core map_to k va phys (suc pages) = elim (Bool-cases (map_page map_to k va phys).0) [
  | inl fine ↦
      rw fine (
        map_pages-core map_to (map_page map_to k va phys).1 (add64 va 4096) (add64 phys 4096) pages)
  | inr full ↦ rw full refl
]

put_words-core :
    (k : Kernel) (out_ptr : ℕ) (bytes : List ℕ) → (put_words k out_ptr bytes).1.core ≡ k.core
put_words-core k out_ptr bytes = elim (Bool-cases (words_fit k out_ptr bytes)) [
  | inl e ↦ rw e refl
  | inr e ↦ rw e refl
]

dma_alloc_charged-core :
    (map_to : MapPage) (k : Kernel) (pages out_ptr : ℕ)
    → (dma_alloc_charged map_to k pages out_ptr).1.core ≡ k.core
unfolding dma_alloc_charged
dma_alloc_charged-core map_to k pages out_ptr = by_frames (alloc_contiguous k.frames pages)
  where
    by_map :
        (l : Kernel) (va phys : ℕ) (r : Bool × Kernel)
        → r.1.core ≡ l.core
        → (dma_mapped map_to va phys pages out_ptr r).1.core ≡ l.core
    by_map l va phys (false, m) same = same
    by_map l va phys (true, m) same =
        put_words-core (record m { next_dma_va = va + pages * 4096 }) out_ptr
          (le_bytes 8 va ++ le_bytes 8 phys)
        ∙ same

    by_window : (l : Kernel) (phys : ℕ) → (dma_window map_to l phys pages out_ptr).1.core ≡ l.core
    by_window l phys =
        elim (Bool-cases (fits_window (checked_add l.next_dma_va (pages * 4096)) dma_region_end)) [
          | inl fits ↦ rw fits (
              by_map l l.next_dma_va phys (map_pages map_to l l.next_dma_va phys pages)
                (map_pages-core map_to l l.next_dma_va phys pages))
          | inr full ↦ rw full refl
        ]

    by_frames :
        (r : Option ℕ × PhysFrameAllocator)
        → (dma_allocated map_to k pages out_ptr r).1.core ≡ k.core
    by_frames (none, frames) = refl
    by_frames (some phys, frames) =
        by_window (record k { frames = frames; memory = zeroed k.memory phys (pages * 4096) }) phys

caps_of-set_caps :
    (c : Core) (p : Process) (t : CNode) → running c ≡ some p → caps_of (running (set_caps c t)) ≡ t
caps_of-set_caps c p t e =
    ap caps_of (get_elem?-modify_self c.sched.procs c.sched.current (with_caps t) e)

refund_lem :
    (k l : Kernel) (p : Process) (need : ℕ)
    → running k.core ≡ some p
    → budget k < 2 ^ 64
    → (charge_untyped (caps_of (running k.core)) need).0 ≡ true
    → l.core ≡ set_caps k.core (charge_untyped (caps_of (running k.core)) need).1
    → budget (with_core l (current_refund_untyped l.core need)) ≡ budget k
unfolding current_refund_untyped
refund_lem k l p need e small paid same =
    let held = caps_of (running k.core) in
    let u = (charge_untyped held need).1 in
    let there : running l.core ≡ some (with_caps u p) =
      ap running same
      ∙ get_elem?-modify_self k.core.sched.procs k.core.sched.current (with_caps u) e in
    let caps : caps_of (running l.core) ≡ u = ap caps_of there in
    ap (λ t. total_budget t.slots)
      (caps_of-set_caps l.core (with_caps u p) (refund_untyped (caps_of (running l.core)) need)
        there)
    ∙ ap (λ t. total_budget (refund_untyped t need).slots) caps
    ∙ refund-charge-total held need small paid

-- `sys_dma_alloc` takes exactly the bytes of the pages that the buffer needs from the budget of
-- the caller when it succeeds, and nothing when it fails, if the budget is within 64 bits.
pub sys_dma_alloc-budget :
    (map_to : MapPage) (k : Kernel) (p : Process) (len out_ptr : ℕ)
    → running k.core ≡ some p
    → budget k < 2 ^ 64
    → let (status, l) = sys_dma_alloc map_to k len out_ptr in
      budget l + (if status == 0 then pages_for len * 4096 else 0) ≡ budget k
unfolding sys_dma_alloc current_charge_untyped
sys_dma_alloc-budget map_to k p len out_ptr e small =
    elim (Bool-cases (len == 0 || ltb (2 ^ 20) len)) [
      | inl refused ↦ rw refused (omega arith)
      | inr sized ↦ rw sized (by_charge (charge_untyped held need).0 refl)
    ]
  where
    need : ℕ
    need = pages_for len * 4096

    held : CNode
    held = caps_of (running k.core)

    by_answer :
        (r : Bool × Kernel)
        → (charge_untyped held need).0 ≡ true
        → r.1.core ≡ set_caps k.core (charge_untyped held need).1
        → budget (dma_answer map_to need r).1
            + (if (dma_answer map_to need r).0 == 0 then need else 0)
          ≡ budget k
    by_answer (true, l) paid same =
        let u = (charge_untyped held need).1 in
        let caps : caps_of (running l.core) ≡ u =
          ap (λ c. caps_of (running c)) same ∙ caps_of-set_caps k.core p u e in
        let total : total_budget u.slots + need ≡ total_budget held.slots =
          rw paid at (charge_untyped-total held need) in
        ap (λ t. total_budget t.slots + need) caps ∙ total
    by_answer (false, l) paid same =
        let back = refund_lem k l p need e small paid same in omega (arith, back)

    by_charge :
        (paid : Bool)
        → (charge_untyped held need).0 ≡ paid
        → let r : Bool × Core = (paid, set_caps k.core (charge_untyped held need).1) in
          budget (dma_charged map_to k (pages_for len) out_ptr r).1
            + (if (dma_charged map_to k (pages_for len) out_ptr r).0 == 0 then need else 0)
          ≡ budget k
    by_charge true paid =
        let l = with_core k (set_caps k.core (charge_untyped held need).1) in
        by_answer (dma_alloc_charged map_to l (pages_for len) out_ptr) paid
          (dma_alloc_charged-core map_to l (pages_for len) out_ptr)
    by_charge false unpaid = omega arith
