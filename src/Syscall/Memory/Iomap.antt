-- ===== src/Syscall/Memory/Iomap.antt =====
-- `sys_iomap` of Xernel/kernel/src/syscall.rs. `map_device` stands for `map_user_device_idempotent`
-- of arch/x86_64/paging.rs, whose mapping the x86_64 crate makes.
use xernel.Prelude.{
  ltb, ◌==◌, if◌then◌else◌, Bool-cases, u64_max, add64, checked_add, ℕ, zero, suc, ◌+◌, ◌-◌, ◌*◌,
  ◌^◌, ◌≤◌, ◌<◌, ◌≡◌, refl, sym, subst, ◌⊎◌, inl, inr, Bool, true, false, ◌||◌, arith,
}
use xernel.Cap.{io_mem, ok, CapEntry}
use xernel.Syscall.Memory.{
  user_mapping, map_page, MapPage, mmio_region_end, caps_of, current_authorizes_mmio, pages_for,
  fits_window, map_pages,
}
use xernel.Cap.Node.{get}
use xernel.Cap.Node.Authority.{authorizes_mmio-held}
use xernel.Syscall.{Kernel, PageTables, page_of}
use xernel.Syscall.Ipc.{running, space_of}
use xernel.Frame.{PhysFrameAllocator}

module _ (map_device : MapPage) where
  abbrev iomapped : ℕ → ℕ → ℕ → Bool × Kernel → ℕ × Kernel
  iomapped va_base pages offset (true, k) =
      (va_base + offset, record k { next_mmio_va = va_base + pages * 4096 })
  iomapped va_base pages offset (false, k) = (u64_max, k)

  -- What follows the authority check of `sys_iomap`.
  abbrev iomap_window : Kernel → ℕ → ℕ → ℕ → ℕ × Kernel
  iomap_window k phys_base offset pages =
      let room = fits_window (checked_add k.next_mmio_va (pages * 4096)) mmio_region_end in
      if room
      then iomapped k.next_mmio_va pages offset
          (map_pages map_device k k.next_mmio_va phys_base pages)
      else (u64_max, k)

  unfoldable pub sys_iomap : Kernel → ℕ → ℕ → ℕ × Kernel
  unfolding map_pages current_authorizes_mmio
  sys_iomap k phys len =
      if len == 0 || ltb (2 ^ 24) len
      then (u64_max, k)
      else let phys_base = page_of phys in
        let offset = phys - phys_base in
        let pages = pages_for (offset + len) in
        if current_authorizes_mmio k.core phys_base (pages * 4096)
        then iomap_window k phys_base offset pages
        else (u64_max, k)

-- A slot of the caller holds an `IoMem` capability that covers the whole page of 4096 bytes at `phys`,
-- inside the 64-bit address space.
abbrev pub HoldsPage : Kernel → ℕ → Type 0
HoldsPage k phys =
    (i : ℕ) × (c : CapEntry) × (get (caps_of (running k.core)) i ≡ ok c)
    × (c.cap_type ≡ io_mem)
    × (c.object ≤ phys)
    × (phys + 4096 ≤ c.object + c.badge)
    × (c.object + c.badge < 2 ^ 64)

-- Two ways to map a page that agree on mapping, into the space of the caller and with the rights of a
-- user mapping, every page that the caller holds a capability for.
abbrev pub AgreeOnHeld : Kernel → MapPage → MapPage → Type 0
AgreeOnHeld k map_device map_other =
    (tables : PageTables) (frames : PhysFrameAllocator) (va phys : ℕ)
    → HoldsPage k phys
    → map_device tables frames (space_of (running k.core)) va (user_mapping phys)
      ≡ map_other tables frames (space_of (running k.core)) va (user_mapping phys)

module _ (map_device map_other : MapPage) (k0 : Kernel)
    (agree : AgreeOnHeld k0 map_device map_other) where
  map_pages-confined :
      (pages : ℕ) (k : Kernel) (va phys last : ℕ)
      → k.core ≡ k0.core
      → phys + pages * 4096 ≤ last
      → last < 2 ^ 64
      → ((page : ℕ) → phys ≤ page → page + 4096 ≤ last → HoldsPage k0 page)
      → map_pages map_device k va phys pages ≡ map_pages map_other k va phys pages
  unfolding map_pages
  map_pages-confined zero k va phys last core fits low held = refl
  map_pages-confined (suc pages) k va phys last core fits low held =
      let same =
        subst
          (λ x.
            map_device k.tables k.frames (space_of (running x)) va (user_mapping phys)
            ≡ map_other k.tables k.frames (space_of (running x)) va (user_mapping phys))
          (sym core) (agree k.tables k.frames va phys (held phys (omega arith) (omega arith))) in
      let next : add64 phys 4096 ≡ phys + 4096 = omega arith in
      let k' = (map_page map_other k va phys).1 in
      let rest =
        map_pages-confined pages k' (add64 va 4096) (phys + 4096) last core (omega arith) low
          (λ page from to. held page (omega arith) to) in
      rw same (rw next (rw rest refl))

  -- `sys_iomap` maps no page but those that the caller holds an `IoMem` capability for, each in full and
  -- inside the 64-bit addresses: two ways to map a page that agree on mapping those into the space
  -- of the caller lead to the same answer and the same state of the kernel, whatever range is
  -- asked for. And unless it refuses and changes nothing, the caller holds every page that the
  -- range touches.
  pub sys_iomap-confined :
      (phys len : ℕ)
      → (sys_iomap map_device k0 phys len ≡ sys_iomap map_other k0 phys len)
        × ((sys_iomap map_device k0 phys len ≡ (u64_max, k0))
            ⊎ ((a : ℕ) → phys ≤ a → a < phys + len → HoldsPage k0 (page_of a)))
  unfolding sys_iomap current_authorizes_mmio
  sys_iomap-confined phys len = elim (Bool-cases (len == 0 || ltb (2 ^ 24) len)) [
    | inl refused ↦ (rw refused refl, inl (rw refused refl))
    | inr sized ↦ elim (Bool-cases (current_authorizes_mmio k0.core (page_of phys) span)) [
      | inr denied ↦ (rw (sized, denied) refl, inl (rw (sized, denied) refl))
      | inl granted ↦
          let (i, c, e, ty, lo, hi, fits) =
            (authorizes_mmio-held (caps_of (running k0.core)) (page_of phys) span).0 granted in
          let same =
            map_pages-confined (pages_for (phys - page_of phys + len)) k0 k0.next_mmio_va
              (page_of phys) (page_of phys + span) refl (omega arith) (omega arith)
              (λ page from to. (i, c, e, ty, omega arith, omega arith, fits)) in
          (
            rw (sized, granted) (rw same refl),
            inr (λ a from to. (i, c, e, ty, omega arith, omega arith, fits)),
          )
    ]
  ]
    where
      span : ℕ
      span = pages_for (phys - page_of phys + len) * 4096
