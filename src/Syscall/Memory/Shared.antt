-- ===== src/Syscall/Memory/Shared.antt =====
-- `map_shared`, `sys_map_frame` and `sys_frame_alloc` of Xernel/kernel/src/syscall.rs. `map_to`
-- stands for `map_user` of arch/x86_64/paging.rs.
use xernel.Prelude.{
  le_bytes, ltb, ◌==◌, if◌then◌else◌, u64_max, add64, mul64, checked_add, ℕ, zero, suc, ◌+◌, ◌*◌,
  Bool, true, false, ◌||◌, Option, none, some,
}
use xernel.Cap.{frame_cap}
use xernel.Syscall.Memory.{
  MapPage, shared_region_end, max_shared_pages, current_charge_untyped, current_refund_untyped,
  current_frame_cap, zeroed, fits_window, map_pages, put_words,
}
use xernel.Frame.{PhysFrameAllocator, alloc_contiguous, free_frame}
use xernel.Process.{Core}
use xernel.Process.Control.{current_cap_install}
use xernel.Syscall.{Kernel}
use xernel.Syscall.Ipc.{with_core}

module _ (map_to : MapPage) where
  abbrev shared_at : ℕ → ℕ → Bool × Kernel → Option ℕ × Kernel
  shared_at va_base pages (true, k) =
      (some va_base, record k { next_shared_va = add64 va_base (mul64 pages 4096) })
  shared_at va_base pages (false, k) = (none, k)

  unfoldable pub map_shared : Kernel → ℕ → ℕ → Option ℕ × Kernel
  unfolding map_pages
  map_shared k phys pages =
      let room = fits_window (checked_add k.next_shared_va (mul64 pages 4096)) shared_region_end in
      if room
      then shared_at k.next_shared_va pages (map_pages map_to k k.next_shared_va phys pages)
      else (none, k)

  abbrev map_frame_out : ℕ → Option ℕ × Kernel → ℕ × Kernel
  map_frame_out out_ptr (none, k) = (u64_max, k)
  map_frame_out out_ptr (some va, k) =
      let (fine, k') = put_words k out_ptr (le_bytes 8 va) in (if fine then 0 else u64_max, k')

  unfoldable pub sys_map_frame : Kernel → ℕ → ℕ → ℕ × Kernel
  unfolding map_shared current_frame_cap
  sys_map_frame k cap_slot out_ptr = elim (current_frame_cap k.core cap_slot) [
    | none ↦ (u64_max, k)
    | some (phys, pages) ↦ map_frame_out out_ptr (map_shared k phys pages)
  ]

  -- `frame::free` of each frame of the run.
  abbrev pub free_run : PhysFrameAllocator → ℕ → ℕ → PhysFrameAllocator
  free_run frames phys zero = frames
  free_run frames phys (suc pages) = free_run (free_frame frames phys) (phys + 4096) pages

  abbrev refunded : Kernel → ℕ → Kernel
  refunded k need = with_core k (current_refund_untyped k.core need)

  -- `unwind`, with frames to free and without.
  abbrev pub unwind : Kernel → ℕ → ℕ → ℕ × Kernel
  unwind k phys pages =
      (u64_max, refunded (record k { frames = free_run k.frames phys pages }) (pages * 4096))

  abbrev frame_named : ℕ → ℕ → Kernel → Bool × Core → ℕ × Kernel
  frame_named phys pages k (true, c) = (0, with_core k c)
  frame_named phys pages k (false, c) = unwind k phys pages

  abbrev frame_written : ℕ → ℕ → ℕ → Bool × Kernel → ℕ × Kernel
  frame_written phys pages cap_slot (false, k) = unwind k phys pages
  frame_written phys pages cap_slot (true, k) =
      frame_named phys pages k (current_cap_install k.core cap_slot (frame_cap phys pages))

  abbrev frame_shared : ℕ → ℕ → ℕ → ℕ → Option ℕ × Kernel → ℕ × Kernel
  frame_shared phys pages cap_slot out_ptr (none, k) = unwind k phys pages
  frame_shared phys pages cap_slot out_ptr (some va, k) =
      frame_written phys pages cap_slot (put_words k out_ptr (le_bytes 8 va))

  abbrev frame_allocated : Kernel → ℕ → ℕ → ℕ → Option ℕ × PhysFrameAllocator → ℕ × Kernel
  frame_allocated k pages cap_slot out_ptr (none, frames) =
      (u64_max, refunded (record k { frames = frames }) (pages * 4096))
  frame_allocated k pages cap_slot out_ptr (some phys, frames) =
      let clean = record k { frames = frames; memory = zeroed k.memory phys (pages * 4096) } in
      frame_shared phys pages cap_slot out_ptr (map_shared clean phys pages)

  abbrev frame_charged : Kernel → ℕ → ℕ → ℕ → Bool × Core → ℕ × Kernel
  frame_charged k pages cap_slot out_ptr (false, c) = (u64_max, k)
  frame_charged k pages cap_slot out_ptr (true, c) =
      frame_allocated (with_core k c) pages cap_slot out_ptr (alloc_contiguous k.frames pages)

  unfoldable pub sys_frame_alloc : Kernel → ℕ → ℕ → ℕ → ℕ × Kernel
  unfolding map_shared current_charge_untyped current_refund_untyped
  sys_frame_alloc k pages cap_slot out_ptr =
      if pages == 0 || ltb max_shared_pages pages
      then (u64_max, k)
      else frame_charged k pages cap_slot out_ptr (current_charge_untyped k.core (pages * 4096))
