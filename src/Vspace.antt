-- ===== src/Vspace.antt =====
-- The address spaces of Xernel/kernel/src/arch/x86_64/vspace.rs. What the x86_64 crate does to map a
-- page is a parameter. The bytes of the page tables are the map from addresses to mappings.
use xernel.Prelude.{
  leb, ◌==◌, if◌then◌else◌, ℕ, ◌+◌, ◌/◌, ◌%◌, ◌^◌, Bool, true, false, Option, none, some,
}
use xernel.Syscall.{Mapping, PageTables, Kernel, page_of}
use xernel.Syscall.Memory.{MapPage, zeroed, mapped}
use xernel.Frame.{PhysFrameAllocator, alloc}

-- Allocating and zeroing one frame, the same for the loader and `alloc_map_user`.
abbrev pub framed : Kernel → Option ℕ × PhysFrameAllocator → Option ℕ × Kernel
framed k (none, frames) = (none, record k { frames = frames })
framed k (some phys, frames) =
    (some phys, record k { frames = frames; memory = zeroed k.memory phys 4096 })

unfoldable pub fresh_frame : Kernel → Option ℕ × Kernel
fresh_frame k = framed k (alloc k.frames)

-- The pages of the upper half, `KERNEL_PML4_START..512`, which all address spaces share.
abbrev pub kernel_page : ℕ → Bool
kernel_page page = leb 256 (page / 2 ^ 39 % 512)

-- The tables with a new, empty space, its kernel half copied from the active one.
abbrev pub with_space : PageTables → ℕ → ℕ → PageTables
with_space tables active l4_phys space page =
    if space == l4_phys
    then (if kernel_page page then tables active page else none)
    else tables space page

abbrev pub spaced : Kernel → Option ℕ × PhysFrameAllocator → Option ℕ × Kernel
spaced k (none, frames) = (none, record k { frames = frames })
spaced k (some l4_phys, frames) = (
  some l4_phys,
  record k { frames = frames; tables = with_space k.tables k.core.cpu.cr3 l4_phys },
)

unfoldable pub vspace_new : Kernel → Option ℕ × Kernel
vspace_new k = spaced k (alloc k.frames)

abbrev phys_at : Option Mapping → ℕ → Option ℕ
phys_at none virt = none
phys_at (some m) virt = some (m.phys + virt % 4096)

unfoldable pub phys_of : Kernel → ℕ → ℕ → Option ℕ
phys_of k l4_phys virt = phys_at (k.tables l4_phys (page_of virt)) virt

-- What `map_user` asks for.
abbrev pub page_flags : ℕ → Bool → Bool → Mapping
page_flags phys writable executable = record {
  phys = phys;
  user_accessible = true;
  writable = writable;
  executable = executable;
}

module _ (map_to : MapPage) where
  unfoldable pub map_user : Kernel → ℕ → ℕ → ℕ → Bool → Bool → Bool × Kernel
  map_user k l4_phys virt phys writable executable =
      mapped k (map_to k.tables k.frames l4_phys virt (page_flags phys writable executable))

  abbrev pub alloc_mapped : ℕ → ℕ → Bool → Bool → Option ℕ × Kernel → Bool × Kernel
  alloc_mapped l4_phys virt writable executable (none, k) = (false, k)
  alloc_mapped l4_phys virt writable executable (some phys, k) =
      map_user k l4_phys virt phys writable executable

  unfoldable pub alloc_map_user : Kernel → ℕ → ℕ → Bool → Bool → Bool × Kernel
  alloc_map_user k l4_phys virt writable executable =
      alloc_mapped l4_phys virt writable executable (fresh_frame k)
