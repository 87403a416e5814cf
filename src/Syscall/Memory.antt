-- ===== src/Syscall/Memory.antt =====
-- The system calls of Xernel/kernel/src/syscall.rs that give memory to a process, with the
-- accessors of Xernel/kernel/src/process.rs that they use. Mapping one page is a parameter, since it is
-- `map_to` of the x86_64 crate: it answers whether the page is mapped, and may take frames.
pub mod Iomap
pub mod Shared
pub mod Dma
use xernel.Prelude.{
  ltb, leb, if◌then◌else◌, length, add64, ℕ, zero, suc, ◌+◌, ◌/◌, Bool, true, false, ◌&&◌, Option,
  none, some, List, [],
}
use xernel.Cap.{frame, same_type, CapEntry, authorizes_mmio}
use xernel.Cap.Node.{CNode, charge_untyped, refund_untyped}
use xernel.Frame.{PhysFrameAllocator}
use xernel.Process.{Core, Process, update, on_sched}
use xernel.Process.Control.{with_caps}
use xernel.Syscall.{Kernel, Mapping, PageTables, user_slice_mut, store_bytes}
use xernel.Syscall.Ipc.{running, current_cap_get, space_of}
use xernel.Cap.Node

abbrev pub MapPage : Type 0
MapPage = PageTables → PhysFrameAllocator → ℕ → ℕ → Mapping → Bool × PageTables × PhysFrameAllocator

abbrev pub mmio_region_end : ℕ
mmio_region_end = 0x60000000

abbrev pub dma_region_end : ℕ
dma_region_end = 0x70000000

abbrev pub shared_region_end : ℕ
shared_region_end = 0x80000000

abbrev pub max_shared_pages : ℕ
max_shared_pages = 64

abbrev pub caps_of : Option Process → CNode
caps_of none = record { slots = [] }
caps_of (some p) = p.caps

abbrev pub set_caps : Core → CNode → Core
set_caps c t = on_sched c (λ s. update s s.current (with_caps t))

unfoldable pub current_authorizes_mmio : Core → ℕ → ℕ → Bool
current_authorizes_mmio c phys len = Node.authorizes_mmio (caps_of (running c)) phys len

unfoldable pub current_charge_untyped : Core → ℕ → Bool × Core
current_charge_untyped c amount =
    let (paid, t) = charge_untyped (caps_of (running c)) amount in (paid, set_caps c t)

unfoldable pub current_refund_untyped : Core → ℕ → Core
current_refund_untyped c amount = set_caps c (refund_untyped (caps_of (running c)) amount)

abbrev frame_of : Option CapEntry → Option (ℕ × ℕ)
frame_of none = none
frame_of (some c) = if same_type c.cap_type frame then some (c.object, c.badge) else none

unfoldable pub current_frame_cap : Core → ℕ → Option (ℕ × ℕ)
current_frame_cap c slot = frame_of (current_cap_get c slot)

-- `write_bytes(.., 0, len)` through the map of the physical memory.
abbrev pub zeroed : (ℕ → ℕ) → ℕ → ℕ → ℕ → ℕ
zeroed memory phys len x = if leb phys x && ltb x (phys + len) then 0 else memory x

-- `len.div_ceil(PAGE)`.
abbrev pub pages_for : ℕ → ℕ
pages_for len = (len + 4095) / 4096

abbrev pub user_mapping : ℕ → Mapping
user_mapping phys = record {
  phys = phys;
  user_accessible = true;
  writable = true;
  executable = false;
}

-- The guards on a window: the end of `pages` more pages, if there is room for them.
abbrev pub fits_window : Option ℕ → ℕ → Bool
fits_window none region_end = false
fits_window (some end) region_end = leb end region_end

abbrev pub mapped : Kernel → Bool × PageTables × PhysFrameAllocator → Bool × Kernel
mapped k (fine, tables, frames) = (fine, record k { tables = tables; frames = frames })

abbrev pub map_page : MapPage → Kernel → ℕ → ℕ → Bool × Kernel
map_page map_to k va phys =
    mapped k (map_to k.tables k.frames (space_of (running k.core)) va (user_mapping phys))

-- The loop over the pages, which stops at the first that cannot be mapped.
unfoldable pub map_pages : MapPage → Kernel → ℕ → ℕ → ℕ → Bool × Kernel
map_pages map_to k va phys zero = (true, k)
map_pages map_to k va phys (suc pages) =
    let (fine, k') = map_page map_to k va phys in
    let rest = map_pages map_to k' (add64 va 4096) (add64 phys 4096) pages in
    if fine then rest else (false, k')

abbrev pub words_fit : Kernel → ℕ → List ℕ → Bool
words_fit k out_ptr bytes =
    user_slice_mut k.tables (space_of (running k.core)) out_ptr (length bytes)

-- The end of the calls that hand out memory: the words for the caller go to its buffer.
abbrev pub put_words : Kernel → ℕ → List ℕ → Bool × Kernel
put_words k out_ptr bytes =
    let space = space_of (running k.core) in
    if words_fit k out_ptr bytes
    then (true, record k { memory = store_bytes k.tables space k.memory out_ptr bytes })
    else (false, k)
