-- ===== src/Syscall.antt =====
-- The state that the system calls of Xernel/kernel/src/syscall.rs work on, and the check of user
-- buffers, with `user_range_ok` of Xernel/kernel/src/arch/x86_64/paging.rs.
pub mod Buffers
pub mod Ipc
pub mod Memory
pub mod Confinement
pub mod Messages
pub mod Keeps
pub mod Delegation
mod Tests
use xernel.Prelude.{
  ltb, leb, ◌==◌, if◌then◌else◌, checked_add, ℕ, zero, suc, ◌+◌, ◌-◌, ◌*◌, ◌/◌, ◌%◌, ◌^◌, Bool,
  true, false, ◌&&◌, ◌||◌, not, Option, none, some, List, [], ◌∷◌,
}
use xernel.Ipc.Endpoint.{Endpoint}
use xernel.Process.{Core}
use xernel.Frame.{PhysFrameAllocator}

-- What the page tables say of a page: where it is mapped, and with what rights.
pub record Mapping : Type 0 where
  pub phys : ℕ
  pub user_accessible : Bool
  pub writable : Bool
  pub executable : Bool

-- `translate` of the page tables: from the address space and the address of a page.
abbrev pub PageTables : Type 0
PageTables = ℕ → ℕ → Option Mapping

-- `memory` is the physical memory, byte by byte. The last three fields are the next free virtual
-- address of each window.
pub record Kernel : Type 0 where
  pub core : Core
  pub endpoints : List Endpoint
  pub notifications : List ℕ
  pub tables : PageTables
  pub memory : ℕ → ℕ
  pub frames : PhysFrameAllocator
  pub next_mmio_va : ℕ
  pub next_dma_va : ℕ
  pub next_shared_va : ℕ

abbrev pub user_addr_max : ℕ
user_addr_max = 0x800000000000

abbrev pub max_write : ℕ
max_write = 2 ^ 20

abbrev pub page_of : ℕ → ℕ
page_of x = x / 4096 * 4096

abbrev page_usable : Option Mapping → Bool → Bool
page_usable none write = false
page_usable (some m) write = m.user_accessible && (not write || m.writable)

abbrev pub usable : PageTables → ℕ → ℕ → Bool → Bool
usable tables space page write = page_usable (tables space page) write

-- The loop of `user_range_ok`, with the rounds left.
unfoldable pub pages_ok : PageTables → ℕ → ℕ → ℕ → Bool → ℕ → Bool
pages_ok tables space page last_page write zero = false
pages_ok tables space page last_page write (suc rounds) =
    let rest = pages_ok tables space (page + 4096) last_page write rounds in
    if usable tables space page write then (if leb last_page page then true else rest) else false

abbrev range_ok : PageTables → ℕ → ℕ → Option ℕ → Bool → Bool
range_ok tables space virt none write = false
range_ok tables space virt (some last) write =
    pages_ok tables space (page_of virt) (page_of last) write
      (suc ((page_of last - page_of virt) / 4096))

unfoldable pub user_range_ok : PageTables → ℕ → ℕ → ℕ → Bool → Bool
unfolding pages_ok
user_range_ok tables space virt len write =
    if len == 0 then true else range_ok tables space virt (checked_add virt (len - 1)) write

-- The tests that `user_slice` and `user_slice_mut` share, for a buffer that is not empty.
abbrev in_user_space : ℕ → Option ℕ → Bool
in_user_space ptr none = false
in_user_space ptr (some end) = not (leb user_addr_max ptr || ltb user_addr_max end)

unfoldable pub buffer_ok : PageTables → ℕ → ℕ → ℕ → Bool → Bool
unfolding user_range_ok
buffer_ok tables space ptr len write =
    if ptr == 0 || ltb max_write len
    then false
    else in_user_space ptr (checked_add ptr len) && user_range_ok tables space ptr len write

-- Whether `user_slice` hands the buffer out; an empty one is always fine.
unfoldable pub user_slice : PageTables → ℕ → ℕ → ℕ → Bool
unfolding buffer_ok
user_slice tables space ptr len = if len == 0 then true else buffer_ok tables space ptr len false

-- Whether `user_slice_mut` does; an empty one never.
unfoldable pub user_slice_mut : PageTables → ℕ → ℕ → ℕ → Bool
unfolding buffer_ok
user_slice_mut tables space ptr len =
    if len == 0 then false else buffer_ok tables space ptr len true

abbrev pub poke : (ℕ → ℕ) → ℕ → ℕ → ℕ → ℕ
poke memory pa b x = if x == pa then b else memory x

abbrev pub byte_phys : Option Mapping → ℕ → ℕ
byte_phys none offset = offset
byte_phys (some m) offset = m.phys + offset

-- `copy_from_slice` into a buffer handed out: every byte goes where its page is mapped.
unfoldable pub store_bytes : PageTables → ℕ → (ℕ → ℕ) → ℕ → List ℕ → ℕ → ℕ
store_bytes tables space memory ptr [] = memory
store_bytes tables space memory ptr (b ∷ bytes) =
    store_bytes tables space (poke memory (byte_phys (tables space (page_of ptr)) (ptr % 4096)) b)
      (ptr + 1) bytes
