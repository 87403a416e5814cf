-- ===== src/Spawn/Create.antt =====
-- `create` and `spawn` of Xernel/kernel/src/process.rs. The boot image, and where the heap puts the
-- end of a kernel stack, are parameters.
use xernel.Prelude.{if◌then◌else◌, ℕ, zero, suc, ◌+◌, Bool, true, false, Option, none, some, List}
use xernel.Process.{Process}
use xernel.Syscall.{Kernel}
use xernel.Syscall.Memory.{MapPage}
use xernel.Vspace.{vspace_new, alloc_map_user}
use xernel.Elf.{LoadResult, loads, fails}
use xernel.Elf.Load.{load}
use xernel.Spawn.{user_stack_va, user_stack_pages, new_process, enrol}

abbrev pub created : ℕ → Option Process × Kernel → Option ℕ × Kernel
created cap_slot (none, k) = (none, k)
created cap_slot (some p, k) = enrol k p cap_slot

-- Pages of fresh memory for user data, one after another, until one fails.
module _ (map_to : MapPage) where
  unfoldable pub alloc_pages : Kernel → ℕ → ℕ → ℕ → Bool × Kernel
  unfolding alloc_map_user
  alloc_pages k space va zero = (true, k)
  alloc_pages k space va (suc pages) =
      let (fine, k') = alloc_map_user map_to k space va true false in
      let rest = alloc_pages k' space (va + 4096) pages in if fine then rest else (false, k')

module _ (map_to : MapPage) (stack_end : ℕ → ℕ) where
  abbrev pub stacked : ℕ → ℕ → ℕ → Bool × Kernel → Option Process × Kernel
  stacked pid space entry (false, k) = (none, k)
  stacked pid space entry (true, k) = (some (new_process pid space entry (stack_end pid)), k)

  abbrev pub loaded : ℕ → ℕ → LoadResult ℕ × Kernel → Option Process × Kernel
  loaded pid space (fails e, k) = (none, k)
  loaded pid space (loads entry, k) =
      stacked pid space entry (alloc_pages map_to k space user_stack_va user_stack_pages)

  abbrev pub in_space : ℕ → List ℕ → Option ℕ × Kernel → Option Process × Kernel
  in_space pid bytes (none, k) = (none, k)
  in_space pid bytes (some space, k) = loaded pid space (load map_to k bytes space)

  unfoldable pub create : Kernel → ℕ → List ℕ → Option Process × Kernel
  create k pid bytes = in_space pid bytes (vspace_new k)

module _ (map_to : MapPage) (image : Option (List ℕ)) (stack_end : ℕ → ℕ) where
  unfoldable pub spawn : Kernel → ℕ → Option ℕ × Kernel
  spawn k cap_slot = elim image [
    | none ↦ (none, k)
    | some bytes ↦ created cap_slot (create map_to stack_end k k.core.sched.next_pid bytes)
  ]
