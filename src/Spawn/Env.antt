-- ===== src/Spawn/Env.antt =====
-- `spawn_env` of Xernel/kernel/src/process.rs.
use xernel.Prelude.{
  leb, ◌==◌, if◌then◌else◌, checked_add, ℕ, zero, suc, ◌+◌, ◌-◌, ◌*◌, ◌%◌, min, Bool, true, false,
  ◌&&◌, ◌||◌, not, Option, none, some, List,
}
use xernel.Process.{Process}
use xernel.Syscall.{Kernel, user_addr_max, page_of, user_range_ok, poke, byte_phys}
use xernel.Syscall.Memory.{MapPage, pages_for}
use xernel.Syscall.Ipc.{running, space_of}
use xernel.Vspace.{phys_of, alloc_map_user}
use xernel.Spawn.{heap_start, enrol}
use xernel.Spawn.Create.{create, spawn}

-- Reading one byte at a virtual address of the running process.
abbrev pub load_byte : Kernel → ℕ → ℕ
load_byte k va =
    k.memory (byte_phys (k.tables (space_of (running k.core)) (page_of va)) (va % 4096))

-- The bytes of one page of the environment, with the bytes left.
unfoldable pub copy_env : Kernel → ℕ → ℕ → ℕ → Kernel
copy_env k src dst zero = k
copy_env k src dst (suc left) =
    copy_env (record k { memory = poke k.memory dst (load_byte k src) }) (src + 1) (dst + 1) left

abbrev env_placed : Kernel → ℕ → ℕ → Option ℕ → Option Kernel × Kernel
env_placed k src n none = (none, k)
env_placed k src n (some dst) = (some (copy_env k src dst n), k)

abbrev env_page : ℕ → ℕ → ℕ → ℕ → Bool × Kernel → Option Kernel × Kernel
env_page space child_va src n (false, k) = (none, k)
env_page space child_va src n (true, k) = env_placed k src n (phys_of k space child_va)

abbrev with_env : ℕ → Process → Process
with_env envp_len p = record p {
  envp_user = heap_start;
  envp_len = envp_len;
  heap_break = heap_start + pages_for envp_len * 4096;
}

abbrev env_done : Process → ℕ → ℕ → Bool × Kernel → Option ℕ × Kernel
env_done p envp_len cap_slot (false, k) = (none, k)
env_done p envp_len cap_slot (true, k) = enrol k (with_env envp_len p) cap_slot

-- The tests of the caller's buffer, which `spawn_env` makes of the process that runs.
abbrev pub env_readable : Kernel → ℕ → ℕ → Bool
env_readable k envp_ptr envp_len = elim (checked_add envp_ptr envp_len) [
  | none ↦ false
  | some end ↦
      not (leb user_addr_max end)
      && user_range_ok k.tables (space_of (running k.core)) envp_ptr envp_len false
]

module _ (map_to : MapPage) (image : Option (List ℕ)) (stack_end : ℕ → ℕ) where
  -- The loop over the pages of the environment, with the pages left.
  unfoldable pub env_pages : Kernel → ℕ → ℕ → ℕ → ℕ → ℕ → Bool × Kernel
  unfolding alloc_map_user phys_of copy_env
  env_pages k space envp_ptr envp_len i zero = (true, k)
  env_pages k space envp_ptr envp_len i (suc left) =
      let child_va = heap_start + i * 4096 in
      let start = i * 4096 in
      let (copied, k') =
        env_page space child_va (envp_ptr + start) (min (envp_len - start) 4096)
          (alloc_map_user map_to k space child_va true false) in
      elim copied [
        | none ↦ (false, k')
        | some k'' ↦ env_pages k'' space envp_ptr envp_len (suc i) left
      ]

  abbrev env_created : ℕ → ℕ → ℕ → Option Process × Kernel → Option ℕ × Kernel
  env_created envp_ptr envp_len cap_slot (none, k) = (none, k)
  env_created envp_ptr envp_len cap_slot (some p, k) =
      if env_readable k envp_ptr envp_len
      then env_done p envp_len cap_slot
          (env_pages k p.space envp_ptr envp_len 0 (pages_for envp_len))
      else (none, k)

  unfoldable pub spawn_env : Kernel → ℕ → ℕ → ℕ → Option ℕ × Kernel
  unfolding spawn create env_pages enrol user_range_ok
  spawn_env k envp_ptr envp_len cap_slot =
      if envp_len == 0 || envp_ptr == 0
      then spawn map_to image stack_end k cap_slot
      else elim image [
        | none ↦ (none, k)
        | some bytes ↦
            env_created envp_ptr envp_len cap_slot
              (create map_to stack_end k k.core.sched.next_pid bytes)
      ]
