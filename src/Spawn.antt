-- ===== src/Spawn.antt =====
-- The making of processes in Xernel/kernel/src/process.rs: the capabilities a process starts with,
-- its record, and its entry in the table.
pub mod Create
pub mod Env
pub mod Heap
pub mod Effect
pub mod Table
pub mod Runs
mod Tests
use xernel.Prelude.{
  if◌then◌else◌, ◌==◌, u64_max, add64, ℕ, ◌+◌, ◌-◌, ◌*◌, Bool, true, false, Option, none, some, [],
  ◌∷◌, ◌++◌,
}
use xernel.Cap.{
  Result, ok, err, CapEntry, io_port_cap, process_cap, io_mem_cap, untyped_cap, endpoint_cap,
  notification_cap,
}
use xernel.Cap.Node.{CNode, new, insert}
use xernel.Process.{ready, Process, Core, on_sched}
use xernel.Process.Control.{current_cap_install}
use xernel.Process.Switch.{align_stack}
use xernel.Syscall.{Kernel}
use xernel.Syscall.Ipc.{with_core}
use xernel.Cap.Node

abbrev pub cap_slots : ℕ
cap_slots = 64

abbrev pub pci_io_base : ℕ
pci_io_base = 0xc000

abbrev pub pci_io_count : ℕ
pci_io_count = 0x4000

abbrev pub pci_mmio_base : ℕ
pci_mmio_base = 0xc0000000

abbrev pub pci_mmio_len : ℕ
pci_mmio_len = 0x40000000

abbrev pub dma_budget : ℕ
dma_budget = 256 * 1024

abbrev pub ep_slot : ℕ
ep_slot = 3

abbrev pub reply_ep_slot : ℕ
reply_ep_slot = 4

abbrev pub notif_slot : ℕ
notif_slot = 5

abbrev pub user_stack_va : ℕ
user_stack_va = 0x800000

abbrev pub user_stack_pages : ℕ
user_stack_pages = 16

abbrev pub heap_start : ℕ
heap_start = 0x10000000

abbrev pub heap_max : ℕ
heap_max = 0x20000000

-- `let _ = caps.insert(..)`, whose result does not matter.
abbrev inserted : CNode → Result CNode → CNode
inserted t (ok t') = t'
inserted t (err e) = t

abbrev pub seed : CNode → ℕ → CapEntry → CNode
seed t i c = inserted t (insert t i c)

unfoldable pub seed_caps : ℕ → CNode
unfolding insert new
seed_caps pid =
    let shared =
      seed
        (seed (seed (Node.new cap_slots) ep_slot (endpoint_cap 0)) reply_ep_slot (endpoint_cap 1))
        notif_slot (notification_cap 0) in
    if pid == 0
    then seed
        (seed (seed shared 0 (io_port_cap pci_io_base pci_io_count)) 1
          (io_mem_cap pci_mmio_base pci_mmio_len))
        2 (untyped_cap dma_budget)
    else shared

-- `init_stack`: seven words below the top, which the alignment has lowered by eight bytes.
abbrev pub init_thread_stack : ℕ → ℕ
init_thread_stack end = align_stack end - 8 - 7 * 8

-- The record that `create` ends with.
abbrev pub new_process : ℕ → ℕ → ℕ → ℕ → Process
new_process pid space entry stack_end = record {
  pid = pid;
  space = space;
  entry = entry;
  user_stack_top = user_stack_va + user_stack_pages * 4096 - 8;
  heap_break = heap_start;
  ksp = init_thread_stack stack_end;
  kstack_top = align_stack stack_end;
  state = ready;
  caps = seed_caps pid;
  envp_user = 0;
  envp_len = 0;
  log_buf = [];
  exit_code = 0;
}

-- `u64::MAX` asks for no handle.
unfoldable pub install_process_cap : Core → ℕ → ℕ → Bool × Core
install_process_cap c pid cap_slot =
    if cap_slot == u64_max then (true, c) else current_cap_install c cap_slot (process_cap pid)

-- `procs.push(p)` and `next_pid += 1`.
abbrev pub admit : Core → Process → Core
admit c p = on_sched c (λ s. record s { procs = s.procs ++ p ∷ []; next_pid = add64 s.next_pid 1 })

abbrev pub enrolled : Kernel → Process → Bool × Core → Option ℕ × Kernel
enrolled k p (false, c) = (none, k)
enrolled k p (true, c) = (some p.pid, with_core k (admit c p))

-- The end of a spawn: the handle, and the entry in the table.
unfoldable pub enrol : Kernel → Process → ℕ → Option ℕ × Kernel
unfolding install_process_cap
enrol k p cap_slot = enrolled k p (install_process_cap k.core p.pid cap_slot)
