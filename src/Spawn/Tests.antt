-- ===== src/Spawn/Tests.antt =====
-- A spawn at a small kernel, of an image without segments.
use xernel.Prelude.{
  ◌==◌, if◌then◌else◌, replicate, from_le_bytes, ℕ, zero, suc, ◌+◌, ◌*◌, ◌≡◌, refl, ◌⊎◌, Bool, true,
  ◌&&◌, Option, none, some, List, [], ◌∷◌, ◌++◌, arith,
}
use xernel.Process.{
  page, BlockReason, on_endpoint, on_notification, State, ready, blocked, done, Process, Scheduler,
  Cpu, Core, same_reason, is_ready, is_done, is_blocked_on, process_at, ready_at, update, on_sched,
  set_state,
}
use xernel.Process.Isolation.{IsValid}
use xernel.Frame.{PhysFrameAllocator}
use xernel.Syscall.{Mapping, PageTables, Kernel}
use xernel.Spawn.{heap_start, install_process_cap, admit, enrol}
use xernel.Spawn.Create.{alloc_pages, create, spawn}
use xernel.Spawn.Effect.{Newborn}
use xernel.Spawn.Table.{Handed, spawn-cases, spawn-IsValid}
use xernel.Elf.{rd_u16, rd_u32, rd_u64, collect, check_ident, parse}
use xernel.Elf.Load.{map_all, copy_segments, load}
use xernel.Vspace.{fresh_frame, vspace_new, map_user, alloc_map_user}
use xernel.Ipc.Endpoint.{endpoints}
use xernel.Ipc.Notification.{notifications}
use xernel.Elf.Pages.{cover_segments}
use xernel.Cap.Node
use xernel.Frame

abbrev root : Process
root = record {
  pid = 0;
  space = 0x1000;
  entry = 0x400000;
  user_stack_top = 0x810000;
  heap_break = heap_start;
  ksp = 0x9000;
  kstack_top = 0x9ff0;
  state = ready;
  caps = Node.new 4;
  envp_user = 0;
  envp_len = 0;
  log_buf = [];
  exit_code = 0;
}

-- Twenty frames are free: one for the space, and sixteen for the stack.
abbrev machine : Kernel
machine = record {
  core = record {
    sched = record { procs = root ∷ []; current = 0; next_pid = 1 };
    cpu = record { kernel_rsp = 0x9ff0; rsp0 = 0x9ff0; cr3 = 0x1000; rsp = 0x9f00 };
  };
  endpoints = endpoints;
  notifications = notifications;
  tables = λ space page. none;
  memory = λ x. 0;
  frames = Frame.new (record { start = 0x10000; end = 0x24000 } ∷ []);
  next_mmio_va = 0x50000000;
  next_dma_va = 0x60000000;
  next_shared_va = 0x70000000;
}

-- Page tables that take every mapping, and frames for none of their own.
abbrev maps_all :
    PageTables → PhysFrameAllocator → ℕ → ℕ → Mapping → Bool × PageTables × PhysFrameAllocator
maps_all tables frames space va m =
    (true, λ s page. if s == space && page == va then some m else tables s page, frames)

abbrev bare_image : List ℕ
bare_image =
    0x7f ∷ 0x45 ∷ 0x4c ∷ 0x46 ∷ 2 ∷ 1 ∷ replicate 18 0
    ++ 0 ∷ 0 ∷ 0x40 ∷ replicate 29 0
    ++ 56 ∷ replicate 9 0

abbrev stacks : ℕ → ℕ
stacks pid = 0xa0000 + pid * 0x4000

abbrev spawned : Option ℕ × Kernel
spawned = spawn maps_all (some bare_image) stacks machine 3

made : (spawned.0 ≡ some 1) × (spawned.1.core.sched.next_pid ≡ 2)
unfolding spawn create vspace_new Frame.alloc Frame.bump load parse check_ident collect rd_u16
    rd_u32 rd_u64 from_le_bytes cover_segments map_all copy_segments alloc_pages alloc_map_user
    fresh_frame map_user enrol install_process_cap Node.insert Node.new Frame.new
    xernel.Process.Control.install_at
made = (refl, refl)

spawn-cases_example :
    ((spawned.0 ≡ none) × (spawned.1.core ≡ machine.core))
    ⊎ ((p : Process) × (d : Core) × (spawned.0 ≡ some 1)
        × Handed machine.core 3 1 d
        × (spawned.1.core ≡ admit d p)
        × Newborn 1 p)
spawn-cases_example = spawn-cases maps_all (some bare_image) stacks machine 3

numbered : (i : ℕ) (p : Process) → process_at machine.core.sched i ≡ some p → p.pid ≡ i
numbered zero p e = ground arith
numbered (suc i) p e = absurd (cc)

machine-IsValid : IsValid machine.core
machine-IsValid = record {
  running = (root, refl, record { space = refl; syscall_stack = refl; interrupt_stack = refl });
  numbered = numbered;
  counted = refl;
}

spawn-IsValid_example : IsValid spawned.1.core
spawn-IsValid_example =
    spawn-IsValid maps_all (some bare_image) stacks machine 3 machine-IsValid (omega arith)
