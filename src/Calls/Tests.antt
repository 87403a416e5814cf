-- ===== src/Calls/Tests.antt =====
-- System calls on a small machine, whose only device is one register behind every port.
use xernel.Prelude.{
  ◌==◌, if◌then◌else◌, replicate, u64_max, ℕ, ◌%◌, ◌≡◌, refl, Bool, true, false, Option, none, some,
  List, [], ◌∷◌,
}
use xernel.Cap.{io_port_cap, authorizes_port}
use xernel.Cap.Node.{
  CNode, with_slots, new, len, is_empty, slot, get, insert, copy, delete, charge_slots,
  charge_untyped, refund_slots, refund_untyped,
}
use xernel.Process.{ready, Process}
use xernel.Frame.{PhysFrameAllocator}
use xernel.Syscall.{Mapping, PageTables, Kernel, user_slice}
use xernel.Calls.{
  Platform, load_bytes, sys_write, current_authorizes_port, sys_port_in, sys_port_out,
}
use xernel.Calls.Dispatch.{Machine, Dispatched, returns, parks, ends, Args, dispatch_caps, dispatch}
use xernel.Ipc.Endpoint.{endpoints}
use xernel.Ipc.Notification.{notifications}
use xernel.Cap.Node
use xernel.Frame

-- The running process may access the ports from 0xc000 to 0xc00f, and has one page of memory.
abbrev driver : Process
driver = record {
  pid = 0;
  space = 0x1000;
  entry = 0x400000;
  user_stack_top = 0x810000;
  heap_break = 0x10000000;
  ksp = 0x9000;
  kstack_top = 0x9ff0;
  state = ready;
  caps = record { slots = some (io_port_cap 0xc000 0x10) ∷ none ∷ [] };
  envp_user = 0;
  envp_len = 0;
  log_buf = [];
  exit_code = 0;
}

abbrev small_kernel : Kernel
small_kernel = record {
  core = record {
    sched = record { procs = driver ∷ []; current = 0; next_pid = 1 };
    cpu = record { kernel_rsp = 0x9ff0; rsp0 = 0x9ff0; cr3 = 0x1000; rsp = 0x9f00 };
  };
  endpoints = endpoints;
  notifications = notifications;
  tables = λ space page.
      if page == 0x400000
      then some
          (record { phys = 0x5000; user_accessible = true; writable = true; executable = false })
      else none;
  memory = λ x. x % 256;
  frames = Frame.new (record { start = 0x10000; end = 0x24000 } ∷ []);
  next_mmio_va = 0x50000000;
  next_dma_va = 0x60000000;
  next_shared_va = 0x70000000;
}

abbrev maps_all :
    PageTables → PhysFrameAllocator → ℕ → ℕ → Mapping → Bool × PageTables × PhysFrameAllocator
maps_all tables frames space va m = (true, tables, frames)

abbrev one_register : Platform
one_register = record {
  Dev = ℕ;
  map_to = maps_all;
  map_device = maps_all;
  image = none;
  stack_end = λ pid. 0xa0000;
  framebuffer = none;
  ticks = λ dev. 7;
  pci_read = λ dev bus slot func offset. (0xffff, dev);
  port_in = λ dev port size. (dev, dev);
  port_out = λ dev port size value. value;
}

abbrev small : Machine one_register
small = record {
  kernel = small_kernel;
  keys = record { bytes = replicate 256 0; head = 0; tail = 0 };
  dev = 0x5a;
  serial = [];
}

abbrev asks : ℕ → ℕ → ℕ → Args
asks a0 a1 a2 = record { a0 = a0; a1 = a1; a2 = a2; a3 = 0 }

abbrev seen : Dispatched one_register → Option (ℕ × ℕ × List ℕ)
seen (returns status m) = some (status, m.dev, m.serial)
seen (parks m) = none
seen (ends outcome m) = none

-- A read and a write of a port that the caller may access, a write to one that it may not, a line
-- to the console, and a number that is no call.
answers_given :
    (seen (dispatch one_register small 15 (asks 0xc000 1 0)) ≡ some (0x5a, 0x5a, []))
    × (seen (dispatch one_register small 16 (asks 0xc00f 1 3)) ≡ some (0, 3, []))
    × (seen (dispatch one_register small 16 (asks 0xc00f 2 3)) ≡ some (u64_max, 0x5a, []))
    × (seen (dispatch one_register small 1 (asks 1 0x400001 2)) ≡ some (2, 0x5a, 1 ∷ 2 ∷ []))
    × (seen (dispatch one_register small 99 (asks 0 0 0)) ≡ some (u64_max, 0x5a, []))
unfolding dispatch dispatch_caps sys_port_in sys_port_out current_authorizes_port
    Node.authorizes_port sys_write user_slice load_bytes authorizes_port
answers_given = (refl, refl, refl, refl, refl)
