-- ===== src/Syscall/Tests.antt =====
-- The system calls at a small kernel: one process that may send on endpoint 0, and holds a frame.
use xernel.Prelude.{
  ◌∙◌, zero, suc, ltb, ap, leb, le_bytes, ◌==◌, if◌then◌else◌, u64_max, ℕ, ◌+◌, ◌*◌, ◌^◌, ◌≤◌, ◌<◌,
  ◌≡◌, refl, ◌≢◌, ◌↔◌, ◌⊎◌, inr, Bool, true, false, ◌&&◌, none, some, [], ◌∷◌, arith,
}
use xernel.Syscall.{page_of, Mapping, PageTables, Kernel, user_slice, user_slice_mut}
use xernel.Cap.{
  CapType, null, untyped, cnode, frame, page_table, thread, vspace, endpoint, notification,
  irq_handler, io_port, io_mem, process, type_number, same_type, CapError, ok_code, invalid_cap,
  invalid_arg, no_mem, not_permitted, would_block, bad_op, faulted, Result, ok, err, ◌>>=◌, ok_or,
  to_option, is_ok, Result-cases, CapEntry, new_cap, io_port_cap, process_cap, io_mem_cap,
  untyped_cap, endpoint_cap, notification_cap, frame_cap, port_base, port_count, authorizes_port,
  within_mmio, authorizes_mmio, process_pid, frame_object, describe,
}
use xernel.Frame.{PhysFrameAllocator, Region, alloc_contiguous, new}
use xernel.Syscall.Ipc.{sys_send, current_endpoint_id}
use xernel.Syscall.Memory.{pages_for, map_pages, current_authorizes_mmio, current_charge_untyped}
use xernel.Syscall.Memory.Iomap.{sys_iomap, HoldsPage, AgreeOnHeld, sys_iomap-confined}
use xernel.Syscall.Memory.Dma.{budget, sys_dma_alloc, dma_alloc_charged, sys_dma_alloc-budget}
use xernel.Cap.Node.{get}
use xernel.Process.{Process, ready}
use xernel.Ipc.Endpoint.{endpoints, queue_at, send}
use xernel.Ipc.Notification.{notifications}
use xernel.Syscall.Buffers.{Accessible, user_slice-Accessible}
use xernel.Syscall.Keeps.{Known}
use xernel.Syscall.Delegation.{sends, here, next, Reach-Known}
use xernel.Frame

abbrev root : Process
root = record {
  pid = 0;
  space = 0x1000;
  entry = 0x400000;
  user_stack_top = 0x800000;
  heap_break = 0x10000000;
  ksp = 0x9000;
  kstack_top = 0x9ff0;
  state = ready;
  caps = record { slots = some (endpoint_cap 0) ∷ some (frame_cap 0x9000 1) ∷ none ∷ [] };
  envp_user = 0;
  envp_len = 0;
  log_buf = [];
  exit_code = 0;
}

-- One user page, mapped for writing.
abbrev machine : Kernel
machine = record {
  core = record {
    sched = record { procs = root ∷ []; current = 0; next_pid = 1 };
    cpu = record { kernel_rsp = 0x9ff0; rsp0 = 0x9ff0; cr3 = 0x1000; rsp = 0x9f00 };
  };
  endpoints = endpoints;
  notifications = notifications;
  tables = λ space page.
      if page == 0x400000
      then some
          (record { phys = 0x5000; user_accessible = true; writable = true; executable = false })
      else none;
  memory = λ x. 0;
  frames = new [];
  next_mmio_va = 0x50000000;
  next_dma_va = 0x60000000;
  next_shared_va = 0x70000000;
}

abbrev after_send : Kernel
after_send = (sys_send machine 0 7 1).1

sent_in_flight :
    ((sys_send machine 0 7 1).0 ≡ 0)
    × (queue_at after_send.endpoints 0 ≡ (7, some (frame_cap 0x9000 1)) ∷ [])
unfolding sys_send current_endpoint_id send get
sent_in_flight = (refl, refl)

send_denied : (sys_send machine 1 7 0).0 ≡ u64_max
unfolding sys_send current_endpoint_id get
send_denied = refl

Reach-Known_example : Known machine (frame_cap 0x9000 1)
unfolding sys_send current_endpoint_id send get
Reach-Known_example =
    Reach-Known machine after_send (frame_cap 0x9000 1) (next here (sends 0 7 1))
      (inr (0, 0, 7, refl))

slices :
    (user_slice machine.tables 0x1000 0x400ff8 8 ≡ true)
    × (user_slice machine.tables 0x1000 0x400ff8 9 ≡ false)
    × (user_slice_mut machine.tables 0x1000 0x400000 0 ≡ false)
unfolding user_slice user_slice_mut
slices = (refl, refl, refl)

user_slice-Accessible_example :
    ((user_slice machine.tables 0x1000 0x400ff8 8 ≡ true) ↔ (
      (◌≡◌ {A = ℕ} 8 0)
      ⊎ ((◌≢◌ {A = ℕ} 0x400ff8 0)
          × (8 ≤ 2 ^ 20)
          × Accessible machine.tables 0x1000 0x400ff8 8 false)))
    × ((user_slice_mut machine.tables 0x1000 0x400ff8 8 ≡ true) ↔ (
        (◌≢◌ {A = ℕ} 8 0)
        × (◌≢◌ {A = ℕ} 0x400ff8 0)
        × (8 ≤ 2 ^ 20)
        × Accessible machine.tables 0x1000 0x400ff8 8 true))
user_slice-Accessible_example = user_slice-Accessible machine.tables 0x1000 0x400ff8 8

-- Page tables that take every mapping, and frames for none of their own.
abbrev maps_all :
    PageTables → PhysFrameAllocator → ℕ → ℕ → Mapping → Bool × PageTables × PhysFrameAllocator
maps_all tables frames space va m =
    (true, λ s page. if s == space && page == va then some m else tables s page, frames)

-- A driver with a device range, a memory budget and a page for answers.
abbrev driver : Process
driver = record root {
  caps = record { slots = some (io_mem_cap 0x80000000 0x2000) ∷ some (untyped_cap 0x3000) ∷ [] };
}

abbrev driver_machine : Kernel
driver_machine = record machine {
  core = record (machine.core) {
    sched = record { procs = driver ∷ []; current = 0; next_pid = 1 };
  };
  frames = Frame.new (record { start = 0x10000; end = 0x14000 } ∷ []);
  tables = λ space page.
      if page == 0x400000
      then some
          (record { phys = 0x5000; user_accessible = true; writable = true; executable = false })
      else none;
}

io_mapped :
    ((sys_iomap maps_all driver_machine 0x80000100 0x1000).0 ≡ 0x50000100)
    × ((sys_iomap maps_all driver_machine 0x80000100 0x2000).0 ≡ u64_max)
unfolding sys_iomap map_pages current_authorizes_mmio xernel.Cap.Node.authorizes_mmio
    xernel.Cap.authorizes_mmio
io_mapped = (refl, refl)

-- A way to map that refuses all but the two pages of the driver's device.
abbrev maps_device :
    PageTables → PhysFrameAllocator → ℕ → ℕ → Mapping → Bool × PageTables × PhysFrameAllocator
maps_device tables frames space va m =
    if leb 0x80000000 m.phys && ltb m.phys 0x80002000
    then maps_all tables frames space va m
    else (false, tables, frames)

abbrev range_of : Result CapEntry → ℕ × ℕ
range_of (ok c) = (c.object, c.badge)
range_of (err e) = (0, 0)

abbrev type_of : Result CapEntry → CapType
type_of (ok c) = c.cap_type
type_of (err e) = frame

device_range :
    (i : ℕ) (c : CapEntry)
    → get driver.caps i ≡ ok c
    → c.cap_type ≡ io_mem
    → (0x80000000 ≡ c.object) × (0x2000 ≡ c.badge)
unfolding get
device_range zero c e ty = (ap (λ r. (range_of r).0) e, ap (λ r. (range_of r).1) e)
device_range (suc zero) c e ty =
    let other : CapType.untyped ≡ io_mem = ap type_of e ∙ ty in absurd (cc)
device_range (suc (suc i)) c e ty = let other : frame ≡ io_mem = ap type_of e ∙ ty in absurd (cc)

maps_device-agrees : AgreeOnHeld driver_machine maps_all maps_device
maps_device-agrees tables frames va phys (i, c, e, ty, lo, hi, fits) =
    let (object, badge) = device_range i c e ty in
    let inside : (leb 0x80000000 phys && ltb phys 0x80002000) ≡ true = ground arith in
    rw inside refl

sys_iomap-confined_example :
    (sys_iomap maps_all driver_machine 0x80000100 0x1000
      ≡ sys_iomap maps_device driver_machine 0x80000100 0x1000)
    × ((sys_iomap maps_all driver_machine 0x80000100 0x1000 ≡ (u64_max, driver_machine))
        ⊎ ((a : ℕ)
            → 0x80000100 ≤ a
            → a < 0x80000100 + 0x1000
            → HoldsPage driver_machine (page_of a)))
sys_iomap-confined_example =
    sys_iomap-confined maps_all maps_device driver_machine maps_device-agrees 0x80000100 0x1000

dma_given :
    ((sys_dma_alloc maps_all driver_machine 0x1800 0x400000).0 ≡ 0)
    × ((sys_dma_alloc maps_all driver_machine 0x4000 0x400000).0 ≡ u64_max)
    × ((sys_dma_alloc maps_all driver_machine 0x1800 0x500000).0 ≡ u64_max)
unfolding sys_dma_alloc dma_alloc_charged current_charge_untyped xernel.Cap.Node.charge_untyped
    alloc_contiguous xernel.Frame.new user_slice_mut le_bytes
dma_given = (refl, refl, refl)

sys_dma_alloc-budget_example :
    let (status, l) = sys_dma_alloc maps_all driver_machine 0x1800 0x400000 in
    budget l + (if status == 0 then pages_for 0x1800 * 4096 else 0) ≡ budget driver_machine
sys_dma_alloc-budget_example =
    sys_dma_alloc-budget maps_all driver_machine driver 0x1800 0x400000 refl (omega arith)
