-- ===== src/Calls/Dispatch.antt =====
-- `dispatch` of Xernel/kernel/src/syscall.rs.
use xernel.Prelude.{◌==◌, if◌then◌else◌, u64_max, ℕ, ◌%◌, ◌^◌, Option, none, some, List, ◌++◌}
use xernel.Process.Switch.{yield_now, ExitOutcome, exit_inner}
use xernel.Process.Isolation.{core_of}
use xernel.Syscall.{Kernel}
use xernel.Syscall.Ipc.{
  with_core, sys_send, Round, answers, waits, sys_recv, sys_signal, sys_wait, sys_kill,
  sys_get_status, sys_cap_grant,
}
use xernel.Syscall.Memory.Iomap.{sys_iomap}
use xernel.Syscall.Memory.Dma.{sys_dma_alloc}
use xernel.Syscall.Memory.Shared.{sys_map_frame, sys_frame_alloc}
use xernel.Spawn.Create.{spawn}
use xernel.Spawn.Env.{spawn_env}
use xernel.Spawn.Heap.{sbrk, getpid}
use xernel.Keyboard.{Ring}
use xernel.Calls.{
  Platform, sys_write, sys_read_nb, sys_read, sys_fb_info, sys_cap_identify, sys_getenvp, sysinfo,
  sys_log_read, sys_wait_pid, sys_port_in, sys_port_out,
}

-- The kernel with the keyboard ring, the devices, and the bytes written to the serial console.
pub record Machine (p : Platform) : Type 0 where
  pub kernel : Kernel
  pub keys : Ring
  pub dev : p.Dev
  pub serial : List ℕ

-- A call answers, waits for another round of its loop, or has ended the process.
pub data Dispatched (p : Platform) : Type 0 where
  returns : ℕ → Machine p → Dispatched p
  parks : Machine p → Dispatched p
  ends : ExitOutcome → Machine p → Dispatched p

-- `args`
pub record Args : Type 0 where
  pub a0 : ℕ
  pub a1 : ℕ
  pub a2 : ℕ
  pub a3 : ℕ

abbrev pub or_max : Option ℕ → ℕ
or_max none = u64_max
or_max (some x) = x

module _ (p : Platform) where
  abbrev pub with_kernel : Machine p → Kernel → Machine p
  with_kernel m k = record m { kernel = k }

  abbrev returned : Machine p → ℕ × Kernel → Dispatched p
  returned m (status, k) = returns status (with_kernel m k)

  abbrev optional : Machine p → Option ℕ × Kernel → Dispatched p
  optional m (got, k) = returns (or_max got) (with_kernel m k)

  abbrev pub round : Machine p → Round → Dispatched p
  round m (answers status k) = returns status (with_kernel m k)
  round m (waits k) = parks (with_kernel m k)

  abbrev printed : Machine p → ℕ × List ℕ × Kernel → Dispatched p
  printed m (status, bytes, k) =
      returns status (record m { kernel = k; serial = m.serial ++ bytes })

  abbrev typed : Machine p → ℕ × Kernel × Ring → Dispatched p
  typed m (status, k, keys) = returns status (record m { kernel = k; keys = keys })

  abbrev pub typing : Machine p → Option (ℕ × Kernel × Ring) → Dispatched p
  typing m none = parks m
  typing m (some got) = typed m got

  abbrev pub on_dev : Machine p → ℕ × p.Dev → Dispatched p
  on_dev m (status, dev) = returns status (record m { dev = dev })

  abbrev exited : Machine p → ExitOutcome → Dispatched p
  exited m outcome = ends outcome (with_kernel m (with_core m.kernel (core_of outcome)))

  abbrev byte : ℕ → ℕ
  byte x = x % 256

  -- The numbers from 17 on: capabilities, messages, processes and shared memory.
  unfoldable pub dispatch_caps : Machine p → ℕ → Args → Dispatched p
  dispatch_caps m nr args =
      let k = m.kernel in
      if nr == 17
      then returned m (sys_cap_identify k args.a0 args.a1)
      else if nr == 18
      then returned m (sys_send k args.a0 args.a1 args.a2)
      else if nr == 19
      then round m (sys_recv k args.a0 args.a1 args.a2)
      else if nr == 20
      then optional m (spawn p.map_to p.image p.stack_end k args.a1)
      else if nr == 21
      then returned m (sys_signal k args.a0 args.a1)
      else if nr == 22
      then round m (sys_wait k args.a0)
      else if nr == 23
      then returned m (sys_frame_alloc p.map_to k args.a0 args.a1 args.a2)
      else if nr == 24
      then returned m (sys_map_frame p.map_to k args.a0 args.a1)
      else if nr == 25
      then optional m (spawn_env p.map_to p.image p.stack_end k args.a1 args.a2 args.a3)
      else if nr == 26
      then returns (sys_get_status k args.a0) m
      else if nr == 27
      then returned m (sys_getenvp k args.a0)
      else if nr == 28
      then returned m (sys_log_read k args.a0 args.a1 args.a2)
      else if nr == 29
      then returned m (sys_kill k args.a0 args.a1)
      else if nr == 30
      then round m (sys_wait_pid k args.a0)
      else if nr == 31
      then returned m (sys_cap_grant k args.a0 args.a1 args.a2)
      else returns u64_max m

  unfoldable pub dispatch : Machine p → ℕ → Args → Dispatched p
  dispatch m nr args =
      let k = m.kernel in
      if nr == 1
      then printed m (sys_write k args.a0 args.a1 args.a2)
      else if nr == 2
      then exited m (exit_inner k.core args.a0)
      else if nr == 3
      then returns 0 m
      else if nr == 4
      then returns (p.ticks m.dev) m
      else if nr == 5
      then returns (sysinfo k args.a0) m
      else if nr == 6
      then typing m (sys_read k m.keys args.a1 args.a2)
      else if nr == 7
      then typed m (sys_read_nb k m.keys args.a1 args.a2)
      else if nr == 8
      then optional m (sbrk p.map_to k args.a0)
      else if nr == 9
      then returned m (sys_fb_info k p.framebuffer args.a0)
      else if nr == 10
      then returns (getpid k.core) m
      else if nr == 11
      then returns 0 (with_kernel m (with_core k (yield_now k.core)))
      else if nr == 12
      then on_dev m (p.pci_read m.dev (byte args.a0) (byte args.a1) (byte args.a2) (byte args.a3))
      else if nr == 13
      then returned m (sys_iomap p.map_device k args.a0 args.a1)
      else if nr == 14
      then returned m (sys_dma_alloc p.map_to k args.a0 args.a1)
      else if nr == 15
      then on_dev m (sys_port_in p k m.dev (args.a0 % 65536) (byte args.a1))
      else if nr == 16
      then on_dev m (sys_port_out p k m.dev (args.a0 % 65536) (byte args.a1) (args.a2 % 2 ^ 32))
      else dispatch_caps m nr args
