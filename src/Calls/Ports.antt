-- ===== src/Calls/Ports.antt =====
-- What the system calls that `dispatch` of Xernel/kernel/src/syscall.rs offers do to the devices.
use xernel.Calls.{Platform}
use xernel.Prelude.{ℕ, ◌+◌, ◌%◌, ◌≤◌, max, ◌≡◌, ◌⊎◌}
use xernel.Cap.{io_port, ok, CapEntry, port_base, port_count}
use xernel.Cap.Node.{get}
use xernel.Syscall.{Kernel}
use xernel.Syscall.Memory.{caps_of}
use xernel.Syscall.Ipc.{running}
use xernel.Calls.Dispatch.{Machine, Dispatched, returns, parks, ends, Args}

-- The caller holds an `IoPort` capability for every port of the access.
abbrev pub HoldsPorts : Kernel → ℕ → ℕ → Type 0
HoldsPorts k port size =
    (i : ℕ) × (c : CapEntry) × (get (caps_of (running k.core)) i ≡ ok c)
    × (c.cap_type ≡ io_port)
    × (port_base c ≤ port)
    × (port + max size 1 ≤ port_base c + port_count c)

module _ (p : Platform) (m : Machine p) where
  -- The devices are as they were.
  abbrev pub Calm : Dispatched p → Type 0
  Calm (returns status m') = m'.dev ≡ m.dev
  Calm (parks m') = m'.dev ≡ m.dev
  Calm (ends outcome m') = m'.dev ≡ m.dev

  -- The devices are as they were, or `nr` is a call that accesses a port and the caller may.
  abbrev Allowed : ℕ → Args → Dispatched p → Type 0
  Allowed nr args x =
      Calm x ⊎ (((nr ≡ 15) ⊎ (nr ≡ 16)) × HoldsPorts m.kernel (args.a0 % 65536) (args.a1 % 256))
