-- ===== src/Calls.antt =====
-- The system calls of Xernel/kernel/src/syscall.rs on the console, the ports and the caller's own
-- state. What the hardware answers is a parameter.
pub mod Dispatch
pub mod Ports
mod Tests
use xernel.Prelude.{
  if◌then◌else◌, ◌==◌, length, u64_max, mul64, le_bytes, ℕ, zero, suc, ◌+◌, min, Bool, true, false,
  ◌||◌, Option, none, some, List, [], ◌∷◌, ◌++◌,
}
use xernel.Cap.{CapEntry, authorizes_port, describe}
use xernel.Cap.Node.{len, slot}
use xernel.Frame.{frame_size, stats}
use xernel.Process.{Core}
use xernel.Process.Control.{wait_round, log_write, log_read}
use xernel.Process.Switch.{yield_now}
use xernel.Syscall.{Kernel, user_slice, user_slice_mut, store_bytes}
use xernel.Syscall.Ipc.{
  running, current_cap_get, current_process_pid, space_of, with_core, Round, answers, waits,
}
use xernel.Syscall.Memory.{MapPage, caps_of, put_words}
use xernel.Spawn.Env.{load_byte}
use xernel.Spawn.Heap.{current_getenvp}
use xernel.Keyboard.{Ring, read_nb, read_round}
use xernel.Keyboard
use xernel.Cap.Node

-- The devices behind the ports, the boot image, and where the heap puts kernel stacks. The
-- framebuffer is five numbers, if there is one.
pub record Platform : Type 1 where
  pub Dev : Type 0
  pub map_to : MapPage
  pub map_device : MapPage
  pub image : Option (List ℕ)
  pub stack_end : ℕ → ℕ
  pub framebuffer : Option (List ℕ)
  pub ticks : Dev → ℕ
  pub pci_read : Dev → ℕ → ℕ → ℕ → ℕ → ℕ × Dev
  pub port_in : Dev → ℕ → ℕ → ℕ × Dev
  pub port_out : Dev → ℕ → ℕ → ℕ → Dev

-- The caller's bytes from an address on.
unfoldable pub load_bytes : Kernel → ℕ → ℕ → List ℕ
load_bytes k ptr zero = []
load_bytes k ptr (suc len) = load_byte k ptr ∷ load_bytes k (ptr + 1) len

abbrev pub readable : Kernel → ℕ → ℕ → Bool
readable k ptr len = user_slice k.tables (space_of (running k.core)) ptr len

abbrev pub is_console : ℕ → Bool
is_console fd = fd == 1 || fd == 2

-- The status, the bytes for the serial console, and the kernel.
unfoldable pub sys_write : Kernel → ℕ → ℕ → ℕ → ℕ × List ℕ × Kernel
unfolding load_bytes log_write user_slice
sys_write k fd ptr len =
    if readable k ptr len
    then (
      len,
      load_bytes k ptr len,
      if is_console fd then with_core k (log_write k.core (load_bytes k ptr len)) else k,
    )
    else (u64_max, [], k)

abbrev pub writable_at : Kernel → ℕ → ℕ → Bool
writable_at k ptr len = user_slice_mut k.tables (space_of (running k.core)) ptr len

-- `bytes` written at the start of a buffer of the caller.
abbrev pub put_bytes : Kernel → ℕ → List ℕ → Kernel
put_bytes k ptr bytes = record k {
  memory = store_bytes k.tables (space_of (running k.core)) k.memory ptr bytes;
}

abbrev typed : Kernel → ℕ → List ℕ × Ring → ℕ × Kernel × Ring
typed k ptr (bytes, keys) = (length bytes, put_bytes k ptr bytes, keys)

unfoldable pub sys_read_nb : Kernel → Ring → ℕ → ℕ → ℕ × Kernel × Ring
unfolding read_nb user_slice_mut
sys_read_nb k keys ptr len =
    if writable_at k ptr len then typed k ptr (read_nb keys len) else (u64_max, k, keys)

abbrev typed_round : Kernel → ℕ → Option (List ℕ) × Ring → Option (ℕ × Kernel × Ring)
typed_round k ptr (none, keys) = none
typed_round k ptr (some bytes, keys) = some (length bytes, put_bytes k ptr bytes, keys)

-- One round of `sys_read`, which goes on waiting when there is no answer.
unfoldable pub sys_read : Kernel → Ring → ℕ → ℕ → Option (ℕ × Kernel × Ring)
unfolding read_round user_slice_mut
sys_read k keys ptr len =
    if writable_at k ptr len
    then typed_round k ptr (read_round keys len)
    else some (u64_max, k, keys)

abbrev pub status_of_put : Bool × Kernel → ℕ × Kernel
status_of_put (true, k) = (0, k)
status_of_put (false, k) = (u64_max, k)

abbrev pub words : List ℕ → List ℕ
words [] = []
words (x ∷ xs) = le_bytes 8 x ++ words xs

unfoldable pub sys_fb_info : Kernel → Option (List ℕ) → ℕ → ℕ × Kernel
sys_fb_info k info ptr = elim info [
  | none ↦ (u64_max, k)
  | some values ↦ status_of_put (put_words k ptr (words values))
]

abbrev described : Option CapEntry → Option (ℕ × ℕ × ℕ)
described none = none
described (some c) = some (describe c)

unfoldable pub current_cap_describe : Core → ℕ → Option (ℕ × ℕ × ℕ)
current_cap_describe c slot = described (current_cap_get c slot)

unfoldable pub sys_cap_identify : Kernel → ℕ → ℕ → ℕ × Kernel
unfolding current_cap_describe
sys_cap_identify k slot out_ptr = elim (current_cap_describe k.core slot) [
  | none ↦ (u64_max, k)
  | some (ty, a, b) ↦ status_of_put (put_words k out_ptr (words (ty ∷ a ∷ b ∷ [])))
]

unfoldable pub sys_getenvp : Kernel → ℕ → ℕ × Kernel
sys_getenvp k out_ptr =
    let (envp, len) = current_getenvp k.core in
    status_of_put (put_words k out_ptr (words (envp ∷ len ∷ [])))

-- The keys 0, 1 and 2: all of the memory, what is used of it, and the size of a frame.
unfoldable pub sysinfo : Kernel → ℕ → ℕ
unfolding stats
sysinfo k which =
    let (used_frames, total_frames) = stats k.frames in
    if which == 0
    then mul64 total_frames frame_size
    else if which == 1
    then mul64 used_frames frame_size
    else if which == 2
    then frame_size
    else u64_max

abbrev log_put : Kernel → ℕ → List ℕ × Core → ℕ × Kernel
log_put k out_ptr (bytes, c) = (length bytes, put_bytes (with_core k c) out_ptr bytes)

unfoldable pub sys_log_read : Kernel → ℕ → ℕ → ℕ → ℕ × Kernel
unfolding current_process_pid log_read user_slice_mut
sys_log_read k proc_slot out_ptr limit = elim (current_process_pid k.core proc_slot) [
  | none ↦ (u64_max, k)
  | some pid ↦
      let len = min limit 65536 in
      if writable_at k out_ptr len
      then log_put k out_ptr (log_read k.core pid len)
      else (u64_max, k)
]

-- One round of `sys_wait_pid`.
abbrev waited : Kernel → Option ℕ → Round
waited k (some code) = answers code k
waited k none = waits (with_core k (yield_now k.core))

unfoldable pub sys_wait_pid : Kernel → ℕ → Round
unfolding current_process_pid wait_round yield_now
sys_wait_pid k proc_slot = elim (current_process_pid k.core proc_slot) [
  | none ↦ answers u64_max k
  | some pid ↦ waited k (wait_round k.core.sched pid)
]

unfoldable pub current_authorizes_port : Core → ℕ → ℕ → Bool
unfolding Node.authorizes_port
current_authorizes_port c port size = Node.authorizes_port (caps_of (running c)) port size

module _ (p : Platform) where
  unfoldable pub sys_port_in : Kernel → p.Dev → ℕ → ℕ → ℕ × p.Dev
  unfolding current_authorizes_port
  sys_port_in k dev port size =
      if current_authorizes_port k.core port size then p.port_in dev port size else (u64_max, dev)

  unfoldable pub sys_port_out : Kernel → p.Dev → ℕ → ℕ → ℕ → ℕ × p.Dev
  unfolding current_authorizes_port
  sys_port_out k dev port size value =
      if current_authorizes_port k.core port size
      then (0, p.port_out dev port size value)
      else (u64_max, dev)
