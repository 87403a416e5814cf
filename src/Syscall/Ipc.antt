-- ===== src/Syscall/Ipc.antt =====
-- The system calls of Xernel/kernel/src/syscall.rs that move messages, capabilities and signals
-- between processes, with the accessors of Xernel/kernel/src/process.rs that they use.
use xernel.Prelude.{
  le_bytes, ◌==◌, if◌then◌else◌, u64_max, ℕ, Bool, true, false, Option, none, some, List,
}
use xernel.Cap.{
  CapType, endpoint, notification, same_type, invalid_cap, Result, err, to_option, CapEntry,
  process_pid,
}
use xernel.Cap.Node.{get}
use xernel.Ipc.Endpoint.{Endpoint, Message, queue_at}
use xernel.Process.{Core, Process, on_endpoint, on_notification, process_at}
use xernel.Process.Switch.{block_on, wake}
use xernel.Process.Control.{current_cap_install, get_status, kill, grant_to}
use xernel.Syscall.{Kernel, user_slice_mut, store_bytes}
use xernel.Ipc.Endpoint
use xernel.Ipc.Notification

abbrev pub cap_in : Option Process → ℕ → Result CapEntry
cap_in none slot = err invalid_cap
cap_in (some p) slot = get p.caps slot

abbrev pub running : Core → Option Process
running c = process_at c.sched c.sched.current

-- `current_cap_get`.
abbrev pub current_cap_get : Core → ℕ → Option CapEntry
current_cap_get c slot = to_option (cap_in (running c) slot)

abbrev pub object_of : CapType → Option CapEntry → Option ℕ
object_of ty none = none
object_of ty (some c) = if same_type c.cap_type ty then some c.object else none

unfoldable pub current_endpoint_id : Core → ℕ → Option ℕ
current_endpoint_id c slot = object_of endpoint (current_cap_get c slot)

unfoldable pub current_notification_id : Core → ℕ → Option ℕ
current_notification_id c slot = object_of notification (current_cap_get c slot)

abbrev pub pid_of : Option CapEntry → Option ℕ
pid_of none = none
pid_of (some c) = process_pid c

unfoldable pub current_process_pid : Core → ℕ → Option ℕ
current_process_pid c slot = pid_of (current_cap_get c slot)

abbrev pub space_of : Option Process → ℕ
space_of none = 0
space_of (some p) = p.space

abbrev pub with_core : Kernel → Core → Kernel
with_core k c = record k { core = c }

-- The capability that a send grants: none asked for, one, or one that is not there.
abbrev pub granted : Core → ℕ → Option (Option CapEntry)
granted c cap_slot =
    if cap_slot == u64_max
    then some none
    else elim (current_cap_get c cap_slot) [ none ↦ none | some cp ↦ some (some cp) ]

abbrev pub sent : Kernel → ℕ → Bool × List Endpoint → ℕ × Kernel
sent k id (true, eps) = (0, record k { endpoints = eps; core = wake k.core (on_endpoint id) })
sent k id (false, eps) = (u64_max, k)

abbrev pub send_to : Kernel → ℕ → ℕ → Option (Option CapEntry) → ℕ × Kernel
send_to k id word none = (u64_max, k)
send_to k id word (some cap) = sent k id (Endpoint.send k.endpoints id word cap)

unfoldable pub sys_send : Kernel → ℕ → ℕ → ℕ → ℕ × Kernel
unfolding current_endpoint_id
sys_send k ep_slot word cap_slot = elim (current_endpoint_id k.core ep_slot) [
  | none ↦ (u64_max, k)
  | some id ↦ send_to k id word (granted k.core cap_slot)
]

-- What one round of a call that may wait comes to: an answer, or that the process has blocked.
pub data Round : Type 0 where
  answers : ℕ → Kernel → Round
  waits : Kernel → Round

-- Whether the capability of a message could be taken in, and the state then.
abbrev pub take_in : Core → Option CapEntry → ℕ → Bool × Core
take_in c none dst_slot = (true, c)
take_in c (some cp) dst_slot =
    if dst_slot == u64_max then (true, c) else current_cap_install c dst_slot cp

-- The message word goes to the buffer of the receiver, if that is one.
abbrev pub written : Kernel → ℕ → ℕ → Bool → ℕ × Kernel
written k out_ptr word false = (u64_max, k)
written k out_ptr word true = (
  0,
  record k {
    memory = store_bytes k.tables (space_of (running k.core)) k.memory out_ptr (le_bytes 8 word);
  },
)

abbrev pub write_word : Kernel → ℕ → ℕ → ℕ × Kernel
write_word k out_ptr word =
    written k out_ptr word (user_slice_mut k.tables (space_of (running k.core)) out_ptr 8)

abbrev pub answer : ℕ × Kernel → Round
answer (status, k) = answers status k

abbrev pub took_in : Kernel → ℕ → ℕ → Bool × Core → Round
took_in k out_ptr word (true, c) = answer (write_word (with_core k c) out_ptr word)
took_in k out_ptr word (false, c) = answers u64_max k

abbrev pub received : Kernel → ℕ → ℕ → ℕ → Option Message × List Endpoint → Round
received k id out_ptr dst_slot (none, eps) = waits (with_core k (block_on k.core (on_endpoint id)))
received k id out_ptr dst_slot (some (word, cap), eps) =
    let left = record k { endpoints = eps } in
    took_in left out_ptr word (take_in left.core cap dst_slot)

-- The tests of `sys_recv` and one round of its loop.
unfoldable pub sys_recv : Kernel → ℕ → ℕ → ℕ → Round
unfolding current_endpoint_id
sys_recv k ep_slot out_ptr dst_slot = elim (current_endpoint_id k.core ep_slot) [
  | none ↦ answers u64_max k
  | some id ↦ received k id out_ptr dst_slot (Endpoint.try_recv k.endpoints id)
]

abbrev pub signalled : Kernel → ℕ → Bool × List ℕ → ℕ × Kernel
signalled k id (true, words) =
    (0, record k { notifications = words; core = wake k.core (on_notification id) })
signalled k id (false, words) = (u64_max, k)

unfoldable pub sys_signal : Kernel → ℕ → ℕ → ℕ × Kernel
unfolding current_notification_id
sys_signal k notif_slot bits = elim (current_notification_id k.core notif_slot) [
  | none ↦ (u64_max, k)
  | some id ↦ signalled k id (Notification.signal k.notifications id bits)
]

abbrev pub polled : Kernel → ℕ → Option ℕ × List ℕ → Round
polled k id (none, words) = waits (with_core k (block_on k.core (on_notification id)))
polled k id (some bits, words) = answers bits (record k { notifications = words })

-- The tests of `sys_wait` and one round of its loop.
unfoldable pub sys_wait : Kernel → ℕ → Round
unfolding current_notification_id
sys_wait k notif_slot = elim (current_notification_id k.core notif_slot) [
  | none ↦ answers 0 k
  | some id ↦ polled k id (Notification.poll_take k.notifications id)
]

abbrev pub status_and : Kernel → ℕ × Core → ℕ × Kernel
status_and k (status, c) = (status, with_core k c)

unfoldable pub sys_kill : Kernel → ℕ → ℕ → ℕ × Kernel
unfolding current_process_pid
sys_kill k proc_slot signal = elim (current_process_pid k.core proc_slot) [
  | none ↦ (u64_max, k)
  | some pid ↦ status_and k (kill k.core pid signal)
]

unfoldable pub sys_get_status : Kernel → ℕ → ℕ
unfolding current_process_pid
sys_get_status k proc_slot = elim (current_process_pid k.core proc_slot) [
  | none ↦ u64_max
  | some pid ↦ get_status k.core.sched pid
]

abbrev pub grant_status : Kernel → Bool × Core → ℕ × Kernel
grant_status k (true, c) = (0, with_core k c)
grant_status k (false, c) = (u64_max, k)

abbrev pub grant_cap : Kernel → ℕ → ℕ → Option CapEntry → ℕ × Kernel
grant_cap k pid dst_slot none = (u64_max, k)
grant_cap k pid dst_slot (some cp) = grant_status k (grant_to k.core pid cp dst_slot)

unfoldable pub sys_cap_grant : Kernel → ℕ → ℕ → ℕ → ℕ × Kernel
unfolding current_process_pid
sys_cap_grant k proc_slot src_slot dst_slot = elim (current_process_pid k.core proc_slot) [
  | none ↦ (u64_max, k)
  | some pid ↦ grant_cap k pid dst_slot (current_cap_get k.core src_slot)
]
