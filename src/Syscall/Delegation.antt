-- ===== src/Syscall/Delegation.antt =====
-- Capabilities spread only by delegation: what the system calls of Xernel/kernel/src/syscall.rs
-- that move messages, capabilities and signals can do to the authority in the system.
use xernel.Prelude.{ℕ}
use xernel.Syscall.Ipc.{
  with_core, sys_send, sys_recv, sys_signal, sys_wait, sys_kill, sys_cap_grant,
}
use xernel.Syscall.{Kernel}
use xernel.Cap.{CapEntry}
use xernel.Process.Switch.{yield_now}
use xernel.Syscall.Confinement.{yield_now-KeepsCaps}
use xernel.Syscall.Keeps.{
  Known, state_after, Keeps, with_core-Keeps, sys_send-Keeps, sys_recv-Keeps, sys_signal-Keeps,
  sys_wait-Keeps, sys_kill-Keeps, sys_cap_grant-Keeps,
}

-- One system call by the process that runs, with any arguments.
pub data Step (k : Kernel) : Kernel → Type 0 where
  sends : (ep_slot word cap_slot : ℕ) → Step k (sys_send k ep_slot word cap_slot).1
  receives :
      (ep_slot out_ptr dst_slot : ℕ) → Step k (state_after (sys_recv k ep_slot out_ptr dst_slot))
  signals : (notif_slot bits : ℕ) → Step k (sys_signal k notif_slot bits).1
  awaits : (notif_slot : ℕ) → Step k (state_after (sys_wait k notif_slot))
  kills : (proc_slot signal : ℕ) → Step k (sys_kill k proc_slot signal).1
  grants :
      (proc_slot src_slot dst_slot : ℕ) → Step k (sys_cap_grant k proc_slot src_slot dst_slot).1
  yields : Step k (with_core k (yield_now k.core))

pub data Reach (k : Kernel) : Kernel → Type 0 where
  here : Reach k k
  next : {l m : Kernel} → Reach k l → Step l m → Reach k m

Step-Keeps : (k l : Kernel) → Step k l → Keeps k l
Step-Keeps k _ (sends ep_slot word cap_slot) = sys_send-Keeps k ep_slot word cap_slot
Step-Keeps k _ (receives ep_slot out_ptr dst_slot) = sys_recv-Keeps k ep_slot out_ptr dst_slot
Step-Keeps k _ (signals notif_slot bits) = sys_signal-Keeps k notif_slot bits
Step-Keeps k _ (awaits notif_slot) = sys_wait-Keeps k notif_slot
Step-Keeps k _ (kills proc_slot signal) = sys_kill-Keeps k proc_slot signal
Step-Keeps k _ (grants proc_slot src_slot dst_slot) =
    sys_cap_grant-Keeps k proc_slot src_slot dst_slot
Step-Keeps k _ yields = with_core-Keeps k (yield_now k.core) (yield_now-KeepsCaps k.core)

-- Authority is confined: whatever the processes send, receive, signal, await, kill, grant and
-- yield, in any order and with any arguments, every capability that a process holds or that a
-- message carries at the end was held by a process or carried by a message at the start: none is
-- forged.
pub Reach-Known : (k l : Kernel) (cp : CapEntry) → Reach k l → Known l cp → Known k cp
unfolding Keeps
Reach-Known k l cp here h = h
Reach-Known k l cp (next {l = m} r s) h = Reach-Known k m cp r (Step-Keeps m l s cp h)
