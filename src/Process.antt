-- ===== src/Process.antt =====
-- The state of Xernel/kernel/src/process.rs: processes, the scheduler, and the part of the CPU
-- that a switch of processes writes. The scheduler is there from `run` on, before any system call.
pub mod Switch
pub mod Schedule
pub mod Isolation
pub mod Blocking
pub mod Control
pub mod Numbers
pub mod Log
pub mod Terminal
pub mod Touches
pub mod Steps
pub mod Lifetime
pub mod Revival
pub mod Fairness
mod Tests
use xernel.Prelude.{modify, ◌==◌, get_elem?, ℕ, Bool, true, false, Option, none, some, List}
use xernel.Cap.Node.{CNode}

abbrev pub page : ℕ
page = 4096

-- A blocked process waits for a message of an endpoint, or for bits of a notification.
pub data BlockReason : Type 0 where
  on_endpoint on_notification : ℕ → BlockReason

pub data State : Type 0 where
  ready : State
  blocked : BlockReason → State
  done : State

-- The memory of the kernel stack has no field: only its top and the saved pointer into it.
pub record Process : Type 0 where
  pub pid : ℕ
  pub space : ℕ
  pub entry : ℕ
  pub user_stack_top : ℕ
  pub heap_break : ℕ
  pub ksp : ℕ
  pub kstack_top : ℕ
  pub state : State
  pub caps : CNode
  pub envp_user : ℕ
  pub envp_len : ℕ
  pub log_buf : List ℕ
  pub exit_code : ℕ

pub record Scheduler : Type 0 where
  pub procs : List Process
  pub current : ℕ
  pub next_pid : ℕ

-- `kernel_rsp` is the stack of system calls, `rsp0` that of interrupts, `cr3` the active address
-- space, and `rsp` the stack pointer of the running kernel thread.
pub record Cpu : Type 0 where
  pub kernel_rsp : ℕ
  pub rsp0 : ℕ
  pub cr3 : ℕ
  pub rsp : ℕ

pub record Core : Type 0 where
  pub sched : Scheduler
  pub cpu : Cpu

abbrev pub same_reason : BlockReason → BlockReason → Bool
same_reason (on_endpoint a) (on_endpoint b) = a == b
same_reason (on_notification a) (on_notification b) = a == b
same_reason (on_endpoint a) (on_notification b) = false
same_reason (on_notification a) (on_endpoint b) = false

-- `state == State::Ready`, `state == State::Done` and `state == State::Blocked(reason)`.
abbrev pub is_ready : State → Bool
is_ready ready = true
is_ready (blocked r) = false
is_ready done = false

abbrev pub is_done : State → Bool
is_done ready = false
is_done (blocked r) = false
is_done done = true

abbrev pub is_blocked_on : BlockReason → State → Bool
is_blocked_on reason ready = false
is_blocked_on reason (blocked r) = same_reason r reason
is_blocked_on reason done = false

abbrev pub process_at : Scheduler → ℕ → Option Process
process_at s i = get_elem? s.procs i

abbrev pub ready_at : List Process → ℕ → Bool
ready_at procs i = elim (get_elem? procs i) [ none ↦ false | some p ↦ is_ready p.state ]

-- `s.procs[i]` updated in place. The source panics out of range, which `IsValid` rules out.
abbrev pub update : Scheduler → ℕ → (Process → Process) → Scheduler
update s i f = record s { procs = modify s.procs i f }

abbrev pub on_sched : Core → (Scheduler → Scheduler) → Core
on_sched c f = record c { sched = f c.sched }

abbrev pub set_state : State → Process → Process
set_state st p = record p { state = st }
