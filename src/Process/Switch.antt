-- ===== src/Process/Switch.antt =====
-- Choosing a process and switching to it: `pick_next`, `activate`, `yield_now`, `block_on`,
-- `wake` and `exit_inner` of Xernel/kernel/src/process.rs, with `set_kernel_stack` and `switch`
-- of Xernel/kernel/src/arch/x86_64.
use xernel.Prelude.{
  ◌==◌, if◌then◌else◌, length, add64, sub64, ℕ, zero, suc, ◌+◌, ◌*◌, ◌/◌, ◌%◌, Option, none, some,
  List, map,
}
use xernel.Process.{
  BlockReason, ready, blocked, done, Process, Scheduler, Cpu, Core, is_blocked_on, process_at,
  ready_at, update, on_sched, set_state,
}

-- `(1..=n).map(|off| (current + off) % n).find(..)` from an offset on, with the rounds left.
unfoldable pub find_ready : List Process → ℕ → ℕ → ℕ → Option ℕ
find_ready procs current off zero = none
find_ready procs current off (suc rounds) =
    let rest = find_ready procs current (off + 1) rounds in
    let i = (current + off) % length procs in if ready_at procs i then some i else rest

unfoldable pub pick_next : Scheduler → Option ℕ
unfolding find_ready
pick_next s = find_ready s.procs s.current 1 (length s.procs)

-- `top & !0xf`.
abbrev pub align_stack : ℕ → ℕ
align_stack top = top / 16 * 16

abbrev pub set_kernel_stack : Cpu → ℕ → Cpu
set_kernel_stack cpu top = record cpu { kernel_rsp = align_stack top; rsp0 = top }

abbrev pub vspace_switch : Cpu → ℕ → Cpu
vspace_switch cpu space = record cpu { cr3 = space }

-- The CPU as `activate` leaves it for the process at an index.
abbrev pub run_on : Option Process → Cpu → Cpu
run_on none cpu = cpu
run_on (some p) cpu = vspace_switch (set_kernel_stack cpu p.kstack_top) p.space

abbrev pub ksp_of : Option Process → ℕ
ksp_of none = 0
ksp_of (some p) = p.ksp

-- The new state and the saved stack pointer of the process made current.
unfoldable pub activate : Core → ℕ → Core × ℕ
activate c i = (
  record c { sched = record (c.sched) { current = i }; cpu = run_on (process_at c.sched i) c.cpu },
  ksp_of (process_at c.sched i),
)

-- `switch`: the call and six pushes leave the old stack pointer 56 bytes lower, where it is saved;
-- six pops and the return leave the new one 56 bytes higher.
unfoldable pub switch_context : Core → ℕ → ℕ → Core
switch_context c prev next_rsp = record c {
  sched = update c.sched prev (λ p. record p { ksp = sub64 c.cpu.rsp 56 });
  cpu = record (c.cpu) { rsp = add64 next_rsp 56 };
}

-- The switch away from a context that nobody resumes.
abbrev pub switch_away : Core → ℕ → Core
switch_away c next_rsp = record c { cpu = record (c.cpu) { rsp = add64 next_rsp 56 } }

unfoldable pub switch_to : Core → ℕ → Core
unfolding activate switch_context
switch_to c next =
    let (c', next_ksp) = activate c next in switch_context c' c.sched.current next_ksp

unfoldable pub yield_now : Core → Core
unfolding pick_next switch_to
yield_now c = elim (pick_next c.sched) [
  | none ↦ c
  | some next ↦ if next == c.sched.current then c else switch_to c next
]

unfoldable pub block_on : Core → BlockReason → Core
unfolding pick_next switch_to
block_on c reason =
    let cur = c.sched.current in
    let parked = on_sched c (λ s. update s cur (set_state (blocked reason))) in
    elim (pick_next parked.sched) [
      | none ↦ on_sched parked (λ s. update s cur (set_state ready))
      | some next ↦ switch_to parked next
    ]

abbrev pub wake_process : BlockReason → Process → Process
wake_process reason p = if is_blocked_on reason p.state then set_state ready p else p

unfoldable pub wake : Core → BlockReason → Core
wake c reason = on_sched c (λ s. record s { procs = map (wake_process reason) s.procs })

-- What `exit_inner` leads to: the next process, or a machine that halts.
pub data ExitOutcome : Type 0 where
  runs_on : Core → ExitOutcome
  halted : Core → ExitOutcome

abbrev pub finish : ℕ → Process → Process
finish code p = record p { exit_code = code; state = done }

abbrev pub exit_fault : ℕ
exit_fault = 0x100

unfoldable pub exit_inner : Core → ℕ → ExitOutcome
unfolding pick_next activate
exit_inner c code =
    let dead = on_sched c (λ s. update s s.current (finish code)) in
    elim (pick_next dead.sched) [
      | none ↦ halted dead
      | some next ↦ let (c', ksp) = activate dead next in runs_on (switch_away c' ksp)
    ]

-- `fault_exit`: the end of a process that took a fatal exception in ring 3.
abbrev pub fault_exit : Core → ExitOutcome
fault_exit c = exit_inner c exit_fault
