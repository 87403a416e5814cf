-- ===== src/Process/Isolation.antt =====
-- The invariant of the process table and of the CPU in Xernel/kernel/src/process.rs.
use xernel.Process.Switch.{
  pick_next, align_stack, activate, switch_context, switch_to, yield_now, block_on, wake_process,
  wake, ExitOutcome, runs_on, halted, finish, exit_inner,
}
use xernel.Prelude.{
  ◌==◌, Bool-cases, Option-cases, length, get_elem?-lt, get_elem?-exists, length-modify,
  get_elem?-modify, length-map, get_elem?-map, map-cases, ℕ, ◌<◌, ◌≡◌, refl, inl, inr, some, arith,
  modify-cases,
}
use xernel.Process.{
  BlockReason, ready, blocked, Process, Scheduler, Cpu, Core, process_at, update, on_sched,
  set_state,
}
use xernel.Process.Schedule.{pick_next-IsNext}

-- The CPU is set up for process `p`: its address space is active, and system calls and interrupts
-- enter on its own kernel stack.
pub record RunsAs (p : Process) (cpu : Cpu) : Type 0 where
  pub space : cpu.cr3 ≡ p.space
  pub syscall_stack : cpu.kernel_rsp ≡ align_stack p.kstack_top
  pub interrupt_stack : cpu.rsp0 ≡ p.kstack_top

-- A process has the place in the table that its PID says, and PIDs are handed out in order.
pub record IsValid (c : Core) : Type 0 where
  pub running : (p : Process) × (process_at c.sched c.sched.current ≡ some p) × RunsAs p c.cpu
  pub numbered : (i : ℕ) (p : Process) → process_at c.sched i ≡ some p → p.pid ≡ i
  pub counted : c.sched.next_pid ≡ length c.sched.procs

-- A change that keeps PIDs, spaces and stacks, in place.
abbrev pub SameIdentity : Process → Process → Type 0
SameIdentity p q = (q.pid ≡ p.pid) × (q.space ≡ p.space) × (q.kstack_top ≡ p.kstack_top)

pub RunsAs-same : (p q : Process) (cpu : Cpu) → SameIdentity p q → RunsAs p cpu → RunsAs q cpu
RunsAs-same p q cpu same r = record {
  space = ground arith;
  syscall_stack = ground arith;
  interrupt_stack = ground arith;
}

pub update-IsValid :
    (c : Core) (i : ℕ) (f : Process → Process)
    → ((p : Process) → SameIdentity p (f p))
    → IsValid c
    → IsValid (on_sched c (λ s. update s i f))
update-IsValid c i f keeps v = record {
  running =
      let (p, e, r) = v.running in
      let (q, e', changed) = get_elem?-modify c.sched.procs i c.sched.current f e in
      (q, e', RunsAs-same p q c.cpu (ground (arith, keeps p)) r);
  numbered = λ j q e.
      let (p, g, changed) = modify-cases c.sched.procs i j f e in
      ground (arith, v.numbered j p g, keeps p);
  counted = omega (arith, v.counted, length-modify c.sched.procs i f);
}

activate-running :
    (c : Core) (i : ℕ) (p : Process) → process_at c.sched i ≡ some p → RunsAs p (activate c i).0.cpu
unfolding activate
activate-running c i p e = record {
  space = ground arith;
  syscall_stack = ground arith;
  interrupt_stack = ground arith;
}

-- Making any process of the table current keeps the invariant.
pub activate-IsValid :
    (c : Core) (i : ℕ) → i < length c.sched.procs → IsValid c → IsValid (activate c i).0
unfolding activate
activate-IsValid c i h v = record {
  running =
      let (p, e) = get_elem?-exists c.sched.procs i h in
      (p, e, unfold activate in activate-running c i p e);
  numbered = v.numbered;
  counted = v.counted;
}

cpu_rsp-IsValid :
    (c : Core) (rsp : ℕ) → IsValid c → IsValid (record c { cpu = record (c.cpu) { rsp = rsp } })
cpu_rsp-IsValid c rsp v = record {
  running =
      let (p, e, r) = v.running in
      (
        p,
        e,
        record {
          space = r.space;
          syscall_stack = r.syscall_stack;
          interrupt_stack = r.interrupt_stack;
        },
      );
  numbered = v.numbered;
  counted = v.counted;
}

switch_to-IsValid :
    (c : Core) (next : ℕ) → next < length c.sched.procs → IsValid c → IsValid (switch_to c next)
unfolding switch_to switch_context
switch_to-IsValid c next h v =
    cpu_rsp-IsValid _ _
      (update-IsValid _ c.sched.current _ (λ p. (refl, refl, refl)) (activate-IsValid c next h v))

pick_next-lt :
    (s : Scheduler) (i : ℕ) → s.current < length s.procs → pick_next s ≡ some i → i < length s.procs
pick_next-lt s i h e = let (off, n) = pick_next-IsNext s i e in omega (arith, n.place)

current-lt : (c : Core) → IsValid c → c.sched.current < length c.sched.procs
current-lt c v = let (p, e, _) = v.running in get_elem?-lt c.sched.procs c.sched.current e

-- `yield_now` keeps the invariant: whoever runs afterwards runs in its own address space and on
-- its own kernel stacks.
pub yield_now-IsValid : (c : Core) → IsValid c → IsValid (yield_now c)
unfolding yield_now
yield_now-IsValid c v = elim (Option-cases (pick_next c.sched)) [
  | inl e ↦ rw (e, yield_now) v
  | inr (i, e) ↦
      let stays = switch_to-IsValid c i (pick_next-lt c.sched i (current-lt c v) e) v in
      elim (Bool-cases (i == c.sched.current)) [
        | inl same ↦ rw (e, yield_now) (rw same v)
        | inr other ↦ rw (e, yield_now) (rw other stays)
      ]
]

-- So does `block_on`, whether it switches or finds nobody to switch to.
pub block_on-IsValid : (c : Core) (reason : BlockReason) → IsValid c → IsValid (block_on c reason)
unfolding block_on
block_on-IsValid c reason v =
    let cur = c.sched.current in
    let parked = on_sched c (λ s. update s cur (set_state (blocked reason))) in
    let v' = update-IsValid c cur (set_state (blocked reason)) (λ p. (refl, refl, refl)) v in
    elim (Option-cases (pick_next parked.sched)) [
      | inl e ↦
          rw (e, block_on)
            (update-IsValid parked cur (set_state ready) (λ p. (refl, refl, refl)) v')
      | inr (i, e) ↦
          rw (e, block_on)
            (switch_to-IsValid parked i (pick_next-lt parked.sched i (current-lt parked v') e) v')
    ]

wake_process-SameIdentity :
    (reason : BlockReason) (p : Process) → SameIdentity p (wake_process reason p)
wake_process-SameIdentity reason p = ground arith

pub wake-IsValid : (c : Core) (reason : BlockReason) → IsValid c → IsValid (wake c reason)
unfolding wake
wake-IsValid c reason v = record {
  running =
      let (p, e, r) = v.running in
      (
        wake_process reason p,
        get_elem?-map (wake_process reason) c.sched.procs c.sched.current e,
        RunsAs-same p (wake_process reason p) c.cpu (wake_process-SameIdentity reason p) r,
      );
  numbered = λ i q e.
      let (p, g, same) = map-cases (wake_process reason) c.sched.procs i e in
      ground (arith, v.numbered i p g, wake_process-SameIdentity reason p);
  counted = omega (arith, v.counted, length-map (wake_process reason) c.sched.procs);
}

-- The state that an exit leaves, running on or halted.
abbrev pub core_of : ExitOutcome → Core
core_of (runs_on c) = c
core_of (halted c) = c

pub exit_inner-IsValid : (c : Core) (code : ℕ) → IsValid c → IsValid (core_of (exit_inner c code))
unfolding exit_inner
exit_inner-IsValid c code v =
    let dead = on_sched c (λ s. update s s.current (finish code)) in
    let v' = update-IsValid c c.sched.current (finish code) (λ p. (refl, refl, refl)) v in
    elim (Option-cases (pick_next dead.sched)) [
      | inl e ↦ rw (e, exit_inner) v'
      | inr (i, e) ↦
          rw (e, exit_inner)
            (cpu_rsp-IsValid _ _
              (activate-IsValid dead i (pick_next-lt dead.sched i (current-lt dead v') e) v'))
    ]
