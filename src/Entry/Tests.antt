-- ===== src/Entry/Tests.antt =====
-- The stubs of Xernel/kernel/src/arch/x86_64 on a process that makes a system call and is preempted.
use xernel.Entry.Faults.{fatal, Vector, ended, panicked, handle, handle-contained}
use xernel.Prelude.{
  modify, ◌==◌, if◌then◌else◌, ℕ, ◌+◌, ◌*◌, ◌%◌, ◌<◌, ◌≡◌, refl, ◌≢◌, ◌⊎◌, true, false, none, [],
  ◌∷◌, arith,
}
use xernel.Entry.{
  gs_force_kernel, Processor, rax, rdx, rbx, rsi, rdi, r8, r9, r10, put, Handler, timer_isr,
  interrupt,
}
use xernel.Process.{State, ready, blocked, Process, Core, on_endpoint}
use xernel.Process.Switch.{finish, exit_fault, fault_exit}
use xernel.Process.Isolation.{core_of}
use xernel.Entry.Syscall.{IsKernel, system_call, syscall_entry-restores}
use xernel.Entry.Timer.{IsPreempt, timer_isr-restores}
use xernel.Entry.Bases.{enter_user, Mode, GsStep, GsReach, GsReach-Balanced}

-- The scratch area is at 0x9000, above a kernel stack that ends there.
abbrev process : Processor
process = record {
  regs = λ r. 100 + r;
  rsp = 0x7000;
  rip = 0x4000;
  rflags = 0x202;
  user = true;
  gs_base = 0;
  kernel_gs_base = 0x9000;
  mem = λ x. if x == 0x9000 then 0x9000 else 0;
}

-- A kernel that answers with the number, and runs another process in between, which leaves its stack
-- pointer in the scratch area.
abbrev the_kernel : Handler
the_kernel nr args c = (nr, record c { mem = put c.mem (c.rsp + 88) 7; regs = λ r. 0 })

beyond : (m : ℕ → ℕ) (sp v x n : ℕ) → x < sp + n → put m (sp + n) v x ≡ m x
beyond m sp v x n h = let differ : (x == sp + n) ≡ false = ground arith in rw differ refl

the_kernel-IsKernel : IsKernel the_kernel
the_kernel-IsKernel = record {
  keeps_rsp = λ nr args c. refl;
  keeps_gs = λ nr args c. refl;
  keeps_kernel_gs = λ nr args c. refl;
  keeps_frame = λ nr args c x low high. beyond c.mem c.rsp 7 x 88 (omega arith);
}

syscall_entry-restores_example :
    ((system_call the_kernel 0x1000 process).regs rax ≡ 100)
    × ((system_call the_kernel 0x1000 process).regs rdi ≡ 107)
    × ((system_call the_kernel 0x1000 process).regs rsi ≡ 106)
    × ((system_call the_kernel 0x1000 process).regs rdx ≡ 102)
    × ((system_call the_kernel 0x1000 process).regs r10 ≡ 110)
    × ((system_call the_kernel 0x1000 process).regs r8 ≡ 108)
    × ((system_call the_kernel 0x1000 process).regs r9 ≡ 109)
    × ((system_call the_kernel 0x1000 process).rsp ≡ 0x7000)
    × ((system_call the_kernel 0x1000 process).rip ≡ 0x4000)
    × ((system_call the_kernel 0x1000 process).rflags ≡ 0x202)
    × ((system_call the_kernel 0x1000 process).user ≡ true)
    × ((system_call the_kernel 0x1000 process).gs_base ≡ 0)
    × ((system_call the_kernel 0x1000 process).kernel_gs_base ≡ 0x9000)
syscall_entry-restores_example =
    syscall_entry-restores the_kernel the_kernel-IsKernel 0x1000 process (omega arith) (omega arith)
      (omega arith)

-- Another process runs and uses the other registers.
abbrev elsewhere : Processor → Processor
elsewhere c = record c { mem = put c.mem (c.rsp + 160) 7; regs = λ r. 0 }

elsewhere-IsPreempt : IsPreempt elsewhere
elsewhere-IsPreempt = record {
  keeps_rsp = λ c. refl;
  keeps_gs = λ c. refl;
  keeps_kernel_gs = λ c. refl;
  keeps_stack = λ c x low high. beyond c.mem c.rsp 7 x 160 high;
}

abbrev resumed_process : Processor
resumed_process = timer_isr (λ c. c) elsewhere (interrupt 0x8000 0x33 0x2b 0x2000 process)

timer_isr-restores_example :
    (resumed_process.regs rbx ≡ 103)
    × (resumed_process.rsp ≡ 0x7000)
    × (resumed_process.rip ≡ 0x4000)
    × (resumed_process.rflags ≡ 0x202)
    × (resumed_process.user ≡ true)
    × (resumed_process.gs_base ≡ 0)
    × (resumed_process.kernel_gs_base ≡ 0x9000)
timer_isr-restores_example =
    timer_isr-restores elsewhere elsewhere-IsPreempt (λ c. c) 0x8000 0x33 0x2b 0x2000 process
      (omega arith) (omega arith) refl rbx refl

-- Three processes.
abbrev faulty : ℕ → State → Process
faulty pid st = record {
  pid = pid;
  space = 0x10_0000 + pid * 4096;
  entry = 0x40_0000;
  user_stack_top = 0x80_fff8;
  heap_break = 0x1000_0000;
  ksp = 0x9000 + pid * 0x8000;
  kstack_top = 0xa008 + pid * 0x8000;
  state = st;
  caps = record { slots = none ∷ [] };
  envp_user = 0;
  envp_len = 0;
  log_buf = 7 ∷ 8 ∷ [];
  exit_code = 0;
}

abbrev faulty_system : Core
faulty_system = record {
  sched = record {
    procs = faulty 0 ready ∷ faulty 1 ready ∷ faulty 2 (blocked (on_endpoint 0)) ∷ [];
    current = 1;
    next_pid = 3;
  };
  cpu = record { kernel_rsp = 0x1_2000; rsp0 = 0x1_2008; cr3 = 0x10_1000; rsp = 0x1_1f00 };
}

handle-contained_example :
    ((0x33 % 4 ≡ 3)
      × (handle Vector.gpf 0x9000 0x33 process faulty_system
          ≡ ended
              (record process { gs_base = 0x9000; kernel_gs_base = 0 })
              (fault_exit faulty_system))
      × ((core_of (fault_exit faulty_system)).sched.procs
          ≡ modify faulty_system.sched.procs 1 (finish exit_fault)))
    ⊎ ((0x33 % 4 ≢ 3) × (handle Vector.gpf 0x9000 0x33 process faulty_system ≡ panicked))
handle-contained_example = handle-contained Vector.gpf 0x9000 0x33 process faulty_system refl

-- A process faults, is killed, and another one is entered for the first time.
abbrev entered_first : Processor
entered_first = enter_user 0x9000 0x4000 0x7000 process

abbrev at_fault_of : Processor → Processor
at_fault_of c = interrupt 0x8000 0x33 0x2b 0x2000 c

abbrev killed_at : Processor → Processor
killed_at c = record c { gs_base = 0x9000; kernel_gs_base = 0 }

GsReach-Balanced_example :
    ((killed_at (at_fault_of entered_first)).gs_base ≡ 0x9000)
    × ((killed_at (at_fault_of entered_first)).kernel_gs_base ≡ 0)
unfolding handle fatal gs_force_kernel
GsReach-Balanced_example =
    GsReach-Balanced 0x9000 Mode.at_kernel (killed_at (at_fault_of entered_first)) (
      GsReach.onward Mode.at_fault Mode.at_kernel (at_fault_of entered_first)
        (killed_at (at_fault_of entered_first))
        (GsReach.onward Mode.at_user Mode.at_fault entered_first (at_fault_of entered_first)
          (GsReach.booted 0x4000 0x7000 process)
          (GsStep.faults 0x8000 0x33 0x2b 0x2000 entered_first))
        (GsStep.killed Vector.gpf 0x33 (at_fault_of entered_first)
          (killed_at (at_fault_of entered_first)) faulty_system (fault_exit faulty_system) refl))
