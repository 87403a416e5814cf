-- ===== src/Entry/Bases.antt =====
-- The pair of GS bases of Xernel/kernel/src/arch/x86_64/syscall.rs: `enter_user`, and the
-- ways in and out of the kernel that exchange the pair.
use xernel.Prelude.{ℕ, ◌≡◌, refl, sym, subst, ◌∙◌, true, false}
use xernel.Entry.{
  Processor, rcx, r11, put, interrupt_return, run, syscall_enter, syscall_leave, syscall,
  timer_enter, timer_leave, from_ring3, timer_isr, interrupt,
}
use xernel.Entry.Faults.{Vector, goes_on, ended, handle, handle-ended, handle-goes_on}
use xernel.Process.{Core}
use xernel.Process.Switch.{ExitOutcome}

-- The first entry of a process, at `entry` with `stack` as its stack pointer.
unfoldable pub enter_user : ℕ → ℕ → ℕ → Processor → Processor
enter_user percpu entry stack c = record c {
  gs_base = 0;
  kernel_gs_base = percpu;
  rsp = stack;
  regs = put (put c.regs rcx entry) r11 0x202;
  rip = entry;
  rflags = 0x202;
  user = true;
}

-- What runs: a process at ring 3, the kernel on behalf of one, or the handler of a fault of ring 3,
-- for which the pair is not exchanged.
pub data Mode : Type 0 where
  at_user : Mode
  at_kernel : Mode
  at_fault : Mode

-- The ways from one to another, each by the instructions of its stub up to the call of the kernel,
-- or from there on, and by the handlers of the exceptions. A tick that interrupts the kernel runs
-- its stub whole. The kernel's own code, with the switch from one process to another that is parked
-- inside it, leaves the pair alone.
pub data GsStep (percpu : ℕ) : Mode → Processor → Mode → Processor → Type 0 where
  first_run :
      (entry stack : ℕ) (c : Processor)
      → GsStep percpu at_kernel c at_user (enter_user percpu entry stack c)
  calls :
      (entry : ℕ) (c : Processor)
      → GsStep percpu at_user c at_kernel (run (λ x. x) syscall_enter (syscall entry c))
  returns : (c : Processor) → GsStep percpu at_kernel c at_user (run (λ x. x) syscall_leave c)
  preempted :
      (top cs ss handler : ℕ) (c : Processor)
      → from_ring3 (interrupt top cs ss handler c) ≡ true
      → GsStep percpu at_user c at_kernel (run (λ x. x) timer_enter (interrupt top cs ss handler c))
  resumed : (c : Processor) → GsStep percpu at_kernel c at_user (run (λ x. x) timer_leave c)
  ticked :
      (top cs ss handler : ℕ) (c : Processor)
      → from_ring3 (interrupt top cs ss handler c) ≡ false
      → GsStep percpu at_kernel c at_kernel
          (timer_isr (λ x. x) (λ x. x) (interrupt top cs ss handler c))
  faults :
      (top cs ss handler : ℕ) (c : Processor)
      → GsStep percpu at_user c at_fault (interrupt top cs ss handler c)
  killed :
      (v : Vector) (cs : ℕ) (c c' : Processor) (core : Core) (o : ExitOutcome)
      → handle v percpu cs c core ≡ ended c' o
      → GsStep percpu at_fault c at_kernel c'
  continued :
      (v : Vector) (cs : ℕ) (c c' : Processor) (core : Core)
      → handle v percpu cs c core ≡ goes_on c'
      → GsStep percpu at_fault c at_user (interrupt_return c')
  works :
      (c c' : Processor)
      → c'.gs_base ≡ c.gs_base
      → c'.kernel_gs_base ≡ c.kernel_gs_base
      → GsStep percpu at_kernel c at_kernel c'

-- What can be reached from the first entry of the first process.
pub data GsReach (percpu : ℕ) : Mode → Processor → Type 0 where
  booted :
      (entry stack : ℕ) (c : Processor) → GsReach percpu at_user (enter_user percpu entry stack c)
  onward :
      (m m' : Mode) (c c' : Processor)
      → GsReach percpu m c
      → GsStep percpu m c m' c'
      → GsReach percpu m' c'

-- On behalf of a process the first base points to the scratch area, at ring 3 and at its faults the
-- second does.
abbrev pub Balanced : ℕ → Mode → Processor → Type 0
Balanced percpu at_kernel c = (c.gs_base ≡ percpu) × (c.kernel_gs_base ≡ 0)
Balanced percpu at_user c = (c.gs_base ≡ 0) × (c.kernel_gs_base ≡ percpu)
Balanced percpu at_fault c = (c.gs_base ≡ 0) × (c.kernel_gs_base ≡ percpu)

GsStep-Balanced :
    (percpu : ℕ) (m m' : Mode) (c c' : Processor)
    → Balanced percpu m c
    → GsStep percpu m c m' c'
    → Balanced percpu m' c'
unfolding enter_user timer_isr
GsStep-Balanced percpu at_kernel at_user _ _ b (first_run entry stack c) = (refl, refl)
GsStep-Balanced percpu at_user at_kernel _ _ (b, k) (calls entry c) = (k, b)
GsStep-Balanced percpu at_kernel at_user _ _ (b, k) (returns c) = (k, b)
GsStep-Balanced percpu at_user at_kernel _ _ (b, k) (preempted top cs ss handler c ring3) = (k, b)
GsStep-Balanced percpu at_kernel at_user _ _ (b, k) (resumed c) = (k, b)
GsStep-Balanced percpu at_user at_fault _ _ b (faults top cs ss handler c) = b
GsStep-Balanced percpu at_kernel at_kernel _ _ (b, k) (ticked top cs ss handler c inside) =
    rw inside (b, k)
GsStep-Balanced percpu at_fault at_kernel _ _ b (killed v cs c c' core o e) =
    handle-ended v percpu cs c c' core o e
GsStep-Balanced percpu at_fault at_user _ _ b (continued v cs c c' core e) =
    subst (Balanced percpu at_user) (sym (handle-goes_on v percpu cs c c' core e)) b
GsStep-Balanced percpu at_kernel at_kernel _ _ (b, k) (works c c' same same_kernel) =
    (same ∙ b, same_kernel ∙ k)
GsStep-Balanced percpu at_user at_user c _ b s = elim s [ ]
GsStep-Balanced percpu at_kernel at_fault c _ b s = elim s [ ]
GsStep-Balanced percpu at_fault at_fault c _ b s = elim s [ ]

-- Whatever processes do, call, fault, are preempted, end or are entered for the first time, in any
-- order: at ring 3, and in the handler of a fault of ring 3, the first GS base is zero and the
-- second points to the scratch area, and while the kernel runs on behalf of a process it is the
-- other way round. The kernel's own code, the stubs and handlers apart, leaves the pair alone.
pub GsReach-Balanced :
    (percpu : ℕ) (m : Mode) (c : Processor) → GsReach percpu m c → Balanced percpu m c
unfolding enter_user
GsReach-Balanced percpu at_user _ (booted entry stack c) = (refl, refl)
GsReach-Balanced percpu _ _ (onward m m' c c' r s) =
    GsStep-Balanced percpu m m' c c' (GsReach-Balanced percpu m c r) s
