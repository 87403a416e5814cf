-- ===== src/Entry/Faults.antt =====
-- The exceptions of the processor, by Xernel/kernel/src/arch/x86_64/idt.rs. What the handlers print is left
-- out.
use xernel.Prelude.{
  modify, ◌==◌, if◌then◌else◌, ==→eq, Bool-cases, Option-cases, ℕ, ◌%◌, ◌≡◌, refl, sym, ap, ◌∙◌,
  ◌≢◌, ◌⊎◌, inl, inr, Bool, true, false, arith,
}
use xernel.Entry.{Processor, gs_force_kernel}
use xernel.Process.{Core, on_sched, update}
use xernel.Process.Switch.{
  ExitOutcome, pick_next, activate, finish, exit_fault, exit_inner, fault_exit,
}
use xernel.Process.Isolation.{core_of}

-- The exceptions that have a handler.
pub data Vector : Type 0 where
  divide_error : Vector
  debug : Vector
  nmi : Vector
  breakpoint : Vector
  overflow : Vector
  bound_range : Vector
  invalid_opcode : Vector
  device_na : Vector
  double_fault : Vector
  invalid_tss : Vector
  segment_not_present : Vector
  stack_segment : Vector
  gpf : Vector
  page_fault : Vector
  x87 : Vector
  alignment : Vector
  simd : Vector

-- A handler returns to the interrupted code, ends the process that runs, or panics.
pub data Handling : Type 0 where
  goes_on : Processor → Handling
  ended : Processor → ExitOutcome → Handling
  panicked : Handling

-- The privilege level of the saved code segment.
abbrev pub from_user : ℕ → Bool
from_user cs = cs % 4 == 3

unfoldable pub fatal : ℕ → ℕ → Processor → Core → Handling
fatal percpu cs c core =
    if from_user cs then ended (gs_force_kernel percpu c) (fault_exit core) else panicked

-- The page fault reports the address of the access, and goes on as the others.
unfoldable pub handle : Vector → ℕ → ℕ → Processor → Core → Handling
unfolding fatal
handle breakpoint percpu cs c core = goes_on c
handle double_fault percpu cs c core = panicked
handle page_fault percpu cs c core =
    if from_user cs then ended (gs_force_kernel percpu c) (fault_exit core) else panicked
handle divide_error percpu cs c core = fatal percpu cs c core
handle debug percpu cs c core = fatal percpu cs c core
handle nmi percpu cs c core = fatal percpu cs c core
handle overflow percpu cs c core = fatal percpu cs c core
handle bound_range percpu cs c core = fatal percpu cs c core
handle invalid_opcode percpu cs c core = fatal percpu cs c core
handle device_na percpu cs c core = fatal percpu cs c core
handle invalid_tss percpu cs c core = fatal percpu cs c core
handle segment_not_present percpu cs c core = fatal percpu cs c core
handle stack_segment percpu cs c core = fatal percpu cs c core
handle gpf percpu cs c core = fatal percpu cs c core
handle x87 percpu cs c core = fatal percpu cs c core
handle alignment percpu cs c core = fatal percpu cs c core
handle simd percpu cs c core = fatal percpu cs c core

-- The exceptions that end the process which caused them.
abbrev pub is_fatal : Vector → Bool
is_fatal breakpoint = false
is_fatal double_fault = false
is_fatal v = true

handle-fatal :
    (v : Vector) (percpu cs : ℕ) (c : Processor) (core : Core)
    → is_fatal v ≡ true
    → handle v percpu cs c core ≡ fatal percpu cs c core
unfolding handle fatal
handle-fatal breakpoint percpu cs c core h = absurd (cc)
handle-fatal double_fault percpu cs c core h = absurd (cc)
handle-fatal divide_error percpu cs c core h = refl
handle-fatal debug percpu cs c core h = refl
handle-fatal nmi percpu cs c core h = refl
handle-fatal overflow percpu cs c core h = refl
handle-fatal bound_range percpu cs c core h = refl
handle-fatal invalid_opcode percpu cs c core h = refl
handle-fatal device_na percpu cs c core h = refl
handle-fatal invalid_tss percpu cs c core h = refl
handle-fatal segment_not_present percpu cs c core h = refl
handle-fatal stack_segment percpu cs c core h = refl
handle-fatal gpf percpu cs c core h = refl
handle-fatal page_fault percpu cs c core h = refl
handle-fatal x87 percpu cs c core h = refl
handle-fatal alignment percpu cs c core h = refl
handle-fatal simd percpu cs c core h = refl

spared :
    (v : Vector) (percpu cs : ℕ) (c : Processor) (core : Core)
    → is_fatal v ≡ false
    → (handle v percpu cs c core ≡ goes_on c) ⊎ (handle v percpu cs c core ≡ panicked)
unfolding handle
spared breakpoint percpu cs c core h = inl refl
spared double_fault percpu cs c core h = inr refl
spared v percpu cs c core h = absurd (cc)

abbrev processor_of : Processor → Handling → Processor
processor_of c (goes_on c') = c'
processor_of c (ended c' o) = c'
processor_of c panicked = c

abbrev ends : Handling → Bool
ends (ended c o) = true
ends h = false

abbrev continues : Handling → Bool
continues (goes_on c) = true
continues h = false

-- A handler that ends the process leaves the pair of GS bases to the kernel.
pub handle-ended :
    (v : Vector) (percpu cs : ℕ) (c c' : Processor) (core : Core) (o : ExitOutcome)
    → handle v percpu cs c core ≡ ended c' o
    → (c'.gs_base ≡ percpu) × (c'.kernel_gs_base ≡ 0)
unfolding fatal gs_force_kernel
handle-ended v percpu cs c c' core o h = elim (Bool-cases (is_fatal v)) [
  | inr f ↦ elim (spared v percpu cs c core f) [
    | inl e ↦ let no : false ≡ true = ap ends (sym e ∙ h) in absurd (cc)
    | inr e ↦ let no : false ≡ true = ap ends (sym e ∙ h) in absurd (cc)
  ]
  | inl f ↦
      let e = sym (handle-fatal v percpu cs c core f) ∙ h in
      elim (Bool-cases (from_user cs)) [
        | inl ring3 ↦
            let e' = rw ring3 at e in
            (
              sym (ap (λ x. (processor_of c x).gs_base) e'),
              sym (ap (λ x. (processor_of c x).kernel_gs_base) e'),
            )
        | inr inside ↦ let no : false ≡ true = ap ends (rw inside at e) in absurd (cc)
      ]
]

-- A handler that goes on leaves the processor as it was.
pub handle-goes_on :
    (v : Vector) (percpu cs : ℕ) (c c' : Processor) (core : Core)
    → handle v percpu cs c core ≡ goes_on c'
    → c' ≡ c
unfolding fatal
handle-goes_on v percpu cs c c' core h = elim (Bool-cases (is_fatal v)) [
  | inr f ↦ elim (spared v percpu cs c core f) [
    | inl e ↦ ap (processor_of c) (sym h ∙ e)
    | inr e ↦ let no : false ≡ true = ap continues (sym e ∙ h) in absurd (cc)
  ]
  | inl f ↦
      let e = sym (handle-fatal v percpu cs c core f) ∙ h in
      elim (Bool-cases (from_user cs)) [
        | inl ring3 ↦ let no : false ≡ true = ap continues (rw ring3 at e) in absurd (cc)
        | inr inside ↦ let no : false ≡ true = ap continues (rw inside at e) in absurd (cc)
      ]
]

exit_inner-procs :
    (core : Core) (code : ℕ)
    → (core_of (exit_inner core code)).sched.procs
      ≡ modify core.sched.procs core.sched.current (finish code)
unfolding exit_inner
exit_inner-procs core code =
    let dead = on_sched core (λ s. update s s.current (finish code)) in
    elim (Option-cases (pick_next dead.sched)) [
      | inl e ↦ rw (e, exit_inner) refl
      | inr (n, e) ↦ rw (e, exit_inner) (unfold activate in refl)
    ]

-- A fault at ring 3 costs the process that runs and no other: for every exception but a breakpoint and
-- a double fault, the kernel does not panic, it goes on with the first GS base at the scratch area,
-- the second zero and nothing else of the processor changed, records the end of that process with
-- the exit code of a fault, and leaves every other entry of the process table as it was. A fault of
-- the kernel panics.
pub handle-contained :
    (v : Vector) (percpu cs : ℕ) (c : Processor) (core : Core)
    → is_fatal v ≡ true
    → ((cs % 4 ≡ 3)
        × (handle v percpu cs c core
            ≡ ended (record c { gs_base = percpu; kernel_gs_base = 0 }) (fault_exit core))
        × ((core_of (fault_exit core)).sched.procs
            ≡ modify core.sched.procs core.sched.current (finish exit_fault)))
      ⊎ ((cs % 4 ≢ 3) × (handle v percpu cs c core ≡ panicked))
unfolding fatal gs_force_kernel
handle-contained v percpu cs c core h =
    let same = handle-fatal v percpu cs c core h in
    elim (Bool-cases (from_user cs)) [
      | inl ring3 ↦
          inl (==→eq (cs % 4) 3 ring3, same ∙ rw ring3 refl, exit_inner-procs core exit_fault)
      | inr inside ↦ inr (λ e. absurd (ground arith), same ∙ rw inside refl)
    ]
