-- ===== src/Entry.antt =====
-- The processor at the edge of the kernel: the instructions of `syscall_entry` in
-- Xernel/kernel/src/arch/x86_64/syscall.rs and of `timer_isr` in Xernel/kernel/src/arch/x86_64/apic.rs.
pub mod Stack
pub mod Syscall
pub mod Timer
pub mod Bases
pub mod Faults
mod Tests
use xernel.Prelude.{
  ltb, leb, ◌==◌, if◌then◌else◌, ltb→lt, leb→le, eq→==, ==→eq, ==_refl, Bool-cases, Option-cases,
  length, get_elem?, set, take, drop, replicate, length-append, length-set, length-replicate,
  length-take, length-drop, get_elem?-set_self, get_elem?-set_ne, get_elem?-lt, get_elem?-ge,
  get_elem?-none, get_elem?-exists, get_elem?-append_left, get_elem?-append_length, u64_mod,
  u64_max, add64, sub64, mul64, checked_add, checked_sub, saturating_add, saturating_sub,
  length-modify, get_elem?-modify_self, get_elem?-modify_ne, get_elem?-modify, length-map,
  get_elem?-map, map-cases, test_bit, bit_or, test_bit-bit_or, test_bit_zero, test_bit-none,
  le_bytes, from_le_bytes, octet_of, octet, slice, splice, length-le_bytes, from_le_bytes-le_bytes,
  ℕ, zero, suc, ◌+◌, ◌-◌, ◌*◌, ◌/◌, ◌%◌, ◌^◌, ◌≤◌, ◌<◌, min, max, ◌≡◌, refl, sym, ap, subst, ◌∙◌,
  ◌≢◌, ◌↔◌, ◌⊎◌, inl, inr, Bool, true, false, ◌&&◌, ◌||◌, not, Option, none, some, List, [], ◌∷◌,
  ◌++◌, map, append_assoc, append-nil, arith, dec_lt, ℕ_discrete,
}

-- The registers that a process sees, by the numbers that the machine's encoding gives them; the
-- stack pointer stands apart. Memory holds words of eight bytes, by their address: all accesses
-- here are of whole words. `user` says that the processor runs at ring 3.
pub record Processor : Type 0 where
  pub regs : ℕ → ℕ
  pub rsp : ℕ
  pub rip : ℕ
  pub rflags : ℕ
  pub user : Bool
  pub gs_base : ℕ
  pub kernel_gs_base : ℕ
  pub mem : ℕ → ℕ

abbrev pub rax : ℕ
rax = 0

abbrev pub rcx : ℕ
rcx = 1

abbrev pub rdx : ℕ
rdx = 2

abbrev pub rbx : ℕ
rbx = 3

abbrev pub rbp : ℕ
rbp = 5

abbrev pub rsi : ℕ
rsi = 6

abbrev pub rdi : ℕ
rdi = 7

abbrev pub r8 : ℕ
r8 = 8

abbrev pub r9 : ℕ
r9 = 9

abbrev pub r10 : ℕ
r10 = 10

abbrev pub r11 : ℕ
r11 = 11

abbrev pub r12 : ℕ
r12 = 12

abbrev pub r13 : ℕ
r13 = 13

abbrev pub r14 : ℕ
r14 = 14

abbrev pub r15 : ℕ
r15 = 15

-- The instructions of the two stubs. `stash` is `mov gs:[offset], rsp`, `load_rsp` is
-- `mov rsp, gs:[offset]`, `frame` is `mov rdi, rsp`, `unstack` is `mov rsp, [rsp]`.
pub data Instr : Type 0 where
  swapgs : Instr
  stash : ℕ → Instr
  load_rsp : ℕ → Instr
  push_gs : ℕ → Instr
  push_r : ℕ → Instr
  pop_r : ℕ → Instr
  frame : Instr
  call : Instr
  unstack : Instr
  sysretq : Instr
  iretq : Instr

abbrev pub put : (ℕ → ℕ) → ℕ → ℕ → ℕ → ℕ
put m a v x = if x == a then v else m x

abbrev pub push_word : ℕ → Processor → Processor
push_word v c = record c { rsp = sub64 c.rsp 8; mem = put c.mem (sub64 c.rsp 8) v }

abbrev pub pop_reg : ℕ → Processor → Processor
pop_reg r c = record c { rsp = add64 c.rsp 8; regs = put c.regs r (c.mem c.rsp) }

abbrev pub swap : Processor → Processor
swap c = record c { gs_base = c.kernel_gs_base; kernel_gs_base = c.gs_base }

-- The frame that the processor pushes at an interrupt has, from the stack pointer up, the
-- instruction pointer, the code segment, the flags, the stack pointer and the stack segment.
abbrev pub interrupt_return : Processor → Processor
interrupt_return c = record c {
  rip = c.mem c.rsp;
  rflags = c.mem (add64 c.rsp 16);
  rsp = c.mem (add64 c.rsp 24);
  user = c.mem (add64 c.rsp 8) % 4 == 3;
}

-- One instruction; `called` is what a call comes to.
abbrev pub step : (Processor → Processor) → Instr → Processor → Processor
step called swapgs c = swap c
step called (stash off) c = record c { mem = put c.mem (add64 c.gs_base off) c.rsp }
step called (load_rsp off) c = record c { rsp = c.mem (add64 c.gs_base off) }
step called (push_gs off) c = push_word (c.mem (add64 c.gs_base off)) c
step called (push_r r) c = push_word (c.regs r) c
step called (pop_r r) c = pop_reg r c
step called frame c = record c { regs = put c.regs rdi c.rsp }
step called call c = called c
step called unstack c = record c { rsp = c.mem c.rsp }
step called sysretq c = record c { rip = c.regs rcx; rflags = c.regs r11; user = true }
step called iretq c = interrupt_return c

abbrev pub run : (Processor → Processor) → List Instr → Processor → Processor
run called [] c = c
run called (i ∷ is) c = run called is (step called i c)

-- `syscall_entry` up to the call of `dispatch`, and from there on.
abbrev pub syscall_enter : List Instr
syscall_enter =
    swapgs
      ∷ stash 8
      ∷ load_rsp 0
      ∷ push_gs 8
      ∷ map push_r (r11 ∷ rcx ∷ rax ∷ rdi ∷ rsi ∷ rdx ∷ r10 ∷ r8 ∷ r9 ∷ [])
    ++ frame ∷ []

abbrev pub syscall_leave : List Instr
syscall_leave =
    map pop_r (r9 ∷ r8 ∷ r10 ∷ rdx ∷ rsi ∷ rdi ∷ rax ∷ rcx ∷ r11 ∷ [])
    ++ unstack ∷ swapgs ∷ sysretq ∷ []

abbrev pub syscall_entry : List Instr
syscall_entry = syscall_enter ++ (call ∷ syscall_leave)

-- The wrapper `dispatch`: the number and the arguments come from the frame at `rdi`, whose fields are
-- r9, r8, r10, rdx, rsi, rdi, rax, rcx, r11, and the result goes to its field rax. `kernel` is all that
-- happens until the call of the kernel's dispatch returns, with other processes in between.
abbrev pub Handler : Type 0
Handler = ℕ → List ℕ → Processor → ℕ × Processor

abbrev pub field : Processor → ℕ → ℕ
field c i = c.mem (add64 (c.regs rdi) (8 * i))

abbrev pub handled : ℕ → ℕ × Processor → Processor
handled slot (ret, c) = record c { mem = put c.mem slot ret }

unfoldable pub dispatch_frame : Handler → Processor → Processor
dispatch_frame kernel c = handled (add64 (c.regs rdi) 48) (
    kernel (field c 6) (field c 5 ∷ field c 4 ∷ field c 3 ∷ field c 2 ∷ field c 1 ∷ field c 0 ∷ [])
      c)

-- The `syscall` instruction saves the instruction pointer and the flags, and leaves the stack alone.
-- SFMASK clears flags, which the kernel does not look at.
abbrev pub syscall : ℕ → Processor → Processor
syscall entry c = record c {
  regs = put (put c.regs rcx c.rip) r11 c.rflags;
  rip = entry;
  user = false;
}

-- `timer_isr`: the lowest bits of the saved code segment tell whether ring 3 was interrupted.
abbrev pub timer_kernel : List Instr
timer_kernel =
    map push_r (rax ∷ rcx ∷ rdx ∷ rsi ∷ rdi ∷ r8 ∷ r9 ∷ r10 ∷ r11 ∷ [])
    ++ call ∷ map pop_r (r11 ∷ r10 ∷ r9 ∷ r8 ∷ rdi ∷ rsi ∷ rdx ∷ rcx ∷ rax ∷ [])
    ++ iretq ∷ []

abbrev pub timer_enter : List Instr
timer_enter =
    swapgs
    ∷ map push_r
        (rax ∷ rbx ∷ rcx ∷ rdx ∷ rsi ∷ rdi ∷ rbp ∷ r8 ∷ r9 ∷ r10 ∷ r11 ∷ r12 ∷ r13 ∷ r14 ∷ r15 ∷ [])

abbrev pub timer_leave : List Instr
timer_leave =
    map pop_r
      (r15 ∷ r14 ∷ r13 ∷ r12 ∷ r11 ∷ r10 ∷ r9 ∷ r8 ∷ rbp ∷ rdi ∷ rsi ∷ rdx ∷ rcx ∷ rbx ∷ rax ∷ [])
    ++ swapgs ∷ iretq ∷ []

abbrev pub timer_user : List Instr
timer_user = timer_enter ++ (call ∷ timer_leave)

abbrev pub from_ring3 : Processor → Bool
from_ring3 c = not (c.mem (add64 c.rsp 8) % 4 == 0)

unfoldable pub timer_isr : (Processor → Processor) → (Processor → Processor) → Processor → Processor
timer_isr tick preempt c =
    if from_ring3 c then run preempt timer_user c else run tick timer_kernel c

-- What the processor does at an interrupt of ring 3: it goes to the kernel stack of the process and
-- leaves the frame there that `interrupt_return` takes down.
abbrev pub interrupt : ℕ → ℕ → ℕ → ℕ → Processor → Processor
interrupt top cs ss handler c =
    let pushed = push_word c.rip (
      push_word cs
        (push_word c.rflags (push_word c.rsp (push_word ss (record c { rsp = top }))))) in
    record pushed { rip = handler; user = false }

-- `gs_force_kernel` of syscall.rs.
unfoldable pub gs_force_kernel : ℕ → Processor → Processor
gs_force_kernel percpu c = record c { gs_base = percpu; kernel_gs_base = 0 }
