-- ===== src/Entry/Syscall.antt =====
-- A system call through `syscall_entry` of Xernel/kernel/src/arch/x86_64/syscall.rs, from the instruction
-- `syscall` to the return to ring 3.
use xernel.Prelude.{
  ◌==◌, ==_refl, u64_mod, add64, sub64, ℕ, suc, ◌+◌, ◌-◌, ◌*◌, ◌≤◌, ◌<◌, ◌≡◌, refl, sym, ap, ◌∙◌,
  ◌≢◌, true, false, List, [], ◌∷◌, arith,
}
use xernel.Entry.{
  Processor, rax, rcx, rdx, rsi, rdi, r8, r9, r10, r11, stash, load_rsp, push_gs, frame, put, swap,
  step, run, syscall_enter, syscall_entry, Handler, dispatch_frame, syscall,
}
use xernel.Entry.Stack.{
  pushes, around, member, index, pushes-above, pushes-rsp, pushes-gs, around-mem, around-gs,
  around-rsp, around-reg, pushes-word, index-lt,
}

-- What the kernel leaves to the stub when it returns: the stack pointer and the pair of GS bases as
-- they were, and the ten words above the stack pointer. All else may change, the scratch area too,
-- while other processes run.
pub record IsKernel (kernel : Handler) : Type 0 where
  pub keeps_rsp : (nr : ℕ) (args : List ℕ) (c : Processor) → (kernel nr args c).1.rsp ≡ c.rsp
  pub keeps_gs : (nr : ℕ) (args : List ℕ) (c : Processor) → (kernel nr args c).1.gs_base ≡ c.gs_base
  pub keeps_kernel_gs :
      (nr : ℕ) (args : List ℕ) (c : Processor)
      → (kernel nr args c).1.kernel_gs_base ≡ c.kernel_gs_base
  pub keeps_frame :
      (nr : ℕ) (args : List ℕ) (c : Processor) (x : ℕ)
      → c.rsp ≤ x
      → x < c.rsp + 80
      → (kernel nr args c).1.mem x ≡ c.mem x

abbrev saved : List ℕ
saved = r11 ∷ rcx ∷ rax ∷ rdi ∷ rsi ∷ rdx ∷ r10 ∷ r8 ∷ r9 ∷ []

-- The processor before the registers are pushed, and when `dispatch` is called.
abbrev opened : Processor → Processor
opened c = step (λ x. x) (push_gs 8) (step (λ x. x) (load_rsp 0) (step (λ x. x) (stash 8) (swap c)))

-- A system call as the process makes it.
abbrev pub system_call : Handler → ℕ → Processor → Processor
system_call kernel entry c = run (dispatch_frame kernel) syscall_entry (syscall entry c)

abbrev pub at_call : Processor → Processor
at_call c = run (λ x. x) syscall_enter c

module _ (kernel : Handler) (law : IsKernel kernel) (entry : ℕ) (c : Processor)
    (scratch : c.kernel_gs_base + 16 ≤ u64_mod) (room : 80 ≤ c.mem c.kernel_gs_base)
    (small : c.mem c.kernel_gs_base < u64_mod) where
  abbrev c0 : Processor
  c0 = syscall entry c

  abbrev top : ℕ
  top = c.mem c.kernel_gs_base

  abbrev framed : Processor
  framed = step (λ x. x) frame (pushes saved (opened c0))

  abbrev called : Processor → Processor
  called x = dispatch_frame kernel (step (λ x. x) frame x)

  scratch_at :
      (add64 c.kernel_gs_base 8 ≡ c.kernel_gs_base + 8)
      × (add64 c.kernel_gs_base 0 ≡ c.kernel_gs_base)
  scratch_at = (omega arith, omega arith)

  opened-rsp : (opened c0).rsp ≡ top - 8
  opened-rsp =
      let (e8, e0) = scratch_at in
      let differ : (c.kernel_gs_base == c.kernel_gs_base + 8) ≡ false = ground arith in
      rw (e8, e0, differ) (omega arith)

  opened-top : (opened c0).mem (top - 8) ≡ c.rsp
  opened-top =
      let (e8, e0) = scratch_at in
      let differ : (c.kernel_gs_base == c.kernel_gs_base + 8) ≡ false = ground arith in
      let here : (top - 8 == sub64 top 8) ≡ true = ground arith in
      rw (e8, e0, differ, here, ==_refl (c.kernel_gs_base + 8)) refl

  pushed : Processor
  pushed = pushes saved (opened c0)

  pushed-rsp : pushed.rsp ≡ top - 80
  unfolding pushed
  pushed-rsp = omega (
    arith,
    opened-rsp,
    pushes-rsp saved (opened c0) (omega (arith, opened-rsp)) (omega (arith, opened-rsp)),
  )

  -- The word of a register in the frame.
  abbrev word : ℕ → ℕ
  word x = top - 8 - 8 * suc (index x saved)

  pushed-word : (x : ℕ) → member x saved ≡ true → pushed.mem (word x) ≡ c0.regs x
  unfolding pushed
  pushed-word x h =
      let place : (opened c0).rsp - 8 * suc (index x saved) ≡ word x = omega (arith, opened-rsp) in
      let there =
        pushes-word saved (opened c0) x (omega (arith, opened-rsp)) (omega (arith, opened-rsp)) h in
      ap (pushes saved (opened c0)).mem (sym place) ∙ there

  pushed-top : pushed.mem (top - 8) ≡ c.rsp
  unfolding pushed
  pushed-top =
      pushes-above saved (opened c0) (top - 8) (omega (arith, opened-rsp))
        (omega (arith, opened-rsp)) (omega (arith, opened-rsp))
      ∙ opened-top

  -- What the kernel was asked, and the slot of its result.
  slot_at : add64 (put pushed.regs rdi pushed.rsp rdi) 48 ≡ top - 32
  slot_at = omega (arith, pushed-rsp)

  field_at :
      (i x : ℕ)
      → member x saved ≡ true
      → top - 80 + 8 * i ≡ word x
      → pushed.mem (add64 pushed.rsp (8 * i)) ≡ c0.regs x
  field_at i x h e =
      let place : add64 pushed.rsp (8 * i) ≡ word x = omega (arith, pushed-rsp, e) in
      ap pushed.mem place ∙ pushed-word x h

  -- After the call.
  called-rsp : (called pushed).rsp ≡ pushed.rsp
  unfolding dispatch_frame
  called-rsp = law.keeps_rsp _ _ _

  called-mem :
      (x : ℕ) → top - 80 ≤ x → x < top → x ≢ top - 32 → (called pushed).mem x ≡ pushed.mem x
  unfolding dispatch_frame
  called-mem x low high other =
      let differ : (x == add64 (put pushed.regs rdi pushed.rsp rdi) 48) ≡ false =
        let e = slot_at in ground arith in
      rw differ (
        law.keeps_frame _ _ (step (λ x. x) frame pushed) x (omega (arith, pushed-rsp))
          (omega (arith, pushed-rsp)))

  abbrev answer : ℕ
  answer =
      (kernel (c.regs rax)
        (c.regs rdi ∷ c.regs rsi ∷ c.regs rdx ∷ c.regs r10 ∷ c.regs r8 ∷ c.regs r9 ∷ [])
        (step (λ x. x) frame pushed)).0

  called-result : (called pushed).mem (top - 32) ≡ answer
  unfolding dispatch_frame
  called-result =
      let here : (top - 32 == add64 (put pushed.regs rdi pushed.rsp rdi) 48) ≡ true =
        let e = slot_at in ground arith in
      rw
        (
          here,
          field_at 6 rax refl (omega (arith, room)),
          field_at 5 rdi refl (omega (arith, room)),
          field_at 4 rsi refl (omega (arith, room)),
          field_at 3 rdx refl (omega (arith, room)),
          field_at 2 r10 refl (omega (arith, room)),
          field_at 1 r8 refl (omega (arith, room)),
          field_at 0 r9 refl (omega (arith, room)),
        )
        refl

  -- After the registers are popped.
  popped : Processor
  popped = around saved called (opened c0)

  popped-regs : (x : ℕ) → member x saved ≡ true → popped.regs x ≡ (called pushed).mem (word x)
  unfolding popped pushed
  popped-regs x h =
      let place : (opened c0).rsp - 8 * suc (index x saved) ≡ word x = omega (arith, opened-rsp) in
      around-reg called saved (opened c0) x (omega (arith, opened-rsp)) (omega (arith, opened-rsp))
        called-rsp h
      ∙ ap (called (pushes saved (opened c0))).mem place

  popped-saved : (x : ℕ) → member x saved ≡ true → index x saved ≢ 2 → popped.regs x ≡ c0.regs x
  popped-saved x h other =
      let inside = index-lt x saved h in
      popped-regs x h
      ∙ called-mem (word x) (omega (arith, inside)) (omega (arith, inside))
          (λ e. other (omega (arith, inside)))
      ∙ pushed-word x h

  popped-stack : popped.mem popped.rsp ≡ c.rsp
  unfolding popped pushed
  popped-stack =
      let kept =
        around-rsp called saved (opened c0) (omega (arith, opened-rsp)) (omega (arith, opened-rsp))
          called-rsp in
      let at_top : (around saved called (opened c0)).rsp ≡ top - 8 = kept ∙ opened-rsp in
      ap (around saved called (opened c0)).mem at_top
      ∙ ap (λ m. m (top - 8)) (around-mem called saved (opened c0))
      ∙ called-mem (top - 8) (omega (arith, room)) (omega (arith, room)) (λ e. omega (arith, room))
      ∙ pushed-top

  popped-gs : (popped.gs_base ≡ c.kernel_gs_base) × (popped.kernel_gs_base ≡ c.gs_base)
  unfolding popped dispatch_frame
  popped-gs =
      let (outer, outer_kernel) = around-gs called saved (opened c0) in
      let (inner, inner_kernel) = pushes-gs saved (opened c0) in
      (outer ∙ law.keeps_gs _ _ _ ∙ inner, outer_kernel ∙ law.keeps_kernel_gs _ _ _ ∙ inner_kernel)

  -- A system call returns to the process behind its `syscall` instruction with its stack pointer, its
  -- flags, its argument registers and the pair of GS bases as they were, at ring 3, and with the
  -- kernel's answer in rax; the kernel was asked for the number in rax with the arguments of rdi, rsi,
  -- rdx, r10, r8 and r9 in that order. This holds whatever happens in between to the scratch area,
  -- where other processes leave their stack pointers. The scratch area is where the second GS base
  -- points, and names a kernel stack with room for ten words; the kernel leaves them, the stack pointer
  -- and the pair of GS bases as they were.
  pub syscall_entry-restores :
      ((system_call kernel entry c).regs rax
        ≡ (kernel
            (c.regs rax)
            (c.regs rdi ∷ c.regs rsi ∷ c.regs rdx ∷ c.regs r10 ∷ c.regs r8 ∷ c.regs r9 ∷ [])
            (at_call (syscall entry c))).0)
      × ((system_call kernel entry c).regs rdi ≡ c.regs rdi)
      × ((system_call kernel entry c).regs rsi ≡ c.regs rsi)
      × ((system_call kernel entry c).regs rdx ≡ c.regs rdx)
      × ((system_call kernel entry c).regs r10 ≡ c.regs r10)
      × ((system_call kernel entry c).regs r8 ≡ c.regs r8)
      × ((system_call kernel entry c).regs r9 ≡ c.regs r9)
      × ((system_call kernel entry c).rsp ≡ c.rsp)
      × ((system_call kernel entry c).rip ≡ c.rip)
      × ((system_call kernel entry c).rflags ≡ c.rflags)
      × ((system_call kernel entry c).user ≡ true)
      × ((system_call kernel entry c).gs_base ≡ c.gs_base)
      × ((system_call kernel entry c).kernel_gs_base ≡ c.kernel_gs_base)
  unfolding popped pushed
  syscall_entry-restores = (
    popped-regs rax refl ∙ ap (called pushed).mem rax_at ∙ called-result,
    popped-saved rdi refl (λ e. cc),
    popped-saved rsi refl (λ e. cc),
    popped-saved rdx refl (λ e. cc),
    popped-saved r10 refl (λ e. cc),
    popped-saved r8 refl (λ e. cc),
    popped-saved r9 refl (λ e. cc),
    popped-stack,
    popped-saved rcx refl (λ e. cc),
    popped-saved r11 refl (λ e. cc),
    refl,
    popped-gs.1,
    popped-gs.0,
  )
    where
      rax_at : word rax ≡ top - 32
      rax_at = omega (arith, room)
