-- ===== src/Entry/Timer.antt =====
-- The timer interrupt of Xernel/kernel/src/arch/x86_64/apic.rs when it comes at ring 3 and preempts the
-- process.
use xernel.Prelude.{
  ◌==◌, eq→==, ==_refl, u64_mod, add64, sub64, ℕ, suc, ◌+◌, ◌-◌, ◌*◌, ◌%◌, ◌≤◌, ◌<◌, ◌≡◌, refl, ap,
  ◌∙◌, true, false, List, [], ◌∷◌, arith,
}
use xernel.Entry.{
  Processor, rax, rcx, rdx, rbx, rbp, rsi, rdi, r8, r9, r10, r11, r12, r13, r14, r15, swap,
  interrupt_return, from_ring3, timer_isr, interrupt,
}
use xernel.Entry.Stack.{
  pushes, around, member, index, pushes-above, pushes-rsp, pushes-gs, around-mem, around-gs,
  around-rsp, around-reg, pushes-word, index-lt,
}

-- What `timer_preempt` leaves to the stub when it returns, and other processes have run: the stack
-- pointer and the pair of GS bases as they were, and the words of this process on its stack.
pub record IsPreempt (f : Processor → Processor) : Type 0 where
  pub keeps_rsp : (c : Processor) → (f c).rsp ≡ c.rsp
  pub keeps_gs : (c : Processor) → (f c).gs_base ≡ c.gs_base
  pub keeps_kernel_gs : (c : Processor) → (f c).kernel_gs_base ≡ c.kernel_gs_base
  pub keeps_stack : (c : Processor) (x : ℕ) → c.rsp ≤ x → x < c.rsp + 160 → (f c).mem x ≡ c.mem x

abbrev pub saved : List ℕ
saved = rax ∷ rbx ∷ rcx ∷ rdx ∷ rsi ∷ rdi ∷ rbp ∷ r8 ∷ r9 ∷ r10 ∷ r11 ∷ r12 ∷ r13 ∷ r14 ∷ r15 ∷ []

module _ (f : Processor → Processor) (law : IsPreempt f) (tick : Processor → Processor)
    (top cs ss handler : ℕ) (c : Processor) (room : 160 ≤ top) (small : top < u64_mod)
    (ring3 : cs % 4 ≡ 3) where
  abbrev entered : Processor
  entered = swap (interrupt top cs ss handler c)

  entered-rsp : entered.rsp ≡ top - 40
  entered-rsp = omega arith

  -- The frame of the interrupt.
  frame_words :
      (entered.mem (top - 40) ≡ c.rip)
      × (entered.mem (top - 32) ≡ cs)
      × (entered.mem (top - 24) ≡ c.rflags)
      × (entered.mem (top - 16) ≡ c.rsp)
  frame_words =
      let a1 : sub64 top 8 ≡ top - 8 = omega arith in
      let a2 : sub64 (top - 8) 8 ≡ top - 16 = omega arith in
      let a3 : sub64 (top - 16) 8 ≡ top - 24 = omega arith in
      let a4 : sub64 (top - 24) 8 ≡ top - 32 = omega arith in
      let a5 : sub64 (top - 32) 8 ≡ top - 40 = omega arith in
      let n1 : (top - 32 == top - 40) ≡ false = ground arith in
      let n2 : (top - 24 == top - 40) ≡ false = ground arith in
      let n3 : (top - 24 == top - 32) ≡ false = ground arith in
      let n4 : (top - 16 == top - 40) ≡ false = ground arith in
      let n5 : (top - 16 == top - 32) ≡ false = ground arith in
      let n6 : (top - 16 == top - 24) ≡ false = ground arith in
      rw (a1, a2, a3, a4, a5)
        (
          rw (==_refl (top - 40)) refl,
          rw (n1, ==_refl (top - 32)) refl,
          rw (n2, n3, ==_refl (top - 24)) refl,
          rw (n4, n5, n6, ==_refl (top - 16)) refl,
        )

  back : Processor
  back = around saved f entered

  pushed : Processor
  pushed = pushes saved entered

  pushed-rsp : pushed.rsp ≡ top - 160
  unfolding pushed
  pushed-rsp = omega (
    arith,
    entered-rsp,
    pushes-rsp saved entered (omega (arith, entered-rsp)) (omega (arith, entered-rsp)),
  )

  back-mem : (x : ℕ) → top - 160 ≤ x → x < top → back.mem x ≡ pushed.mem x
  unfolding back pushed
  back-mem x low high =
      let e = pushed-rsp in
      ap (λ m. m x) (around-mem f saved entered)
      ∙ law.keeps_stack (pushes saved entered) x (omega (arith, e)) (omega (arith, e))

  -- The words of the interrupted process's frame are there after the call.
  back-frame : (x : ℕ) → top - 40 ≤ x → x < top → back.mem x ≡ entered.mem x
  unfolding pushed
  back-frame x low high =
      back-mem x (omega arith) high
      ∙ pushes-above saved entered x (omega (arith, entered-rsp)) (omega (arith, entered-rsp))
          (omega (arith, entered-rsp))

  back-rsp : back.rsp ≡ top - 40
  unfolding back pushed
  back-rsp =
      around-rsp f saved entered (omega (arith, entered-rsp)) (omega (arith, entered-rsp))
        (law.keeps_rsp (pushes saved entered))
      ∙ entered-rsp

  back-regs : (x : ℕ) → member x saved ≡ true → back.regs x ≡ c.regs x
  unfolding back pushed
  back-regs x h =
      let inside = index-lt x saved h in
      let e = pushed-rsp in
      around-reg f saved entered x (omega (arith, entered-rsp)) (omega (arith, entered-rsp))
        (law.keeps_rsp (pushes saved entered)) h
      ∙ law.keeps_stack (pushes saved entered) (entered.rsp - 8 * suc (index x saved))
          (omega (arith, e, entered-rsp, inside)) (omega (arith, e, entered-rsp, inside))
      ∙ pushes-word saved entered x (omega (arith, entered-rsp)) (omega (arith, entered-rsp)) h

  back-gs : (back.gs_base ≡ c.kernel_gs_base) × (back.kernel_gs_base ≡ c.gs_base)
  unfolding back
  back-gs =
      let (outer, outer_kernel) = around-gs f saved entered in
      let (inner, inner_kernel) = pushes-gs saved entered in
      (outer ∙ law.keeps_gs _ ∙ inner, outer_kernel ∙ law.keeps_kernel_gs _ ∙ inner_kernel)

  preempted : from_ring3 (interrupt top cs ss handler c) ≡ true
  preempted =
      let (rip_word, cs_word, flags_word, rsp_word) = frame_words in
      let place : add64 (interrupt top cs ss handler c).rsp 8 ≡ top - 32 = omega arith in
      let differ : (cs % 4 == 0) ≡ false = ground arith in rw (place, cs_word, differ) refl

  returned : timer_isr tick f (interrupt top cs ss handler c) ≡ interrupt_return (swap back)
  unfolding timer_isr back
  returned = rw preempted refl

  -- A process that the timer preempts goes on as if nothing had happened: behind the instruction it was
  -- interrupted at, with its stack pointer, its flags, all of its fifteen other registers and the pair of
  -- GS bases as they were, at ring 3. Its kernel stack has room for twenty words, the code segment is
  -- one of ring 3, and the processes that run in between leave those words, the stack pointer and the
  -- pair of GS bases as they were when they hand the processor back.
  pub timer_isr-restores :
      (x : ℕ)
      → member x saved ≡ true
      → ((timer_isr tick f (interrupt top cs ss handler c)).regs x ≡ c.regs x)
        × ((timer_isr tick f (interrupt top cs ss handler c)).rsp ≡ c.rsp)
        × ((timer_isr tick f (interrupt top cs ss handler c)).rip ≡ c.rip)
        × ((timer_isr tick f (interrupt top cs ss handler c)).rflags ≡ c.rflags)
        × ((timer_isr tick f (interrupt top cs ss handler c)).user ≡ true)
        × ((timer_isr tick f (interrupt top cs ss handler c)).gs_base ≡ c.gs_base)
        × ((timer_isr tick f (interrupt top cs ss handler c)).kernel_gs_base ≡ c.kernel_gs_base)
  timer_isr-restores x h =
      let (rip_word, cs_word, flags_word, rsp_word) = frame_words in
      let at_cs : add64 (top - 40) 8 ≡ top - 32 = omega arith in
      let at_flags : add64 (top - 40) 16 ≡ top - 24 = omega arith in
      let at_rsp : add64 (top - 40) 24 ≡ top - 16 = omega arith in
      let ring : (cs % 4 == 3) ≡ true = eq→== (cs % 4) 3 ring3 in
      let got_rip = back-frame (top - 40) (omega arith) (omega arith) ∙ rip_word in
      let got_cs = back-frame (top - 32) (omega arith) (omega arith) ∙ cs_word in
      let got_flags = back-frame (top - 24) (omega arith) (omega arith) ∙ flags_word in
      let got_rsp = back-frame (top - 16) (omega arith) (omega arith) ∙ rsp_word in
      rw (returned, back-rsp, at_cs, at_flags, at_rsp, got_rip, got_cs, got_flags, got_rsp, ring)
        (back-regs x h, refl, refl, refl, refl, back-gs.1, back-gs.0)
