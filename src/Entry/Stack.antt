-- ===== src/Entry/Stack.antt =====
-- Registers that the stubs of Xernel/kernel/src/arch/x86_64 push before a call and pop after it.
use xernel.Prelude.{
  ◌==◌, if◌then◌else◌, ==→eq, Bool-cases, length, u64_mod, sub64, ℕ, suc, ◌-◌, ◌*◌, ◌≤◌, ◌<◌, ◌≡◌,
  refl, sym, ap, ◌∙◌, inl, inr, Bool, true, false, List, [], ◌∷◌, arith,
}
use xernel.Entry.{Processor, push_word, pop_reg}

abbrev pub pushes : List ℕ → Processor → Processor
pushes [] c = c
pushes (r ∷ rs) c = pushes rs (push_word (c.regs r) c)

-- What is called, with registers pushed before and popped in reverse after.
abbrev pub around : List ℕ → (Processor → Processor) → Processor → Processor
around [] f c = f c
around (r ∷ rs) f c = pop_reg r (around rs f (push_word (c.regs r) c))

abbrev pub member : ℕ → List ℕ → Bool
member x [] = false
member x (r ∷ rs) = if x == r then true else member x rs

abbrev pub index : ℕ → List ℕ → ℕ
index x [] = 0
index x (r ∷ rs) = let rest = index x rs in if x == r then 0 else suc rest

pub pushes-regs : (rs : List ℕ) (c : Processor) → (pushes rs c).regs ≡ c.regs
pushes-regs [] c = refl
pushes-regs (r ∷ rs) c = pushes-regs rs (push_word (c.regs r) c)

-- The word above.
pub pushes-above :
    (rs : List ℕ) (c : Processor) (x : ℕ)
    → 8 * length rs ≤ c.rsp
    → c.rsp < u64_mod
    → c.rsp ≤ x
    → (pushes rs c).mem x ≡ c.mem x
pushes-above [] c x room small above = refl
pushes-above (r ∷ rs) c x room small above =
    let e : sub64 c.rsp 8 ≡ c.rsp - 8 = omega arith in
    let differ : (x == sub64 c.rsp 8) ≡ false = ground arith in
    pushes-above rs (push_word (c.regs r) c) x (omega arith) (omega arith) (omega arith)
    ∙ rw differ refl

pub pushes-rsp :
    (rs : List ℕ) (c : Processor)
    → 8 * length rs ≤ c.rsp
    → c.rsp < u64_mod
    → (pushes rs c).rsp ≡ c.rsp - 8 * length rs
pushes-rsp [] c room small = omega arith
pushes-rsp (r ∷ rs) c room small =
    let e : sub64 c.rsp 8 ≡ c.rsp - 8 = omega arith in
    let rest = pushes-rsp rs (push_word (c.regs r) c) (omega arith) (omega arith) in omega arith

module _ (f : Processor → Processor) where
  pub around-mem : (rs : List ℕ) (c : Processor) → (around rs f c).mem ≡ (f (pushes rs c)).mem
  around-mem [] c = refl
  around-mem (r ∷ rs) c = around-mem rs (push_word (c.regs r) c)

  pub around-gs :
      (rs : List ℕ) (c : Processor)
      → ((around rs f c).gs_base ≡ (f (pushes rs c)).gs_base)
        × ((around rs f c).kernel_gs_base ≡ (f (pushes rs c)).kernel_gs_base)
  around-gs [] c = (refl, refl)
  around-gs (r ∷ rs) c = around-gs rs (push_word (c.regs r) c)

  pub around-rsp :
      (rs : List ℕ) (c : Processor)
      → 8 * length rs ≤ c.rsp
      → c.rsp < u64_mod
      → (f (pushes rs c)).rsp ≡ (pushes rs c).rsp
      → (around rs f c).rsp ≡ c.rsp
  around-rsp [] c room small kept = kept
  around-rsp (r ∷ rs) c room small kept =
      let e : sub64 c.rsp 8 ≡ c.rsp - 8 = omega arith in
      let inner = around-rsp rs (push_word (c.regs r) c) (omega arith) (omega arith) kept in
      omega arith

  -- A register that was pushed ends as what its word holds after the call.
  pub around-reg :
      (rs : List ℕ) (c : Processor) (x : ℕ)
      → 8 * length rs ≤ c.rsp
      → c.rsp < u64_mod
      → (f (pushes rs c)).rsp ≡ (pushes rs c).rsp
      → member x rs ≡ true
      → (around rs f c).regs x ≡ (f (pushes rs c)).mem (c.rsp - 8 * suc (index x rs))
  around-reg [] c x room small kept here = absurd (cc)
  around-reg (r ∷ rs) c x room small kept here =
      let c1 = push_word (c.regs r) c in
      let e : sub64 c.rsp 8 ≡ c.rsp - 8 = omega arith in
      elim (Bool-cases (x == r)) [
        | inl same ↦
            let top : (around rs f c1).rsp ≡ c.rsp - 8 * 1 =
              let inner = around-rsp rs c1 (omega arith) (omega arith) kept in omega arith in
            rw same (ap (around rs f c1).mem top ∙ ap (λ m. m (c.rsp - 8 * 1)) (around-mem rs c1))
        | inr other ↦
            let place : c.rsp - 8 * suc (suc (index x rs)) ≡ c1.rsp - 8 * suc (index x rs) =
              omega arith in
            rw (other, place)
              (around-reg rs c1 x (omega arith) (omega arith) kept (rw other at here))
      ]

-- And its word holds it before the call.
pub pushes-word :
    (rs : List ℕ) (c : Processor) (x : ℕ)
    → 8 * length rs ≤ c.rsp
    → c.rsp < u64_mod
    → member x rs ≡ true
    → (pushes rs c).mem (c.rsp - 8 * suc (index x rs)) ≡ c.regs x
pushes-word [] c x room small here = absurd (cc)
pushes-word (r ∷ rs) c x room small here =
    let c1 = push_word (c.regs r) c in
    let e : sub64 c.rsp 8 ≡ c.rsp - 8 * 1 = omega arith in
    elim (Bool-cases (x == r)) [
      | inl same ↦
          let is : x ≡ r = ==→eq x r same in
          let put_there : (c.rsp - 8 * 1 == sub64 c.rsp 8) ≡ true = ground arith in
          rw same (
            pushes-above rs c1 (c.rsp - 8 * 1) (omega arith) (omega arith) (omega arith)
            ∙ rw put_there (ap c.regs (sym is)))
      | inr other ↦
          let place : c.rsp - 8 * suc (suc (index x rs)) ≡ c1.rsp - 8 * suc (index x rs) =
            omega arith in
          rw (other, place) (pushes-word rs c1 x (omega arith) (omega arith) (rw other at here))
    ]

-- The words of the registers lie in the stack below.
pub index-lt : (x : ℕ) (rs : List ℕ) → member x rs ≡ true → index x rs < length rs
index-lt x [] h = absurd (cc)
index-lt x (r ∷ rs) h = elim (Bool-cases (x == r)) [
  | inl same ↦ rw same (omega arith)
  | inr other ↦ rw other (omega (arith, index-lt x rs (rw other at h)))
]

pub pushes-gs :
    (rs : List ℕ) (c : Processor)
    → ((pushes rs c).gs_base ≡ c.gs_base) × ((pushes rs c).kernel_gs_base ≡ c.kernel_gs_base)
pushes-gs [] c = (refl, refl)
pushes-gs (r ∷ rs) c = pushes-gs rs (push_word (c.regs r) c)
