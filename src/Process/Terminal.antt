-- ===== src/Process/Terminal.antt =====
-- The end of a process in Xernel/kernel/src/process.rs: `kill`, and what becomes of a process
-- that is done.
use xernel.Prelude.{
  ◌==◌, Bool-cases, length, get_elem?-exists, u64_max, get_elem?-modify, ℕ, ◌≤◌, ◌≡◌, refl, ap, ◌∙◌,
  ◌≢◌, ◌⊎◌, inl, inr, true, false, some, arith, ℕ_discrete,
}
use xernel.Process.{
  State, ready, blocked, done, Process, Core, is_done, process_at, update, on_sched,
}
use xernel.Process.Switch.{activate, switch_context, switch_to, finish}
use xernel.Process.Control.{exit_code_for, kill}
use xernel.Process.Isolation.{IsValid}
use xernel.Process.Blocking.{state_at}
use xernel.Process.Numbers.{find_pid_lem}

pub is_done-eq : (st : State) → is_done st ≡ true → st ≡ done
is_done-eq ready h = absurd (cc)
is_done-eq (blocked r) h = absurd (cc)
is_done-eq done h = refl

exit_code_for_lem : (signal : ℕ) → exit_code_for signal ≡ signal
exit_code_for_lem signal = ground arith

-- `kill` refuses the root, an unknown PID and a process that is done, and then changes nothing.
-- Otherwise it ends exactly the process of that PID, with the signal as its exit code, and reports
-- success.
pub kill-cases :
    (c : Core) (target signal : ℕ)
    → IsValid c
    → (((target ≡ 0) ⊎ ((length c.sched.procs ≤ target) ⊎ (state_at c.sched target ≡ some done)))
        × (kill c target signal ≡ (u64_max, c)))
      ⊎ ((target ≢ 0)
          × (p : Process) × (process_at c.sched target ≡ some p)
          × (p.state ≢ done)
          × (kill c target signal ≡ (0, on_sched c (λ s. update s target (finish signal)))))
unfolding kill
kill-cases c target signal v = elim (ℕ_discrete target 0) [
  | yes root ↦ inl (inl root, ground arith)
  | no other ↦ elim (find_pid_lem c target v) [
    | inr (h, e) ↦ inl (inr (inl h), ground arith)
    | inl (h, e) ↦
        let (p, g) = get_elem?-exists c.sched.procs target h in
        let miss : (target == 0) ≡ false = ground arith in
        elim (Bool-cases (is_done p.state)) [
          | inl over ↦ inl (
            inr (inr (rw g (ap some (is_done-eq p.state over)))),
            rw (miss, kill, e) (rw (g, over)),
          )
          | inr alive ↦ inr (
            other,
            p,
            g,
            λ d. cc (rw d at alive),
            rw (miss, kill, e) (rw (g, alive, exit_code_for_lem signal)),
          )
        ]
  ]
]

-- What a call leaves of a process that was done: it is done, with the same exit code.
abbrev pub Ended : Process → Process → Type 0
Ended p q = (p.state ≡ done) → (q.state ≡ done) × (q.exit_code ≡ p.exit_code)

abbrev pub StaysEnded : Core → Core → ℕ → Type 0
StaysEnded c d i =
    (p : Process)
    → process_at c.sched i ≡ some p
    → (q : Process) × (process_at d.sched i ≡ some q) × Ended p q

pub StaysEnded-trans :
    (b c d : Core) (i : ℕ) → StaysEnded b c i → StaysEnded c d i → StaysEnded b d i
StaysEnded-trans b c d i f g p e =
    let (q, e', h) = f p e in
    let (r, e'', k) = g q e' in (r, e'', λ x. let (a, y) = h x in let (a', z) = k a in (a', z ∙ y))

pub update-StaysEnded :
    (c : Core) (k i : ℕ) (f : Process → Process)
    → ((p : Process) → k ≡ i → process_at c.sched i ≡ some p → Ended p (f p))
    → StaysEnded c (on_sched c (λ s. update s k f)) i
update-StaysEnded c k i f keeps p e =
    let (q, e', changed) = get_elem?-modify c.sched.procs k i f e in
    (
      q,
      e',
      elim changed [
        | inl (same, new) ↦ λ x. rw new (keeps p same e x)
        | inr (other, old) ↦ λ x. rw old (x, refl)
      ],
    )

pub switch_to-StaysEnded : (c : Core) (next i : ℕ) → StaysEnded c (switch_to c next) i
unfolding switch_to activate switch_context
switch_to-StaysEnded c next i = update-StaysEnded c c.sched.current i _ (λ p _ _ x. (x, refl))
