-- ===== src/Process/Lifetime.antt =====
-- Whole runs of the process table of Xernel/kernel/src/process.rs.
use xernel.Prelude.{
  modify-cases, ◌==◌, Bool-cases, Option-cases, get_elem?-lt, get_elem?-map, ℕ, ◌≡◌, refl, sym, ap,
  subst, ◌≢◌, inl, inr, false, some, arith,
}
use xernel.Process.{
  BlockReason, ready, blocked, done, Process, Core, is_blocked_on, process_at, update, on_sched,
  set_state,
}
use xernel.Process.Switch.{
  pick_next, activate, switch_to, yield_now, block_on, wake_process, wake, finish, exit_inner,
}
use xernel.Process.Isolation.{IsValid, core_of}
use xernel.Process.Blocking.{state_at}
use xernel.Process.Control.{kill, wait_round}
use xernel.Process.Numbers.{find_pid_lem}
use xernel.Process.Terminal.{
  kill-cases, StaysEnded, StaysEnded-trans, update-StaysEnded, switch_to-StaysEnded,
}
use xernel.Process.Touches.{
  install_at-Touches, grant_to-Touches, log_write-Touches, log_read-Touches, Touches-StaysEnded,
  enrol-StaysEnded,
}
use xernel.Process.Steps.{
  Step, yields, blocks, wakes, exits, kills, grants, installs, writes, reads, breaks, enrols, Reach,
  here, next, Anytime, WhileLive, set_break-Touches, Step-IsValid,
}

-- The process that runs, if it is not done, is not the one whose end is looked at.
running-not_ended :
    (c : Core) (i : ℕ) (p : Process)
    → state_at c.sched c.sched.current ≢ some done
    → c.sched.current ≡ i
    → process_at c.sched i ≡ some p
    → p.state ≢ done
running-not_ended c i p h e g d = h (rw (e, g) (ap some d))

yield_now-StaysEnded : (c : Core) (i : ℕ) → StaysEnded c (yield_now c) i
unfolding yield_now
yield_now-StaysEnded c i = elim (Option-cases (pick_next c.sched)) [
  | inl e ↦ rw (e, yield_now) (λ p g. (p, g, λ x. (x, refl)))
  | inr (n, e) ↦ elim (Bool-cases (n == c.sched.current)) [
    | inl same ↦ rw (e, yield_now) (rw same (λ p g. (p, g, λ x. (x, refl))))
    | inr other ↦ rw (e, yield_now) (rw other (switch_to-StaysEnded c n i))
  ]
]

block_on-StaysEnded :
    (c : Core) (reason : BlockReason) (i : ℕ)
    → state_at c.sched c.sched.current ≢ some done
    → StaysEnded c (block_on c reason) i
unfolding block_on
block_on-StaysEnded c reason i h =
    let cur = c.sched.current in
    let parked = on_sched c (λ s. update s cur (set_state (blocked reason))) in
    let parks =
      update-StaysEnded c cur i (set_state (blocked reason))
        (λ p e g x. absurd (running-not_ended c i p h e g x)) in
    elim (Option-cases (pick_next parked.sched)) [
      | inl e ↦
          rw (e, block_on)
            (StaysEnded-trans c parked (on_sched parked (λ s. update s cur (set_state ready))) i
              parks
              (update-StaysEnded parked cur i (set_state ready) (λ q same g x.
                let (p, _, changed) =
                  modify-cases c.sched.procs cur i (set_state (blocked reason)) g in
                absurd (ground arith))))
      | inr (n, e) ↦
          rw (e, block_on)
            (StaysEnded-trans c parked (switch_to parked n) i parks
              (switch_to-StaysEnded parked n i))
    ]

wake-StaysEnded : (c : Core) (reason : BlockReason) (i : ℕ) → StaysEnded c (wake c reason) i
unfolding wake
wake-StaysEnded c reason i p e = (
  wake_process reason p,
  get_elem?-map (wake_process reason) c.sched.procs i e,
  λ x. let w : is_blocked_on reason p.state ≡ false = rw x refl in rw w (x, refl),
)

exit_inner-StaysEnded :
    (c : Core) (code i : ℕ)
    → state_at c.sched c.sched.current ≢ some done
    → StaysEnded c (core_of (exit_inner c code)) i
unfolding exit_inner
exit_inner-StaysEnded c code i h =
    let dead = on_sched c (λ s. update s s.current (finish code)) in
    let ends =
      update-StaysEnded c c.sched.current i (finish code)
        (λ p e g x. absurd (running-not_ended c i p h e g x)) in
    elim (Option-cases (pick_next dead.sched)) [
      | inl e ↦ rw (e, exit_inner) ends
      | inr (n, e) ↦ rw (e, exit_inner) (unfold activate in ends)
    ]

kill-StaysEnded :
    (c : Core) (target signal i : ℕ) → IsValid c → StaysEnded c (kill c target signal).1 i
kill-StaysEnded c target signal i v = elim (kill-cases c target signal v) [
  | inl (_, e) ↦ rw e (λ p g. (p, g, λ x. (x, refl)))
  | inr (_, p, g, alive, e) ↦ rw e (
      update-StaysEnded c target i (finish signal)
        (λ q same f x. absurd (alive (let eq : p ≡ q = ground arith in rw eq x))))
]

Step-StaysEnded : (c d : Core) (i : ℕ) → IsValid c → Step WhileLive c d → StaysEnded c d i
Step-StaysEnded c d i v (yields e) =
    subst (λ x. StaysEnded c x i) (sym e) (yield_now-StaysEnded c i)
Step-StaysEnded c d i v (blocks reason h e) =
    subst (λ x. StaysEnded c x i) (sym e) (block_on-StaysEnded c reason i h)
Step-StaysEnded c d i v (wakes reason e) =
    subst (λ x. StaysEnded c x i) (sym e) (wake-StaysEnded c reason i)
Step-StaysEnded c d i v (exits code h e) =
    subst (λ x. StaysEnded c x i) (sym e) (exit_inner-StaysEnded c code i h)
Step-StaysEnded c d i v (kills target signal e) =
    subst (λ x. StaysEnded c x i) (sym e) (kill-StaysEnded c target signal i v)
Step-StaysEnded c d i v (grants target cp slot e) =
    Touches-StaysEnded c d i (rw e (grant_to-Touches c target cp slot))
Step-StaysEnded c d i v (installs slot cp e) =
    Touches-StaysEnded c d i (rw e (install_at-Touches c c.sched.current cp slot))
Step-StaysEnded c d i v (writes bytes e) =
    Touches-StaysEnded c d i (rw e (log_write-Touches c bytes))
Step-StaysEnded c d i v (reads target limit e) =
    Touches-StaysEnded c d i (rw e (log_read-Touches c target limit))
Step-StaysEnded c d i v (breaks new k same e) =
    subst (λ x. StaysEnded x d i) same
      (Touches-StaysEnded k.core d i (rw e (set_break-Touches k new)))
Step-StaysEnded c d i v (enrols k p cap_slot same pid room e) =
    subst (λ x. StaysEnded x d i) same
      (subst (λ x. StaysEnded k.core x i) (sym e) (enrol-StaysEnded k p cap_slot i))

Reach-keeps : {may : Core → Type 0} (c d : Core) → IsValid c → Reach may c d → IsValid d
Reach-keeps c d v here = v
Reach-keeps c d v (next {d = b} r s) = Step-IsValid b d s (Reach-keeps c b v r)

-- Through any sequence of yields, blocks, wakes, exits, kills, grants, capabilities installed, log
-- writes and reads, moves of the break by `sbrk`, and enrolments by `spawn` and `spawn_env`, each
-- at any time and with any arguments: the address space that is active, and the stacks that
-- system calls and interrupts use, are those of the process that runs, and every process keeps the
-- place in the table that its PID says. An enrolled process has the next PID, and the table has
-- room for it below 2^64 - 1 entries.
pub Reach-IsValid : (c d : Core) → IsValid c → Reach Anytime c d → IsValid d
Reach-IsValid c d v r = Reach-keeps c d v r

Reach-StaysEnded : (c d : Core) (i : ℕ) → IsValid c → Reach WhileLive c d → StaysEnded c d i
Reach-StaysEnded c d i v here = λ p e. (p, e, λ x. (x, refl))
Reach-StaysEnded c d i v (next {d = b} r s) =
    StaysEnded-trans c b d i (Reach-StaysEnded c b i v r)
      (Step-StaysEnded b d i (Reach-keeps c b v r) s)

-- A process other than the root that is done stays done, and its exit code stays what it was, through
-- any sequence of the same calls, spawns among them, in which the process that runs blocks and
-- exits only while it is not done itself: so another process that waits for it then reads that
-- exit code, however late.
pub wait_round-Reach :
    (c d : Core) (target : ℕ) (p : Process)
    → IsValid c
    → Reach WhileLive c d
    → target ≢ 0
    → d.sched.current ≢ target
    → process_at c.sched target ≡ some p
    → p.state ≡ done
    → wait_round d.sched target ≡ some p.exit_code
unfolding wait_round
wait_round-Reach c d target p v r root other e ended =
    let v' = Reach-keeps c d v r in
    let (q, e', h) = Reach-StaysEnded c d target v r p e in
    let (over, code) = h ended in
    let (running, at, _) = v'.running in
    let not_root : (target == 0) ≡ false = ground arith in
    let not_self : (running.pid == target) ≡ false =
      ground (arith, v'.numbered d.sched.current running at) in
    elim (find_pid_lem d target v') [
      | inr (far, _) ↦ absurd (omega (arith, get_elem?-lt d.sched.procs target e'))
      | inl (_, f) ↦ rw (not_root, wait_round, at, not_self) (rw (f, e', over) (ap some code))
    ]
