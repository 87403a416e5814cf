-- ===== src/Process/Revival.antt =====
-- A process that ends itself by `kill` of Xernel/kernel/src/process.rs goes on running, and a call
-- that blocks brings it back among the processes that run.
use xernel.Prelude.{
  Option-cases, length, get_elem?-lt, sub64, get_elem?-modify_self, get_elem?-modify, ℕ, ◌≤◌, ◌≡◌,
  refl, ap, ◌∙◌, ◌≢◌, ◌⊎◌, inl, inr, some, arith,
}
use xernel.Process.{
  BlockReason, State, ready, blocked, done, Process, Core, process_at, update, on_sched, set_state,
}
use xernel.Process.Switch.{pick_next, activate, switch_context, switch_to, block_on, wake, finish}
use xernel.Process.Isolation.{IsValid}
use xernel.Process.Blocking.{state_at, state_at-wake}
use xernel.Process.Control.{kill}
use xernel.Process.Terminal.{kill-cases}

wake-ready :
    (c : Core) (reason : BlockReason) (i : ℕ) (st : State)
    → state_at c.sched i ≡ some st
    → (st ≡ ready) ⊎ (st ≡ blocked reason)
    → state_at (wake c reason).sched i ≡ some ready
wake-ready c reason i st h (inl e) = elim (state_at-wake c reason i st h) [
  | inl (_, w) ↦ w
  | inr (_, w) ↦ w ∙ ap some e
]
wake-ready c reason i st h (inr e) = elim (state_at-wake c reason i st h) [
  | inl (_, w) ↦ w
  | inr (n, _) ↦ absurd (n e)
]

-- A switch leaves the state of every process alone.
switch_to-state :
    (c : Core) (next i : ℕ) (p : Process)
    → process_at c.sched i ≡ some p
    → state_at (switch_to c next).sched i ≡ some p.state
unfolding switch_to activate switch_context
switch_to-state c next i p e =
    let (q, e', changed) =
      get_elem?-modify c.sched.procs c.sched.current i
        (λ p. record p { ksp = sub64 (activate c next).0.cpu.rsp 56 }) e in
    rw e' (ground arith)

block_on-state :
    (c : Core) (reason : BlockReason) (p : Process)
    → process_at c.sched c.sched.current ≡ some p
    → (state_at (block_on c reason).sched c.sched.current ≡ some ready)
      ⊎ (state_at (block_on c reason).sched c.sched.current ≡ some (blocked reason))
unfolding block_on
block_on-state c reason p e =
    let cur = c.sched.current in
    let parked = on_sched c (λ s. update s cur (set_state (blocked reason))) in
    let e' = get_elem?-modify_self c.sched.procs cur (set_state (blocked reason)) e in
    elim (Option-cases (pick_next parked.sched)) [
      | inl g ↦
          rw (g, block_on)
            (inl (rw (get_elem?-modify_self parked.sched.procs cur (set_state ready) e') refl))
      | inr (n, g) ↦
          inr (rw (g, block_on) (switch_to-state parked n cur (set_state (blocked reason) p) e'))
    ]

-- A process other than the root that ends itself by `kill` is told that it succeeded and goes on
-- running; if it then blocks on anything, and that is signalled, the ended process is ready again
-- and will be scheduled.
pub kill-block_on_revives :
    (c : Core) (signal : ℕ) (reason : BlockReason)
    → IsValid c
    → c.sched.current ≢ 0
    → state_at c.sched c.sched.current ≢ some done
    → let (status, killed) = kill c c.sched.current signal in
      (status ≡ 0)
      × (state_at killed.sched c.sched.current ≡ some done)
      × (killed.sched.current ≡ c.sched.current)
      × (state_at (wake (block_on killed reason) reason).sched c.sched.current ≡ some ready)
kill-block_on_revives c signal reason v root alive = elim (kill-cases c c.sched.current signal v) [
  | inl (why, e) ↦ absurd (refusals why)
  | inr (_, p, g, _, e) ↦
      let e' = get_elem?-modify_self c.sched.procs c.sched.current (finish signal) g in
      let killed = on_sched c (λ s. update s c.sched.current (finish signal)) in
      rw e (
        refl,
        rw e' refl,
        refl,
        elim (block_on-state killed reason (finish signal p) e') [
          | inl r ↦ wake-ready (block_on killed reason) reason c.sched.current ready r (inl refl)
          | inr b ↦
              wake-ready (block_on killed reason) reason c.sched.current (blocked reason) b
                (inr refl)
        ],
      )
]
  where
    refusals :
        (c.sched.current ≡ 0)
          ⊎ ((length c.sched.procs ≤ c.sched.current)
              ⊎ (state_at c.sched c.sched.current ≡ some done))
        → ⊥
    refusals (inl z) = root z
    refusals (inr (inl far)) =
        let (p, e, _) = v.running in omega (arith, get_elem?-lt c.sched.procs c.sched.current e)
    refusals (inr (inr over)) = alive over
