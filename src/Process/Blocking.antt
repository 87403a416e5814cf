-- ===== src/Process/Blocking.antt =====
-- Blocking, waking and ending in Xernel/kernel/src/process.rs: who becomes runnable, and who
-- never runs again.
use xernel.Prelude.{
  Bool-cases, Option-cases, get_elem?-map, ℕ, ◌≡◌, refl, ap, ◌≢◌, ◌⊎◌, inl, inr, true, false,
  Option, none, some, arith,
}
use xernel.Process.{
  BlockReason, on_endpoint, on_notification, State, ready, blocked, done, Process, Scheduler, Core,
  same_reason, is_blocked_on, process_at,
}
use xernel.Process.Switch.{wake_process, wake}

abbrev pub state_of : Option Process → Option State
state_of none = none
state_of (some p) = some p.state

abbrev pub state_at : Scheduler → ℕ → Option State
state_at s i = state_of (process_at s i)

same_reason-eq : (a b : BlockReason) → same_reason a b ≡ true → a ≡ b
same_reason-eq (on_endpoint a) (on_endpoint b) h = ground arith
same_reason-eq (on_notification a) (on_notification b) h = ground arith
same_reason-eq (on_endpoint a) (on_notification b) h = cc
same_reason-eq (on_notification a) (on_endpoint b) h = cc

pub same_reason_refl : (a : BlockReason) → same_reason a a ≡ true
same_reason_refl (on_endpoint a) = ground arith
same_reason_refl (on_notification a) = ground arith

pub is_blocked_on-eq :
    (reason : BlockReason) (st : State) → is_blocked_on reason st ≡ true → st ≡ blocked reason
is_blocked_on-eq reason ready h = absurd (cc)
is_blocked_on-eq reason (blocked r) h = ap blocked (same_reason-eq r reason h)
is_blocked_on-eq reason done h = absurd (cc)

pub is_blocked_on_refl :
    (reason : BlockReason) (st : State) → st ≡ blocked reason → is_blocked_on reason st ≡ true
is_blocked_on_refl reason st e = rw e (same_reason_refl reason)

-- `wake` makes every process that is blocked on exactly this reason ready, and leaves the state of
-- every other process alone: one that waits for something else, one that is ready, one that is
-- done.
pub state_at-wake :
    (c : Core) (reason : BlockReason) (i : ℕ) (st : State)
    → state_at c.sched i ≡ some st
    → ((st ≡ blocked reason) × (state_at (wake c reason).sched i ≡ some ready))
      ⊎ ((st ≢ blocked reason) × (state_at (wake c reason).sched i ≡ some st))
unfolding wake
state_at-wake c reason i st h = elim (Option-cases (process_at c.sched i)) [
  | inl e ↦ absurd (cc (rw e at h))
  | inr (p, e) ↦
      let woken = get_elem?-map (wake_process reason) c.sched.procs i e in
      let same : p.state ≡ st = ground (arith, rw e at h) in
      elim (Bool-cases (is_blocked_on reason st)) [
        | inl waits ↦ inl (
          is_blocked_on-eq reason st waits,
          rw woken (let w : is_blocked_on reason p.state ≡ true = rw same waits in rw w refl),
        )
        | inr other ↦ inr (
          λ b. cc (is_blocked_on_refl reason st b),
          rw woken
              (let w : is_blocked_on reason p.state ≡ false = rw same other in rw w (ap some same)),
        )
      ]
]
