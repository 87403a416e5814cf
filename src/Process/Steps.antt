-- ===== src/Process/Steps.antt =====
-- The calls that change the process table of Xernel/kernel/src/process.rs, as steps.
use xernel.Prelude.{length, u64_max, ℕ, ◌<◌, ◌≡◌, refl, sym, subst, ◌≢◌, inl, inr, some, List}
use xernel.Process.{BlockReason, done, Process, Core}
use xernel.Process.Switch.{yield_now, block_on, wake, finish, exit_inner}
use xernel.Process.Terminal.{kill-cases}
use xernel.Process.Control.{kill, current_cap_install, grant_to, log_write, log_read}
use xernel.Process.Isolation.{
  IsValid, update-IsValid, yield_now-IsValid, block_on-IsValid, wake-IsValid, core_of,
  exit_inner-IsValid,
}
use xernel.Process.Blocking.{state_at}
use xernel.Process.Touches.{
  Touches, one, install_at-Touches, grant_to-Touches, log_write-Touches, log_read-Touches,
  Touches-IsValid, enrol-IsValid,
}
use xernel.Cap.{CapEntry}
use xernel.Syscall.{Kernel}
use xernel.Spawn.{enrol}
use xernel.Spawn.Heap.{set_break}

-- One call by the process that runs. It blocks and exits only where `may` holds. `sbrk` changes the
-- table by the new break, `spawn` and `spawn_env` by `enrol` of a process that has the next PID.
pub data Step (may : Core → Type 0) (c d : Core) : Type 0 where
  yields : d ≡ yield_now c → Step may c d
  blocks : (reason : BlockReason) → may c → d ≡ block_on c reason → Step may c d
  wakes : (reason : BlockReason) → d ≡ wake c reason → Step may c d
  exits : (code : ℕ) → may c → d ≡ core_of (exit_inner c code) → Step may c d
  kills : (target signal : ℕ) → d ≡ (kill c target signal).1 → Step may c d
  grants :
      (target : ℕ) (cp : CapEntry) (slot : ℕ) → d ≡ (grant_to c target cp slot).1 → Step may c d
  installs : (slot : ℕ) (cp : CapEntry) → d ≡ (current_cap_install c slot cp).1 → Step may c d
  writes : (bytes : List ℕ) → d ≡ log_write c bytes → Step may c d
  reads : (target limit : ℕ) → d ≡ (log_read c target limit).1 → Step may c d
  breaks : (new : ℕ) (k : Kernel) → k.core ≡ c → d ≡ (set_break k new).core → Step may c d
  enrols :
      (k : Kernel) (p : Process) (cap_slot : ℕ)
      → k.core ≡ c
      → p.pid ≡ c.sched.next_pid
      → length c.sched.procs < u64_max
      → d ≡ (enrol k p cap_slot).1.core
      → Step may c d

pub data Reach (may : Core → Type 0) (c : Core) : Core → Type 0 where
  here : Reach may c c
  next : {d e : Core} → Reach may c d → Step may d e → Reach may c e

-- At any time, also when `kill` has ended the process that called it, which then goes on running.
abbrev pub Anytime : Core → Type 0
Anytime c = Unit {0}

-- Only while the process that runs is not done.
abbrev pub WhileLive : Core → Type 0
WhileLive c = state_at c.sched c.sched.current ≢ some done

pub set_break-Touches : (k : Kernel) (new : ℕ) → Touches k.core (set_break k new).core
set_break-Touches k new =
    one k.core.sched.current (λ p. record p { heap_break = new })
      (λ p. ((refl, refl, refl), λ x. (x, refl))) refl

pub kill-IsValid : (c : Core) (target signal : ℕ) → IsValid c → IsValid (kill c target signal).1
kill-IsValid c target signal v = elim (kill-cases c target signal v) [
  | inl (_, e) ↦ rw e v
  | inr (_, p, _, _, e) ↦ rw e (update-IsValid c target (finish signal) (λ q. (refl, refl, refl)) v)
]

-- Every call keeps the invariant.
pub Step-IsValid : {may : Core → Type 0} (c d : Core) → Step may c d → IsValid c → IsValid d
Step-IsValid c d (yields e) v = subst IsValid (sym e) (yield_now-IsValid c v)
Step-IsValid c d (blocks reason h e) v = subst IsValid (sym e) (block_on-IsValid c reason v)
Step-IsValid c d (wakes reason e) v = subst IsValid (sym e) (wake-IsValid c reason v)
Step-IsValid c d (exits code h e) v = subst IsValid (sym e) (exit_inner-IsValid c code v)
Step-IsValid c d (kills target signal e) v = subst IsValid (sym e) (kill-IsValid c target signal v)
Step-IsValid c d (grants target cp slot e) v =
    subst IsValid (sym e) (Touches-IsValid c _ (grant_to-Touches c target cp slot) v)
Step-IsValid c d (installs slot cp e) v =
    subst IsValid (sym e) (Touches-IsValid c _ (install_at-Touches c c.sched.current cp slot) v)
Step-IsValid c d (writes bytes e) v =
    subst IsValid (sym e) (Touches-IsValid c _ (log_write-Touches c bytes) v)
Step-IsValid c d (reads target limit e) v =
    subst IsValid (sym e) (Touches-IsValid c _ (log_read-Touches c target limit) v)
Step-IsValid c d (breaks new k same e) v =
    subst IsValid (sym e)
      (Touches-IsValid k.core _ (set_break-Touches k new) (subst IsValid (sym same) v))
Step-IsValid c d (enrols k p cap_slot same pid room e) v =
    subst IsValid (sym e)
      (enrol-IsValid k p cap_slot (subst IsValid (sym same) v) (rw same pid) (rw same room))
