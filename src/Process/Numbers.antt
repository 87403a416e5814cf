-- ===== src/Process/Numbers.antt =====
-- Finding a process by its PID in Xernel/kernel/src/process.rs.
use xernel.Prelude.{
  length, get_elem?, get_elem?-lt, ℕ, zero, suc, ◌+◌, ◌≤◌, ◌<◌, ◌≡◌, refl, ◌≢◌, ◌⊎◌, inl, inr, none,
  some, List, [], ◌∷◌, arith, dec_lt,
}
use xernel.Process.{Process, Core}
use xernel.Process.Isolation.{IsValid}
use xernel.Process.Control.{find_pid}

find_pid-numbered :
    (procs : List Process) (base target i : ℕ)
    → ((k : ℕ) (p : Process) → get_elem? procs k ≡ some p → p.pid ≡ base + k)
    → i < length procs
    → target ≡ base + i
    → find_pid procs target ≡ some i
unfolding find_pid
find_pid-numbered [] base target i n h e = absurd (omega arith)
find_pid-numbered (p ∷ procs) base target zero n h e = ground (arith, n 0 p refl)
find_pid-numbered (p ∷ procs) base target (suc i) n h e = ground (
  arith,
  n 0 p refl,
  find_pid-numbered procs (base + 1) target i (λ k q g. omega (arith, n (suc k) q g)),
)

find_pid-unknown :
    (procs : List Process) (target : ℕ)
    → ((k : ℕ) (p : Process) → get_elem? procs k ≡ some p → p.pid ≢ target)
    → find_pid procs target ≡ none
unfolding find_pid
find_pid-unknown [] target n = refl
find_pid-unknown (p ∷ procs) target n =
    ground (arith, n 0 p refl, find_pid-unknown procs target (λ k. n (suc k)))

-- In a valid table the search by PID finds the process at that place, and fails exactly beyond
-- the end of the table.
pub find_pid_lem :
    (c : Core) (target : ℕ)
    → IsValid c
    → ((target < length c.sched.procs) × (find_pid c.sched.procs target ≡ some target))
      ⊎ ((length c.sched.procs ≤ target) × (find_pid c.sched.procs target ≡ none))
find_pid_lem c target v = elim (dec_lt target (length c.sched.procs)) [
  | yes h ↦ inl (
    h,
    find_pid-numbered c.sched.procs 0 target target (λ k p g. omega (arith, v.numbered k p g)) h
        (omega arith),
  )
  | no h ↦ inr (
    omega arith,
    find_pid-unknown c.sched.procs target
        (λ k p g. omega (arith, v.numbered k p g, get_elem?-lt c.sched.procs k g)),
  )
]
