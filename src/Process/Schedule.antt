-- ===== src/Process/Schedule.antt =====
-- Which process `pick_next` of Xernel/kernel/src/process.rs chooses.
use native.Mathlib.Nat.{mod-eq_of_lt}
use xernel.Prelude.{
  ltb, if◌then◌else◌, Bool-cases, Option-cases, length, ℕ, zero, suc, ◌+◌, ◌-◌, ◌%◌, ◌≤◌, ◌<◌, ◌≡◌,
  ◌↔◌, inl, inr, true, false, none, some, arith, dec_lt,
}
use xernel.Process.{Scheduler, ready_at}
use xernel.Process.Switch.{find_ready, pick_next}

-- The process `off` places after the current one, round the table.
abbrev pub after : Scheduler → ℕ → ℕ
after s off = (s.current + off) % length s.procs

-- The first ready process after the current one, at distance `off`; at distance `n` it is the
-- current one itself.
pub record IsNext (s : Scheduler) (i off : ℕ) : Type 0 where
  pub far : (1 ≤ off) × (off ≤ length s.procs)
  pub place : i ≡ after s off
  pub is_ready : ready_at s.procs i ≡ true
  pub first : (k : ℕ) → 1 ≤ k → k < off → ready_at s.procs (after s k) ≡ false

find_ready-IsNext :
    (s : Scheduler) (off rounds i : ℕ)
    → 1 ≤ off
    → off + rounds ≡ length s.procs + 1
    → ((k : ℕ) → 1 ≤ k → k < off → ready_at s.procs (after s k) ≡ false)
    → find_ready s.procs s.current off rounds ≡ some i
    → (d : ℕ) × IsNext s i d
unfolding find_ready
find_ready-IsNext s off zero i h n before e = absurd (cc)
find_ready-IsNext s off (suc rounds) i h n before e =
    elim (Bool-cases (ready_at s.procs (after s off))) [
      | inl r ↦
          let same : i ≡ after s off = ground (arith, rw r at e) in
          (
            off,
            record { far = (h, omega arith); place = same; is_ready = rw same r; first = before },
          )
      | inr not_ready ↦
          find_ready-IsNext s (off + 1) rounds i (omega arith) (omega arith)
            (λ k h' l. elim (dec_lt k off) [
              | yes p ↦ before k h' p
              | no p ↦ let eq : k ≡ off = omega arith in rw eq not_ready
            ])
            (rw not_ready at e)
    ]

-- The choice is the first ready process in the order round the table from the one after the
-- current process, the current process last.
pub pick_next-IsNext : (s : Scheduler) (i : ℕ) → pick_next s ≡ some i → (off : ℕ) × IsNext s i off
unfolding pick_next
pick_next-IsNext s i e =
    find_ready-IsNext s 1 (length s.procs) i (omega arith) (omega arith)
      (λ k h l. absurd (omega arith)) e

find_ready-none :
    (s : Scheduler) (off rounds k : ℕ)
    → find_ready s.procs s.current off rounds ≡ none
    → off ≤ k
    → k < off + rounds
    → ready_at s.procs (after s k) ≡ false
unfolding find_ready
find_ready-none s off zero k e h l = absurd (omega arith)
find_ready-none s off (suc rounds) k e h l = elim (Bool-cases (ready_at s.procs (after s off))) [
  | inl r ↦ absurd (ground (arith, rw r at e))
  | inr r ↦ elim (dec_lt off k) [
    | yes p ↦ find_ready-none s (off + 1) rounds k (rw r at e) (omega arith) (omega arith)
    | no p ↦ let eq : k ≡ off = omega arith in rw eq r
  ]
]

-- How far round the table process `j` lies after the current one, from 1 to `n`.
abbrev pub distance : Scheduler → ℕ → ℕ
distance s j = if ltb s.current j then j - s.current else length s.procs - s.current + j

pub mod_lt : (x j n : ℕ) → j < n → x ≡ j → x % n ≡ j
mod_lt x j n h e = rw e (mod-eq_of_lt h)

pub mod_round : (x j n : ℕ) → j < n → x ≡ j + n → x % n ≡ j
mod_round x j n h e = rw e (grind arith)

pub after-distance :
    (s : Scheduler) (j : ℕ)
    → s.current < length s.procs
    → j < length s.procs
    → (after s (distance s j) ≡ j) × (1 ≤ distance s j) × (distance s j ≤ length s.procs)
after-distance s j hc hj = elim (dec_lt s.current j) [
  | yes p ↦
      let d : distance s j ≡ j - s.current = ground arith in
      (
        rw d (mod_lt (s.current + (j - s.current)) j (length s.procs) hj (omega arith)),
        rw d (omega arith),
        rw d (omega arith),
      )
  | no p ↦
      let d : distance s j ≡ length s.procs - s.current + j = ground arith in
      (
        rw d (mod_round _ j (length s.procs) hj (omega arith)),
        rw d (omega arith),
        rw d (omega arith),
      )
]

-- `pick_next` finds nobody exactly when no process of the table is ready.
pub pick_next-none :
    (s : Scheduler)
    → s.current < length s.procs
    → (pick_next s ≡ none) ↔ ((j : ℕ) → j < length s.procs → ready_at s.procs j ≡ false)
unfolding pick_next
pick_next-none s hc = (
  λ e j h.
      let (at, lo, hi) = after-distance s j hc h in
      rw at at (find_ready-none s 1 (length s.procs) (distance s j) e (omega arith) (omega arith)),
  λ none_ready. elim (Option-cases (pick_next s)) [
    | inl e ↦ e
    | inr (i, e) ↦
        let (off, next) = pick_next-IsNext s i e in
        absurd (cc (next.is_ready, none_ready i (rw next.place (omega arith))))
  ],
)
