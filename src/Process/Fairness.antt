-- ===== src/Process/Fairness.antt =====
-- Round robin in Xernel/kernel/src/process.rs: a ready process waits for a bounded number of
-- yields.
use xernel.Process.Schedule.{
  mod_round, mod_lt, IsNext, pick_next-IsNext, distance, after-distance, pick_next-none,
}
use xernel.Prelude.{
  modify, ◌==◌, Bool-cases, Option-cases, length, sub64, length-modify, ℕ, zero, suc, ◌+◌, ◌-◌, ◌≤◌,
  ◌<◌, ◌≡◌, refl, sym, ap, ◌∙◌, ◌≢◌, ◌⊎◌, inl, inr, true, List, [], ◌∷◌, arith, dec_lt, ℕ_discrete,
}
use xernel.Process.{Process, Scheduler, Core, is_ready, ready_at}
use xernel.Process.Switch.{pick_next, activate, switch_context, switch_to, yield_now}

-- `k` times `yield_now`, each by the process that then runs.
abbrev pub yield_times : ℕ → Core → Core
yield_times zero c = c
yield_times (suc k) c = yield_times k (yield_now c)

-- What a yield leaves alone.
record Settled (c d : Core) : Type 0 where
  size : length d.sched.procs ≡ length c.sched.procs
  ready_set : (j : ℕ) → ready_at d.sched.procs j ≡ ready_at c.sched.procs j

ready_at-modify :
    (xs : List Process) (i j : ℕ) (f : Process → Process)
    → ((p : Process) → (f p).state ≡ p.state)
    → ready_at (modify xs i f) j ≡ ready_at xs j
ready_at-modify [] i j f h = refl
ready_at-modify (x ∷ xs) zero zero f h = ap is_ready (h x)
ready_at-modify (x ∷ xs) zero (suc j) f h = refl
ready_at-modify (x ∷ xs) (suc i) zero f h = refl
ready_at-modify (x ∷ xs) (suc i) (suc j) f h = ready_at-modify xs i j f h

switch_to-Settled : (c : Core) (next : ℕ) → Settled c (switch_to c next)
unfolding switch_to activate switch_context
switch_to-Settled c next = record {
  size = length-modify c.sched.procs c.sched.current _;
  ready_set = λ j. ready_at-modify c.sched.procs c.sched.current j _ (λ p. refl);
}

-- A ready process is the next one, or closer than before.
step-closer :
    (s : Scheduler) (i off j : ℕ)
    → s.current < length s.procs
    → j < length s.procs
    → ready_at s.procs j ≡ true
    → IsNext s i off
    → (i ≡ j) ⊎ (distance (record s { current = i }) j < distance s j)
step-closer s i off j hc hj r next = elim (dec_lt (distance s j) off) [
  | yes early ↦
      let (at, lo, hi) = after-distance s j hc hj in
      absurd (cc (rw at at (next.first (distance s j) lo early)))
  | no late ↦ elim (dec_lt (s.current + off) (length s.procs)) [
    | yes short ↦
        let i_is : i ≡ s.current + off =
          next.place ∙ mod_lt (s.current + off) (s.current + off) (length s.procs) short refl in
        ground (arith, next.far)
    | no round ↦
        let (lo, hi) = next.far in
        let i_is : i ≡ s.current + off - length s.procs =
          next.place
          ∙ mod_round (s.current + off) (s.current + off - length s.procs) (length s.procs)
              (omega arith) (omega arith) in
        ground arith
  ]
]

yield_now-closer :
    (c : Core) (j : ℕ)
    → c.sched.current < length c.sched.procs
    → j < length c.sched.procs
    → j ≢ c.sched.current
    → ready_at c.sched.procs j ≡ true
    → Settled c (yield_now c)
      × ((yield_now c).sched.current < length c.sched.procs)
      × (((yield_now c).sched.current ≡ j) ⊎ (distance (yield_now c).sched j < distance c.sched j))
unfolding yield_now
yield_now-closer c j hc hj ne r = elim (Option-cases (pick_next c.sched)) [
  | inl e ↦ absurd (cc ((pick_next-none c.sched hc).0 e j hj))
  | inr (i, e) ↦
      let (off, n) = pick_next-IsNext c.sched i e in
      elim (Bool-cases (i == c.sched.current)) [
        | inl same ↦ absurd (elim (step-closer c.sched i off j hc hj r n) [
          | inl hit ↦ ne (ground arith)
          | inr closer ↦ ground arith
        ])
        | inr other ↦
            rw (e, yield_now)
              (rw other (
                switch_to-Settled c i,
                i_lt n,
                elim (step-closer c.sched i off j hc hj r n) [
                  | inl hit ↦ inl hit
                  | inr closer ↦ inr (
                      rw
                        (length-modify c.sched.procs c.sched.current
                          (λ p. record p { ksp = sub64 (activate c i).0.cpu.rsp 56 }))
                        closer)
                ],
              ))
      ]
]
  where
    i_lt : {i off : ℕ} → IsNext c.sched i off → i < length c.sched.procs
    i_lt n = omega (arith, n.place)

reaches :
    (fuel : ℕ) (c : Core) (j : ℕ)
    → c.sched.current < length c.sched.procs
    → j < length c.sched.procs
    → ready_at c.sched.procs j ≡ true
    → distance c.sched j ≤ fuel
    → (k : ℕ) × (k ≤ fuel) × ((yield_times k c).sched.current ≡ j)
reaches zero c j hc hj r h = absurd (ground (arith, after-distance c.sched j hc hj))
reaches (suc fuel) c j hc hj r h = elim (ℕ_discrete j c.sched.current) [
  | yes now ↦ (0, omega arith, sym now)
  | no other ↦
      let (settled, lt, near) = yield_now-closer c j hc hj other r in
      elim near [
        | inl hit ↦ (1, omega arith, hit)
        | inr closer ↦
            let (k, few, at) =
              reaches fuel (yield_now c) j (rw settled.size lt) (rw settled.size hj)
                (settled.ready_set j ∙ r) (omega arith) in
            (suc k, omega arith, at)
      ]
]

-- No ready process starves: it runs after at most as many yields as there are processes, each
-- yield by whoever runs then.
pub yield_times-reach :
    (c : Core) (j : ℕ)
    → c.sched.current < length c.sched.procs
    → j < length c.sched.procs
    → ready_at c.sched.procs j ≡ true
    → (k : ℕ) × (k ≤ length c.sched.procs) × ((yield_times k c).sched.current ≡ j)
yield_times-reach c j hc hj r =
    reaches (length c.sched.procs) c j hc hj r (after-distance c.sched j hc hj).2
