-- ===== src/Threads/Rounds.antt =====
-- The round robin of Xernel/kernel/src/sched.rs: who runs, and where a thread goes on.
use xernel.Prelude.{
  modify, ltb, ◌==◌, if◌then◌else◌, length, get_elem?, get_elem?-exists, u64_mod, add64, sub64,
  length-modify, get_elem?-modify_self, get_elem?-modify_ne, ℕ, zero, suc, ◌+◌, ◌%◌, ◌≤◌, ◌<◌, ◌≡◌,
  refl, sym, ap, subst, ◌∙◌, ◌≢◌, true, false, some, arith, dec_lt, ℕ_discrete,
}
use native.Mathlib.Nat.{mod-add-mod, mod-eq_of_lt, mod_self}
use xernel.Threads.{Scheduler, rsp_of, save_rsp, yield_now}

abbrev pub yield_times : ℕ → Scheduler → Scheduler
yield_times zero s = s
yield_times (suc k) s = yield_times k (yield_now s)

yield_now-current :
    (s : Scheduler)
    → 2 ≤ length s.threads
    → (length (yield_now s).threads ≡ length s.threads)
      × ((yield_now s).current ≡ (s.current + 1) % length s.threads)
unfolding yield_now
yield_now-current s two =
    let e : ltb (length s.threads) 2 ≡ false = ground arith in
    rw e (length-modify s.threads s.current (save_rsp (sub64 s.cpu_rsp 56)), refl)

-- Where the processor's stack pointer is when thread `i` goes on: the one that runs has it in the
-- processor, the others have it in the table, below the seven words that `switch` takes down.
abbrev pub position : Scheduler → ℕ → ℕ
position s i = if i == s.current then s.cpu_rsp else add64 (rsp_of (get_elem? s.threads i)) 56

next_differs : (cur n : ℕ) → 2 ≤ n → cur < n → (cur + 1) % n ≢ cur
next_differs cur n two h e = elim (dec_lt (cur + 1) n) [
  | yes low ↦ let same = mod-eq_of_lt low in absurd (omega arith)
  | no high ↦
      let last : cur + 1 ≡ n = omega arith in
      let round : (cur + 1) % n ≡ 0 = rw last (mod_self n) in absurd (omega arith)
]

yield_now-position :
    (s : Scheduler) (i : ℕ)
    → 2 ≤ length s.threads
    → s.current < length s.threads
    → s.cpu_rsp < u64_mod
    → position (yield_now s) i ≡ position s i
unfolding yield_now
yield_now-position s i two h low =
    let n = length s.threads in
    let many : ltb n 2 ≡ false = ground arith in
    let differs = next_differs s.current n two h in
    let parked = save_rsp (sub64 s.cpu_rsp 56) in
    let (t, running) = get_elem?-exists s.threads s.current h in
    elim (ℕ_discrete i ((s.current + 1) % n)) [
      | yes to ↦
          let there : (i == (s.current + 1) % n) ≡ true = ground arith in
          let left : (i == s.current) ≡ false = ground arith in
          rw many (rw (there, left) (ap (λ j. add64 (rsp_of (get_elem? s.threads j)) 56) (sym to)))
      | no other ↦
          let there : (i == (s.current + 1) % n) ≡ false = ground arith in
          elim (ℕ_discrete i s.current) [
            | yes from ↦
                let left : (i == s.current) ≡ true = ground arith in
                let saved : get_elem? (modify s.threads s.current parked) i ≡ some (parked t) =
                  rw from (get_elem?-modify_self s.threads s.current parked running) in
                rw many (rw (there, left, saved) (omega arith))
            | no third ↦
                let left : (i == s.current) ≡ false = ground arith in
                let kept : get_elem? (modify s.threads s.current parked) i ≡ get_elem? s.threads i =
                  get_elem?-modify_ne s.threads s.current i parked (λ e. third (sym e)) in
                rw many (rw (there, left, kept) refl)
          ]
    ]

yield_times-turn :
    (k : ℕ) (s : Scheduler)
    → 2 ≤ length s.threads
    → s.current < length s.threads
    → (yield_times k s).current ≡ (s.current + k) % length s.threads
yield_times-turn zero s two h =
    sym (let e : s.current + 0 ≡ s.current = omega arith in rw e (mod-eq_of_lt h))
yield_times-turn (suc k) s two h =
    let (same, next) = yield_now-current s two in
    let n = length s.threads in
    let later = yield_times-turn k (yield_now s) (rw same two) (rw (same, next) (grind arith)) in
    let moved : ((s.current + 1) % n + k) % n ≡ (s.current + suc k) % n =
      mod-add-mod (s.current + 1) n k ∙ ap (λ x. x % n) (omega arith) in
    later ∙ rw (same, next) moved

yield_now-bounded : (s : Scheduler) → 2 ≤ length s.threads → (yield_now s).cpu_rsp < u64_mod
unfolding yield_now
yield_now-bounded s two =
    let many : ltb (length s.threads) 2 ≡ false = ground arith in rw many (omega arith)

yield_times-position :
    (k : ℕ) (s : Scheduler) (i : ℕ)
    → 2 ≤ length s.threads
    → s.current < length s.threads
    → s.cpu_rsp < u64_mod
    → position (yield_times k s) i ≡ position s i
yield_times-position zero s i two h low = refl
yield_times-position (suc k) s i two h low =
    let (same, next) = yield_now-current s two in
    yield_times-position k (yield_now s) i (rw same two) (rw (same, next) (grind arith))
      (yield_now-bounded s two)
    ∙ yield_now-position s i two h low

-- The threads take turns: after `k` yields in a row the thread is current that lies `k` places further
-- round the table, and the processor's stack pointer is where that thread stopped, or is to begin.
-- Every other thread, too, is to go on where it was to go on before. There are at least two
-- threads, the current one is in the table, and the stack pointer is a 64-bit number.
pub yield_times-current :
    (k : ℕ) (s : Scheduler)
    → 2 ≤ length s.threads
    → s.current < length s.threads
    → s.cpu_rsp < u64_mod
    → ((yield_times k s).current ≡ (s.current + k) % length s.threads)
      × ((yield_times k s).cpu_rsp ≡ position s ((s.current + k) % length s.threads))
      × ((i : ℕ) → position (yield_times k s) i ≡ position s i)
yield_times-current k s two h low =
    let turn = yield_times-turn k s two h in
    let kept = yield_times-position k s (yield_times k s).current two h low in
    let self : ((yield_times k s).current == (yield_times k s).current) ≡ true = ground arith in
    (
      turn,
      subst (λ j. (yield_times k s).cpu_rsp ≡ position s j) turn (rw self at kept),
      λ i. yield_times-position k s i two h low,
    )
