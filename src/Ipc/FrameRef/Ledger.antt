-- ===== src/Ipc/FrameRef/Ledger.antt =====
-- The reference counts of Xernel/kernel/src/frame_ref.rs as a count of the calls that take a reference
-- and give one back.
use xernel.Prelude.{
  ◌==◌, if◌then◌else◌, ==_refl, Option-cases, length, ℕ, suc, ◌+◌, ◌-◌, ◌^◌, ◌≤◌, ◌<◌, ◌≡◌, refl,
  ap, subst, ◌∙◌, ◌≢◌, inl, inr, true, false, Option, none, some, List, [], ◌∷◌, arith, ℕ_discrete,
}
use xernel.Ipc.FrameRef.{Refs, add32, lookup, inc, remove, store, dec, count_or_none, references}

-- Every entry counts at least one reference, an entry at 0 being removed, and at most `limit`.
abbrev Counted : Refs → ℕ → Type 0
Counted refs limit = (phys n : ℕ) → lookup refs phys ≡ some n → (1 ≤ n) × (n ≤ limit)

lookup-inc :
    (refs : Refs) (p q : ℕ)
    → lookup (inc refs p) q ≡ (if p == q then some (add32 (references refs p) 1) else lookup refs q)
unfolding lookup inc
lookup-inc [] p q = ground arith
lookup-inc ((r, n) ∷ refs) p q = ground (arith, lookup-inc refs p q)

lookup-remove :
    (refs : Refs) (p q : ℕ) → lookup (remove refs p) q ≡ (if p == q then none else lookup refs q)
unfolding lookup remove
lookup-remove [] p q = ground arith
lookup-remove ((r, n) ∷ refs) p q = ground (arith, lookup-remove refs p q)

abbrev replaced : Option ℕ → ℕ → Option ℕ
replaced none n = none
replaced (some m) n = some n

lookup-store :
    (refs : Refs) (p q n : ℕ)
    → lookup (store refs p n) q ≡ (if p == q then replaced (lookup refs p) n else lookup refs q)
unfolding lookup store
lookup-store [] p q n = ground arith
lookup-store ((r, k) ∷ refs) p q n = ground (arith, lookup-store refs p q n)

-- The table after an operation that changes the count of one address.
After : Refs → Refs → ℕ → (ℕ → ℕ) → Type 0
After refs left p f =
    (q : ℕ) → references left q ≡ (if p == q then f (references refs q) else references refs q)

-- It is enough to look at that address, and at the others.
by_address :
    (refs left : Refs) (p : ℕ) (f : ℕ → ℕ)
    → references left p ≡ f (references refs p)
    → ((q : ℕ) → p ≢ q → references left q ≡ references refs q)
    → After refs left p f
unfolding After
by_address refs left p f at others q = elim (ℕ_discrete p q) [
  | yes same ↦
      subst (λ r. references left r ≡ (if p == r then f (references refs r) else references refs r))
        same (at ∙ rw (==_refl p) refl)
  | no other ↦ others q other ∙ ground arith
]

inc-Counted :
    (refs : Refs) (p limit : ℕ)
    → suc limit < 2 ^ 32
    → Counted refs limit
    → Counted (inc refs p) (suc limit) × After refs (inc refs p) p suc
inc-Counted refs p limit small v = (
  λ q m h. elim (Option-cases (lookup refs p)) [
    | inl e ↦ ground (arith, rw (lookup-inc refs p q, e) at h, v q m)
    | inr (n, e) ↦ let (lo, hi) = v p n e in ground (arith, rw (lookup-inc refs p q, e) at h, v q m)
  ],
  by_address refs (inc refs p) p suc
      (ap count_or_none (lookup-inc refs p p)
        ∙ rw (==_refl p) (elim (Option-cases (lookup refs p)) [
          | inl e ↦ rw e (ground arith)
          | inr (n, e) ↦ let (lo, hi) = v p n e in rw e (ground arith)
        ]))
      (λ q other. ap count_or_none (lookup-inc refs p q) ∙ ground arith),
)

data DecOutcome (refs : Refs) (p : ℕ) : Type 0 where
  unknown : lookup refs p ≡ none → dec refs p ≡ (false, refs) → DecOutcome refs p
  dropped_last : lookup refs p ≡ some 1 → dec refs p ≡ (true, remove refs p) → DecOutcome refs p
  dropped :
      (n : ℕ)
      → 1 < n
      → lookup refs p ≡ some n
      → dec refs p ≡ (false, store refs p (n - 1))
      → DecOutcome refs p

dec-DecOutcome :
    (refs : Refs) (p limit : ℕ) → limit < 2 ^ 32 → Counted refs limit → DecOutcome refs p
unfolding dec
dec-DecOutcome refs p limit small v = elim (Option-cases (lookup refs p)) [
  | inl e ↦ unknown e (rw e refl)
  | inr (n, e) ↦
      let (lo, hi) = v p n e in
      elim (ℕ_discrete n 1) [
        | yes one ↦ dropped_last (e ∙ ap some one) (rw e (ground arith))
        | no more ↦ dropped n (omega arith) e (rw e (ground arith))
      ]
]

-- A call of `inc`, or of `dec`, for a base address.
pub data RefOp : Type 0 where
  takes : ℕ → RefOp
  gives : ℕ → RefOp

abbrev pub run : List RefOp → Refs → Refs
run [] refs = refs
run (takes p ∷ ops) refs = run ops (inc refs p)
run (gives p ∷ ops) refs = run ops (dec refs p).1

-- How many references to `p` are held after the calls, from `n` before them.
abbrev pub holders : ℕ → List RefOp → ℕ → ℕ
holders p [] n = n
holders p (takes q ∷ ops) n = holders p ops (if q == p then suc n else n)
holders p (gives q ∷ ops) n = holders p ops (if q == p then n - 1 else n)

dec-Counted :
    (refs : Refs) (p limit : ℕ)
    → limit < 2 ^ 32
    → Counted refs limit
    → Counted (dec refs p).1 limit × After refs (dec refs p).1 p (λ n. n - 1)
dec-Counted refs p limit small v = elim (dec-DecOutcome refs p limit small v) [
  | unknown e d ↦ rw d (v, by_address refs refs p (λ n. n - 1) (rw e refl) (λ q other. refl))
  | dropped_last e d ↦ rw d (
    λ q m h. ground (arith, rw (lookup-remove refs p q) at h, v q m),
    by_address refs (remove refs p) p (λ n. n - 1)
        (ap count_or_none (lookup-remove refs p p) ∙ rw (==_refl p, e) refl)
        (λ q other. ap count_or_none (lookup-remove refs p q) ∙ ground arith),
  )
  | dropped n lo e d ↦
      let bound = v p n e in
      rw d (
        λ q m h. ground (arith, rw (lookup-store refs p q (n - 1), e) at h, v q m),
        by_address refs (store refs p (n - 1)) p (λ n. n - 1)
            (ap count_or_none (lookup-store refs p p (n - 1)) ∙ rw (==_refl p, e) refl)
            (λ q other. ap count_or_none (lookup-store refs p q (n - 1)) ∙ ground arith),
      )
]

abbrev Agrees : List RefOp → Refs → ℕ → ℕ → Type 0
Agrees ops refs p n =
    (references (run ops refs) p ≡ holders p ops n)
    × ((dec (run ops refs) p).0 ≡ (holders p ops n == 1))

run-holders :
    (ops : List RefOp) (refs : Refs) (limit p : ℕ)
    → Counted refs limit
    → limit + length ops < 2 ^ 32
    → Agrees ops refs p (references refs p)
unfolding After
run-holders [] refs limit p v small = (
  refl,
  elim (dec-DecOutcome refs p limit (omega arith) v) [
    | unknown e d ↦ rw (d, e) refl
    | dropped_last e d ↦ rw (d, e) refl
    | dropped n lo e d ↦ rw (d, e) (ground arith)
  ],
)
run-holders (takes q ∷ ops) refs limit p v small =
    let (v', after) = inc-Counted refs q limit (omega arith) v in
    subst (λ n. Agrees ops (inc refs q) p n) (after p)
      (run-holders ops (inc refs q) (suc limit) p v' (omega arith))
run-holders (gives q ∷ ops) refs limit p v small =
    let (v', after) = dec-Counted refs q limit (omega arith) v in
    subst (λ n. Agrees ops (dec refs q).1 p n) (after p)
      (run-holders ops (dec refs q).1 limit p v' (omega arith))

-- From the empty table on, after any script of fewer than 2^32 calls of `inc` and `dec`, the count of
-- every base address is the number of references to it that `inc` took and `dec` did not give
-- back, where a `dec` without a reference does nothing, and the next `dec` reports the last
-- reference exactly when that number is 1.
pub dec-holders :
    (ops : List RefOp) (p : ℕ)
    → length ops < 2 ^ 32
    → (references (run ops []) p ≡ holders p ops 0)
      × ((dec (run ops []) p).0 ≡ (holders p ops 0 == 1))
unfolding lookup
dec-holders ops p small = run-holders ops [] 0 p (λ q n h. absurd (cc h)) (omega arith)
