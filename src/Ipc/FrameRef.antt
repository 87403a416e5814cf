-- ===== src/Ipc/FrameRef.antt =====
-- Xernel/kernel/src/frame_ref.rs: how many `Frame` capabilities name each physical run.
pub mod Ledger
use xernel.Prelude.{
  ◌==◌, if◌then◌else◌, ℕ, ◌+◌, ◌-◌, ◌%◌, ◌^◌, Bool, true, false, Option, none, some, List, [], ◌∷◌,
}

-- `BTreeMap<u64, u32>`: at most one entry for each base address.
abbrev pub Refs : Type 0
Refs = List (ℕ × ℕ)

abbrev pub add32 : ℕ → ℕ → ℕ
add32 a b = (a + b) % 2 ^ 32

abbrev pub sub32 : ℕ → ℕ → ℕ
sub32 a b = (a + 2 ^ 32 - b) % 2 ^ 32

-- `refs.get(&phys)`.
unfoldable pub lookup : Refs → ℕ → Option ℕ
lookup [] phys = none
lookup ((p, count) ∷ refs) phys =
    let rest = lookup refs phys in if p == phys then some count else rest

unfoldable pub inc : Refs → ℕ → Refs
inc [] phys = (phys, add32 0 1) ∷ []
inc ((p, count) ∷ refs) phys =
    let rest = inc refs phys in if p == phys then (p, add32 count 1) ∷ refs else (p, count) ∷ rest

unfoldable pub remove : Refs → ℕ → Refs
remove [] phys = []
remove ((p, count) ∷ refs) phys =
    let rest = remove refs phys in if p == phys then rest else (p, count) ∷ rest

unfoldable pub store : Refs → ℕ → ℕ → Refs
store [] phys n = []
store ((p, count) ∷ refs) phys n =
    let rest = store refs phys n in if p == phys then (p, n) ∷ rest else (p, count) ∷ rest

abbrev pub drop_one : Refs → ℕ → Option ℕ → Bool × Refs
drop_one refs phys none = (false, refs)
drop_one refs phys (some count) =
    if sub32 count 1 == 0
    then (true, remove refs phys)
    else (false, store refs phys (sub32 count 1))

unfoldable pub dec : Refs → ℕ → Bool × Refs
unfolding lookup remove store
dec refs phys = drop_one refs phys (lookup refs phys)

abbrev pub count_or_none : Option ℕ → ℕ
count_or_none none = 0
count_or_none (some count) = count

-- How many references the table counts for a base address.
abbrev pub references : Refs → ℕ → ℕ
references refs phys = count_or_none (lookup refs phys)
