-- ===== src/Cap/Node/Laws.antt =====
-- The operations of a `CNode` as those of a partial map from slots to capabilities.
use xernel.Prelude.{
  ◌==◌, if◌then◌else◌, Option-cases, get_elem?, set, length-set, get_elem?-set_self,
  get_elem?-set_ne, get_elem?-lt, get_elem?-none, ℕ, zero, suc, ◌≤◌, ◌<◌, ◌≡◌, refl, ap, ◌↔◌, ◌⊎◌,
  inl, inr, Option, none, some, List, [], ◌∷◌, arith,
}
use xernel.Cap.Node.{CNode, with_slots, len, get, insert, copy, delete}
use xernel.Cap.{invalid_cap, not_permitted, ok, err, Result-cases, CapEntry}

-- Reading a slot after a write, whichever slot is read.
slots-set :
    (t : CNode) (i j : ℕ) (v : Option CapEntry)
    → i < len t
    → get_elem? (set t.slots i v) j ≡ (if i == j then some v else get_elem? t.slots j)
slots-set t i j v h = ground (arith, get_elem?-set_self t.slots i v, get_elem?-set_ne t.slots i j v)

-- A capability goes only into an empty slot of the table, and then exactly that slot holds it:
-- every other slot reads as before, and the table keeps its size.
pub get-insert :
    (t u : CNode) (i j : ℕ) (c : CapEntry)
    → insert t i c ≡ ok u
    → (get t i ≡ err invalid_cap) × (len u ≡ len t) × (get u j ≡ (if i == j then ok c else get t j))
unfolding insert get
get-insert t u i j c h = ground (
  arith,
  get_elem?-lt t.slots i {a = none},
  slots-set t i j (some c),
  length-set t.slots i (some c),
)

-- `insert` refuses an index out of range and an occupied slot, each with its own error, and
-- accepts every empty slot of the table.
pub insert-cases :
    (t : CNode) (i : ℕ) (c : CapEntry)
    → ((len t ≤ i) × (insert t i c ≡ err invalid_cap))
      ⊎ (((held : CapEntry) × (get t i ≡ ok held) × (insert t i c ≡ err not_permitted))
          ⊎ ((u : CNode) × (i < len t) × (get t i ≡ err invalid_cap) × (insert t i c ≡ ok u)))
unfolding insert get
insert-cases t i c = elim (Option-cases (get_elem? t.slots i)) [
  | inl e ↦ inl (get_elem?-none t.slots i e, rw (e, insert))
  | inr (none, e) ↦
      inr (inr (with_slots t (set t.slots i (some c)), get_elem?-lt t.slots i e, rw e, rw e))
  | inr (some held, e) ↦ inr (inl (held, rw e, rw e))
]

-- `delete` hands back what the slot held and empties that slot only; the table keeps its size.
pub get-delete :
    (t u : CNode) (i j : ℕ) (c : CapEntry)
    → delete t i ≡ ok (c, u)
    → (get t i ≡ ok c) × (len u ≡ len t) × (get u j ≡ (if i == j then err invalid_cap else get t j))
unfolding delete get
get-delete t u i j c h =
    ground
      (arith, get_elem?-lt t.slots i {a = some c}, slots-set t i j none, length-set t.slots i none)

-- `delete` fails exactly on the slots that `get` refuses.
pub delete-get-err :
    (t : CNode) (i : ℕ) → (get t i ≡ err invalid_cap) ↔ (delete t i ≡ err invalid_cap)
unfolding delete get
delete-get-err t i = (λ h. ground arith, λ h. ground arith)

set-set_back :
    (xs : List (Option CapEntry)) (i : ℕ) (v w : Option CapEntry)
    → get_elem? xs i ≡ some w
    → set (set xs i v) i w ≡ xs
set-set_back [] i v w h = refl
set-set_back (x ∷ xs) zero v w h = ground arith
set-set_back (x ∷ xs) (suc i) v w h = ap (◌∷◌ x) (set-set_back xs i v w h)

-- Deleting what was just inserted hands it back and restores the table.
pub delete-insert :
    (t u : CNode) (i : ℕ) (c : CapEntry) → insert t i c ≡ ok u → delete u i ≡ ok (c, t)
unfolding delete insert
delete-insert t u i c h = ground (
  arith,
  get_elem?-lt t.slots i {a = none},
  get_elem?-set_self t.slots i (some c),
  set-set_back t.slots i (some c) none,
)

-- A successful `copy` leaves the source as it was and makes the destination, empty before, equal
-- to it; every other slot reads as before.
pub get-copy :
    (t u : CNode) (src dst j : ℕ)
    → copy t src dst ≡ ok u
    → (c : CapEntry) × (get t src ≡ ok c)
      × (get t dst ≡ err invalid_cap)
      × (get u j ≡ (if dst == j then ok c else get t j))
unfolding copy
get-copy t u src dst j h = elim (Result-cases (get t src)) [
  | inl (c, e) ↦ let placed = get-insert t u dst j c (rw e at h) in (c, e, placed.0, placed.2)
  | inr (x, e) ↦ absurd (cc (rw e at h))
]
