-- ===== src/Cap/Node.antt =====
-- `CNode` of Xernel/kernel/src/cap.rs: the table of capabilities that a process holds.
pub mod Laws
pub mod Budget
pub mod Authority
use xernel.Prelude.{
  ℕ, ◌-◌, Bool, true, false, ◌&&◌, ◌||◌, Option, none, some, List, [], ◌∷◌, leb, ◌==◌,
  if◌then◌else◌, saturating_add, length, get_elem?, set, replicate,
}
use xernel.Cap.{
  ◌>>=◌, CapEntry, Result, ok, err, ok_or, invalid_cap, not_permitted, same_type, untyped,
}
use xernel.Cap

pub record CNode : Type 0 where
  pub slots : List (Option CapEntry)

abbrev pub with_slots : CNode → List (Option CapEntry) → CNode
with_slots t slots = record t { slots = slots }

unfoldable pub new : ℕ → CNode
new len = record { slots = replicate len none }

-- `len` and `is_empty`.
abbrev pub len : CNode → ℕ
len t = length t.slots

unfoldable pub is_empty : CNode → Bool
is_empty t = len t == 0

abbrev pub slot : CNode → ℕ → Result (Option CapEntry)
slot t index = ok_or (get_elem? t.slots index) invalid_cap

unfoldable pub get : CNode → ℕ → Result CapEntry
get t index = do s ← slot t index; ok_or s invalid_cap

-- What `insert` does with the slot it found.
abbrev fill : CNode → ℕ → CapEntry → Option CapEntry → Result CNode
fill t index c none = ok (with_slots t (set t.slots index (some c)))
fill t index c (some held) = err not_permitted

-- An operation that changes the table returns the new one; on an error nothing has changed.
unfoldable pub insert : CNode → ℕ → CapEntry → Result CNode
insert t index c = do s ← slot t index; fill t index c s

unfoldable pub copy : CNode → ℕ → ℕ → Result CNode
copy t src dst = do c ← get t src; insert t dst c

unfoldable pub delete : CNode → ℕ → Result (CapEntry × CNode)
delete t index = do
  s ← slot t index
  c ← ok_or s invalid_cap
  ok (c, with_slots t (set t.slots index none))

-- `slots.iter().flatten().any(test)`.
abbrev any_slot : (CapEntry → Bool) → List (Option CapEntry) → Bool
any_slot test [] = false
any_slot test (none ∷ slots) = any_slot test slots
any_slot test (some c ∷ slots) = test c || any_slot test slots

unfoldable pub authorizes_port : CNode → ℕ → ℕ → Bool
authorizes_port t port size = any_slot (λ c. Cap.authorizes_port c port size) t.slots

unfoldable pub authorizes_mmio : CNode → ℕ → ℕ → Bool
authorizes_mmio t phys len = any_slot (λ c. Cap.authorizes_mmio c phys len) t.slots

-- The slots in front of those that a loop has changed.
abbrev behind : Option CapEntry → Option (List (Option CapEntry)) → Option (List (Option CapEntry))
behind s none = none
behind s (some slots) = some (s ∷ slots)

abbrev pays : CapEntry → ℕ → Bool
pays c amount = same_type c.cap_type untyped && leb amount c.object

-- The loop of `charge_untyped`; `none` when no capability has the budget.
unfoldable pub charge_slots : List (Option CapEntry) → ℕ → Option (List (Option CapEntry))
charge_slots [] amount = none
charge_slots (none ∷ slots) amount = behind none (charge_slots slots amount)
charge_slots (some c ∷ slots) amount =
    let rest = charge_slots slots amount in
    if pays c amount
    then some (some (record c { object = c.object - amount }) ∷ slots)
    else behind (some c) rest

abbrev charged : CNode → Option (List (Option CapEntry)) → Bool × CNode
charged t none = (false, t)
charged t (some slots) = (true, with_slots t slots)

unfoldable pub charge_untyped : CNode → ℕ → Bool × CNode
unfolding charge_slots
charge_untyped t amount = charged t (charge_slots t.slots amount)

unfoldable pub refund_slots : List (Option CapEntry) → ℕ → List (Option CapEntry)
refund_slots [] amount = []
refund_slots (none ∷ slots) amount = none ∷ refund_slots slots amount
refund_slots (some c ∷ slots) amount =
    let rest = refund_slots slots amount in
    if same_type c.cap_type untyped
    then some (record c { object = saturating_add c.object amount }) ∷ slots
    else some c ∷ rest

unfoldable pub refund_untyped : CNode → ℕ → CNode
unfolding refund_slots
refund_untyped t amount = with_slots t (refund_slots t.slots amount)
