-- ===== src/Cap/Node/Budget.antt =====
-- The consumable `Untyped` budget: `charge_untyped` and `refund_untyped`.
use xernel.Cap.Node.{pays, CNode, charge_slots, charge_untyped, refund_slots, refund_untyped}
use xernel.Prelude.{
  if◌then◌else◌, Bool-cases, Option-cases, get_elem?, ℕ, zero, suc, ◌+◌, ◌-◌, ◌^◌, ◌≤◌, ◌<◌, ◌≡◌,
  refl, ◌∙◌, ◌↔◌, inl, inr, true, Option, none, some, List, [], ◌∷◌, arith,
}
use xernel.Cap.Entry.{type_number-injective}
use xernel.Cap.{untyped, same_type, CapEntry}

-- The bytes left in a slot that holds an `Untyped` capability.
abbrev pub slot_budget : Option CapEntry → ℕ
slot_budget none = 0
slot_budget (some c) = if same_type c.cap_type untyped then c.object else 0

abbrev pub total_budget : List (Option CapEntry) → ℕ
total_budget [] = 0
total_budget (s ∷ slots) = slot_budget s + total_budget slots

-- Some `Untyped` capability has `amount` bytes left.
abbrev pub CanPay : List (Option CapEntry) → ℕ → Type 0
CanPay slots amount =
    (i : ℕ) × (c : CapEntry) × (get_elem? slots i ≡ some (some c))
    × (c.cap_type ≡ untyped)
    × (amount ≤ c.object)

CanPay-behind :
    (s : Option CapEntry) (slots : List (Option CapEntry)) (amount : ℕ)
    → CanPay slots amount
    → CanPay (s ∷ slots) amount
CanPay-behind s slots amount (i, c, e, u, l) = (suc i, c, e, u, l)

charge_slots-total :
    (slots rest : List (Option CapEntry)) (amount : ℕ)
    → charge_slots slots amount ≡ some rest
    → total_budget rest + amount ≡ total_budget slots
unfolding charge_slots
charge_slots-total [] rest amount h = absurd (cc)
charge_slots-total (none ∷ slots) rest amount h = elim (Option-cases (charge_slots slots amount)) [
  | inl e ↦ absurd (cc)
  | inr (r, e) ↦ ground (arith, charge_slots-total slots r amount e)
]
charge_slots-total (some c ∷ slots) rest amount h =
    elim (Option-cases (charge_slots slots amount)) [
      | inl e ↦ ground arith
      | inr (r, e) ↦ ground (arith, charge_slots-total slots r amount e)
    ]

-- A charge that goes through takes exactly `amount` bytes from the holder's budget; one that is
-- refused takes nothing.
pub charge_untyped-total :
    (t : CNode) (amount : ℕ)
    → let (paid, u) = charge_untyped t amount in
      total_budget u.slots + (if paid then amount else 0) ≡ total_budget t.slots
unfolding charge_untyped
charge_untyped-total t amount = elim (Option-cases (charge_slots t.slots amount)) [
  | inl e ↦ rw (e, charge_untyped) (omega arith)
  | inr (r, e) ↦ rw (e, charge_untyped) (charge_slots-total t.slots r amount e)
]

charge_slots-pays :
    (slots rest : List (Option CapEntry)) (amount : ℕ)
    → charge_slots slots amount ≡ some rest
    → CanPay slots amount
unfolding charge_slots
charge_slots-pays [] rest amount h = absurd (cc)
charge_slots-pays (none ∷ slots) rest amount h = elim (Option-cases (charge_slots slots amount)) [
  | inl e ↦ absurd (cc)
  | inr (r, e) ↦ CanPay-behind none slots amount (charge_slots-pays slots r amount e)
]
charge_slots-pays (some c ∷ slots) rest amount h = elim (Bool-cases (pays c amount)) [
  | inl p ↦ (0, c, refl, type_number-injective c.cap_type untyped (ground arith), ground arith)
  | inr p ↦ elim (Option-cases (charge_slots slots amount)) [
    | inl e ↦ absurd (ground arith)
    | inr (r, e) ↦ CanPay-behind (some c) slots amount (charge_slots-pays slots r amount e)
  ]
]

charge_slots-none :
    (slots : List (Option CapEntry)) (amount i : ℕ) (c : CapEntry)
    → charge_slots slots amount ≡ none
    → get_elem? slots i ≡ some (some c)
    → c.cap_type ≡ untyped
    → c.object < amount
unfolding charge_slots
charge_slots-none [] amount i c h e u = absurd (cc)
charge_slots-none (none ∷ slots) amount zero c h e u = absurd (cc)
charge_slots-none (none ∷ slots) amount (suc i) c h e u =
    charge_slots-none slots amount i c (ground arith) e u
charge_slots-none (some d ∷ slots) amount zero c h e u = ground arith
charge_slots-none (some d ∷ slots) amount (suc i) c h e u =
    charge_slots-none slots amount i c (ground arith) e u

-- A charge goes through exactly when one single `Untyped` capability of the holder has the budget.
pub charge_untyped-CanPay :
    (t : CNode) (amount : ℕ) → ((charge_untyped t amount).0 ≡ true) ↔ CanPay t.slots amount
unfolding charge_untyped
charge_untyped-CanPay t amount = elim (Option-cases (charge_slots t.slots amount)) [
  | inl e ↦
      rw (e, charge_untyped)
        (
          (λ f. cc),
          λ p. absurd (ground (arith, charge_slots-none t.slots amount p.0 p.1 e p.2 p.3)),
        )
  | inr (r, e) ↦ rw (e, charge_untyped) ((λ _. charge_slots-pays t.slots r amount e), λ _. refl)
]

refund_slots-total :
    (slots : List (Option CapEntry)) (amount i : ℕ) (c : CapEntry)
    → total_budget slots + amount < 2 ^ 64
    → get_elem? slots i ≡ some (some c)
    → c.cap_type ≡ untyped
    → total_budget (refund_slots slots amount) ≡ total_budget slots + amount
unfolding refund_slots
refund_slots-total [] amount i c h e u = absurd (cc)
refund_slots-total (none ∷ slots) amount zero c h e u = absurd (cc)
refund_slots-total (none ∷ slots) amount (suc i) c h e u =
    omega (arith, refund_slots-total slots amount i c (omega arith) e u)
refund_slots-total (some d ∷ slots) amount zero c h e u = ground arith
refund_slots-total (some d ∷ slots) amount (suc i) c h e u =
    ground (arith, refund_slots-total slots amount i c)

charge_slots-untyped :
    (slots rest : List (Option CapEntry)) (amount : ℕ)
    → charge_slots slots amount ≡ some rest
    → (i : ℕ) × (c : CapEntry) × (get_elem? rest i ≡ some (some c)) × (c.cap_type ≡ untyped)
unfolding charge_slots
charge_slots-untyped [] rest amount h = absurd (cc)
charge_slots-untyped (none ∷ slots) rest amount h =
    elim (Option-cases (charge_slots slots amount)) [
      | inl e ↦ absurd (cc)
      | inr (r, e) ↦
          let (i, c, g, u) = charge_slots-untyped slots r amount e in (suc i, c, ground arith, u)
    ]
charge_slots-untyped (some c ∷ slots) rest amount h = elim (Bool-cases (pays c amount)) [
  | inl p ↦ (
    0,
    record c { object = c.object - amount },
    ground arith,
    type_number-injective c.cap_type untyped (ground arith),
  )
  | inr p ↦ elim (Option-cases (charge_slots slots amount)) [
    | inl e ↦ absurd (ground arith)
    | inr (r, e) ↦
        let (i, d, g, u) = charge_slots-untyped slots r amount e in (suc i, d, ground arith, u)
  ]
]

-- Refunding a charge that went through gives the holder its whole budget back, if the budget is
-- within 64 bits.
pub refund-charge-total :
    (t : CNode) (amount : ℕ)
    → total_budget t.slots < 2 ^ 64
    → (charge_untyped t amount).0 ≡ true
    → total_budget (refund_untyped (charge_untyped t amount).1 amount).slots ≡ total_budget t.slots
unfolding charge_untyped refund_untyped
refund-charge-total t amount small paid = elim (Option-cases (charge_slots t.slots amount)) [
  | inl e ↦ absurd (cc (rw (e, charge_untyped) at paid))
  | inr (r, e) ↦
      let (i, c, g, u) = charge_slots-untyped t.slots r amount e in
      let taken = charge_slots-total t.slots r amount e in
      rw (e, charge_untyped) (refund_slots-total r amount i c (omega arith) g u ∙ taken)
]
