-- ===== src/Cap/Node/Authority.antt =====
-- The authority checks of a whole table, `CNode::authorizes_port` and `CNode::authorizes_mmio`.
use xernel.Cap.Node.{any_slot, CNode, len, get, authorizes_port, authorizes_mmio}
use xernel.Prelude.{
  Bool-cases, get_elem?, ℕ, zero, suc, ◌+◌, ◌^◌, ◌≤◌, ◌<◌, max, ◌≡◌, refl, ◌↔◌, inl, inr, Bool,
  true, Option, none, some, List, [], ◌∷◌, arith,
}
use xernel.Cap.{
  CapType, null, untyped, cnode, frame, page_table, thread, vspace, endpoint, notification,
  irq_handler, io_port, io_mem, process, type_number, same_type, CapError, ok_code, invalid_cap,
  invalid_arg, no_mem, not_permitted, would_block, bad_op, faulted, Result, ok, err, ◌>>=◌, ok_or,
  to_option, is_ok, Result-cases, CapEntry, new_cap, io_port_cap, process_cap, io_mem_cap,
  untyped_cap, endpoint_cap, notification_cap, frame_cap, port_base, port_count, within_mmio,
  process_pid, frame_object, describe,
}
use xernel.Cap.Entry.{authorizes_mmio_iff, authorizes_port_span}
use xernel.Cap

any_slot_sound :
    (test : CapEntry → Bool) (slots : List (Option CapEntry))
    → any_slot test slots ≡ true
    → (i : ℕ) × (c : CapEntry) × (get_elem? slots i ≡ some (some c)) × (test c ≡ true)
any_slot_sound test [] h = absurd (cc)
any_slot_sound test (none ∷ slots) h =
    let (i, c, e, p) = any_slot_sound test slots h in (suc i, c, e, p)
any_slot_sound test (some d ∷ slots) h = elim (Bool-cases (test d)) [
  | inl p ↦ (0, d, refl, p)
  | inr p ↦ let (i, c, e, q) = any_slot_sound test slots (ground arith) in (suc i, c, e, q)
]

any_slot_complete :
    (test : CapEntry → Bool) (slots : List (Option CapEntry)) (i : ℕ) (c : CapEntry)
    → get_elem? slots i ≡ some (some c)
    → test c ≡ true
    → any_slot test slots ≡ true
any_slot_complete test [] i c e p = absurd (cc)
any_slot_complete test (none ∷ slots) zero c e p = absurd (cc)
any_slot_complete test (none ∷ slots) (suc i) c e p = any_slot_complete test slots i c e p
any_slot_complete test (some d ∷ slots) zero c e p = ground arith
any_slot_complete test (some d ∷ slots) (suc i) c e p =
    ground (arith, any_slot_complete test slots i c)

get-slot :
    (t : CNode) (i : ℕ) (c : CapEntry) → (get t i ≡ ok c) ↔ (get_elem? t.slots i ≡ some (some c))
unfolding get
get-slot t i c = (λ h. ground arith, λ h. ground arith)

-- A holder may map `[phys, phys + len)` exactly when one of its slots holds an `IoMem` capability
-- whose range contains the whole span, inside the 64-bit address space.
pub authorizes_mmio-held :
    (t : CNode) (phys len : ℕ)
    → (authorizes_mmio t phys len ≡ true) ↔ (
        (i : ℕ) × (c : CapEntry) × (get t i ≡ ok c)
        × (c.cap_type ≡ io_mem)
        × (c.object ≤ phys)
        × (phys + len ≤ c.object + c.badge)
        × (c.object + c.badge < 2 ^ 64))
unfolding authorizes_mmio
authorizes_mmio-held t phys len = (
  λ h.
      let (i, c, e, p) = any_slot_sound (λ c. Cap.authorizes_mmio c phys len) t.slots h in
      let (ty, lo, hi, fits) = (authorizes_mmio_iff c phys len).0 p in
      (i, c, (get-slot t i c).1 e, ty, lo, hi, fits),
  λ (i, c, e, ty, lo, hi, fits).
      any_slot_complete (λ c. Cap.authorizes_mmio c phys len) t.slots i c ((get-slot t i c).0 e)
        ((authorizes_mmio_iff c phys len).1 (ty, lo, hi, fits)),
)

-- A holder may access the ports `[port, port + size)` exactly when one of its slots holds an
-- `IoPort` capability whose range contains the whole span, at least one port wide.
pub authorizes_port-held :
    (t : CNode) (port size : ℕ)
    → (authorizes_port t port size ≡ true) ↔ (
        (i : ℕ) × (c : CapEntry) × (get t i ≡ ok c)
        × (c.cap_type ≡ io_port)
        × (port_base c ≤ port)
        × (port + max size 1 ≤ port_base c + port_count c))
unfolding authorizes_port
authorizes_port-held t port size = (
  λ h.
      let (i, c, e, p) = any_slot_sound (λ c. Cap.authorizes_port c port size) t.slots h in
      let (ty, lo, hi) = (authorizes_port_span c port size).0 p in
      (i, c, (get-slot t i c).1 e, ty, lo, hi),
  λ (i, c, e, ty, lo, hi).
      any_slot_complete (λ c. Cap.authorizes_port c port size) t.slots i c ((get-slot t i c).0 e)
        ((authorizes_port_span c port size).1 (ty, lo, hi)),
)
