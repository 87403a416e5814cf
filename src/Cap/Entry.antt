-- ===== src/Cap/Entry.antt =====
-- What a `CapEntry` of Xernel/kernel/src/cap.rs authorizes, and what its packed fields say.
use xernel.Cap.{
  port_count, port_base, io_mem, CapEntry, io_port, authorizes_mmio, describe, CapType, type_number,
  authorizes_port, io_port_cap,
}
use xernel.Prelude.{ℕ, ◌+◌, ◌^◌, ◌≤◌, ◌<◌, max, ◌≡◌, ◌↔◌, true, arith}

pub type_number-injective : (a b : CapType) → type_number a ≡ type_number b → a ≡ b
type_number-injective a b h = ground arith

pub authorizes_port_span :
    (c : CapEntry) (port size : ℕ)
    → (authorizes_port c port size ≡ true) ↔ (
        (c.cap_type ≡ io_port)
        × (port_base c ≤ port)
        × (port + max size 1 ≤ port_base c + port_count c))
unfolding authorizes_port
authorizes_port_span c port size =
    (λ h. ground (arith, type_number-injective c.cap_type io_port), λ h. ground arith)

-- A port capability made from a base and a count of 16 bits authorizes an access exactly when the
-- whole span of the access, at least one byte wide, lies inside `[base, base + count)`.
pub authorizes_port_iff :
    (base count port size : ℕ)
    → base < 2 ^ 16
    → count < 2 ^ 16
    → (authorizes_port (io_port_cap base count) port size ≡ true)
      ↔ ((base ≤ port) × (port + max size 1 ≤ base + count))
unfolding authorizes_port
authorizes_port_iff base count port size hb hc = (λ h. ground arith, λ h. ground arith)

-- A capability authorizes a mapping of `[phys, phys + len)` exactly when it is an `IoMem`
-- capability whose range contains the span and does not run past the end of the address space.
pub authorizes_mmio_iff :
    (c : CapEntry) (phys len : ℕ)
    → (authorizes_mmio c phys len ≡ true) ↔ (
        (c.cap_type ≡ io_mem)
        × (c.object ≤ phys)
        × (phys + len ≤ c.object + c.badge)
        × (c.object + c.badge < 2 ^ 64))
unfolding authorizes_mmio
authorizes_mmio_iff c phys len =
    (λ h. ground (arith, type_number-injective c.cap_type io_mem), λ h. ground arith)

-- `describe` of a port capability gives back the base and the count that it was made from.
pub describe-io_port :
    (base count : ℕ)
    → base < 2 ^ 16
    → count < 2 ^ 16
    → describe (io_port_cap base count) ≡ (type_number io_port, base, count)
unfolding describe
describe-io_port base count hb hc = ground arith
