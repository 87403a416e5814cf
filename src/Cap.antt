-- ===== src/Cap.antt =====
-- Xernel/libs/xabi/src/cap.rs, Xernel/libs/xabi/src/errno.rs and the `CapEntry` half of
-- Xernel/kernel/src/cap.rs: what one capability is and what it authorizes.
pub mod Entry
pub mod Node
mod Tests
use xernel.Prelude.{
  leb, ◌==◌, if◌then◌else◌, checked_add, ℕ, ◌+◌, ◌*◌, ◌/◌, ◌%◌, ◌^◌, max, ◌≡◌, refl, ◌⊎◌, inl, inr,
  Bool, true, false, ◌&&◌, not, Option, none, some,
}

-- `CapType`, in the order of the ABI.
pub data CapType : Type 0 where
  null untyped cnode frame page_table thread vspace endpoint notification : CapType
  irq_handler io_port io_mem process : CapType

-- `cap_type as u8`. The derived `==` compares these numbers.
abbrev pub type_number : CapType → ℕ
type_number null = 0
type_number untyped = 1
type_number cnode = 2
type_number frame = 3
type_number page_table = 4
type_number thread = 5
type_number vspace = 6
type_number endpoint = 7
type_number notification = 8
type_number irq_handler = 9
type_number io_port = 10
type_number io_mem = 11
type_number process = 12

abbrev pub same_type : CapType → CapType → Bool
same_type a b = type_number a == type_number b

pub data CapError : Type 0 where
  ok_code invalid_cap invalid_arg no_mem not_permitted would_block bad_op faulted : CapError

-- `Result<A, CapError>`.
pub data Result {ℓ} (A : Type ℓ) : Type ℓ where
  ok : A → Result A
  err : CapError → Result A

infixl 5 ◌>>=◌
abbrev pub ◌>>=◌ {ℓ κ} : {A : Type ℓ} {B : Type κ} → Result A → (A → Result B) → Result B
ok a >>= f = f a
err e >>= f = err e

-- `ok_or`, `ok` and `is_ok`.
abbrev pub ok_or {ℓ} : {A : Type ℓ} → Option A → CapError → Result A
ok_or none e = err e
ok_or (some a) e = ok a

abbrev pub to_option {ℓ} : {A : Type ℓ} → Result A → Option A
to_option (ok a) = some a
to_option (err e) = none

abbrev pub is_ok {ℓ} : {A : Type ℓ} → Result A → Bool
is_ok (ok a) = true
is_ok (err e) = false

pub Result-cases {ℓ} :
    {A : Type ℓ} (r : Result A) → ((a : A) × (r ≡ ok a)) ⊎ ((e : CapError) × (r ≡ err e))
Result-cases (ok a) = inl (a, refl)
Result-cases (err e) = inr (e, refl)

pub record CapEntry : Type 0 where
  pub cap_type : CapType
  pub object : ℕ
  pub badge : ℕ

abbrev pub new_cap : CapType → ℕ → CapEntry
new_cap ty object = record { cap_type = ty; object = object; badge = 0 }

-- `(base << 16) | count` of two `u16`: the bit ranges are disjoint, so the or is a sum.
abbrev pub io_port_cap : ℕ → ℕ → CapEntry
io_port_cap base count = new_cap io_port (base * 2 ^ 16 + count)

abbrev pub process_cap : ℕ → CapEntry
process_cap pid = new_cap process pid

abbrev pub io_mem_cap : ℕ → ℕ → CapEntry
io_mem_cap base len = record { cap_type = io_mem; object = base; badge = len }

abbrev pub untyped_cap : ℕ → CapEntry
untyped_cap bytes = new_cap untyped bytes

abbrev pub endpoint_cap : ℕ → CapEntry
endpoint_cap id = new_cap endpoint id

abbrev pub notification_cap : ℕ → CapEntry
notification_cap id = new_cap notification id

abbrev pub frame_cap : ℕ → ℕ → CapEntry
frame_cap phys pages = record { cap_type = frame; object = phys; badge = pages }

-- `(self.object >> 16) as u16` and `self.object as u16`.
abbrev pub port_base : CapEntry → ℕ
port_base c = c.object / 2 ^ 16 % 2 ^ 16

abbrev pub port_count : CapEntry → ℕ
port_count c = c.object % 2 ^ 16

-- Sums of widened `u16` and `u8` values, which a `u32` holds.
unfoldable pub authorizes_port : CapEntry → ℕ → ℕ → Bool
authorizes_port c port size =
    if not (same_type c.cap_type io_port)
    then false
    else (leb (port_base c) port && leb (port + max size 1) (port_base c + port_count c))

abbrev pub within_mmio : ℕ → ℕ → Option ℕ → Option ℕ → Bool
within_mmio phys object none cap_end = false
within_mmio phys object (some end) none = false
within_mmio phys object (some end) (some cap_end) = leb object phys && leb end cap_end

unfoldable pub authorizes_mmio : CapEntry → ℕ → ℕ → Bool
authorizes_mmio c phys len =
    if not (same_type c.cap_type io_mem)
    then false
    else within_mmio phys c.object (checked_add phys len) (checked_add c.object c.badge)

unfoldable pub process_pid : CapEntry → Option ℕ
process_pid c = if same_type c.cap_type process then some c.object else none

unfoldable pub frame_object : CapEntry → Option ℕ
frame_object c = if same_type c.cap_type frame then some c.object else none

abbrev describe_by : CapType → CapEntry → ℕ × ℕ × ℕ
describe_by io_port c = (type_number io_port, port_base c, port_count c)
describe_by untyped c = (type_number untyped, c.object, 0)
describe_by ty c = (type_number ty, c.object, c.badge)

unfoldable pub describe : CapEntry → ℕ × ℕ × ℕ
describe c = describe_by c.cap_type c
