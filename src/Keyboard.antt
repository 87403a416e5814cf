-- ===== src/Keyboard.antt =====
-- Xernel/kernel/src/arch/x86_64/keyboard.rs: the ring of bytes between the interrupt handler and
-- the readers, and the scancodes. The controller and its interrupt routing are not modelled.
pub mod Queue
pub mod Typing
mod Tests
use xernel.Prelude.{
  ◌==◌, if◌then◌else◌, get_elem?, set, replicate, ℕ, zero, suc, ◌+◌, ◌%◌, Option, none, some, List,
  [], ◌∷◌,
}

abbrev pub ring_cap : ℕ
ring_cap = 256

pub record Ring : Type 0 where
  pub bytes : List ℕ
  pub head : ℕ
  pub tail : ℕ

unfoldable pub new : Ring
new = record { bytes = replicate ring_cap 0; head = 0; tail = 0 }

unfoldable pub push : Ring → ℕ → Ring
push r b =
    let next = (r.tail + 1) % ring_cap in
    if next == r.head then r else record r { bytes = set r.bytes r.tail b; tail = next }

-- `data[i]`, inside the array.
abbrev pub byte_or_zero : Option ℕ → ℕ
byte_or_zero none = 0
byte_or_zero (some b) = b

abbrev pub byte_at : List ℕ → ℕ → ℕ
byte_at bytes i = byte_or_zero (get_elem? bytes i)

unfoldable pub pop : Ring → Option ℕ × Ring
pop r =
    if r.head == r.tail
    then (none, r)
    else (some (byte_at r.bytes r.head), record r { head = (r.head + 1) % ring_cap })

-- `SC1`, where 0 stands for no character.
abbrev pub sc1 : List ℕ
sc1 =
    0 ∷ 0 ∷ 49 ∷ 50 ∷ 51 ∷ 52 ∷ 53 ∷ 54 ∷ 55 ∷ 56 ∷ 57 ∷ 48 ∷ 45 ∷ 61 ∷ 8 ∷ 9 ∷ 113 ∷ 119 ∷ 101
    ∷ 114 ∷ 116 ∷ 121 ∷ 117 ∷ 105 ∷ 111 ∷ 112 ∷ 91 ∷ 93 ∷ 10 ∷ 0 ∷ 97 ∷ 115 ∷ 100 ∷ 102 ∷ 103 ∷ 104
    ∷ 106 ∷ 107 ∷ 108 ∷ 59 ∷ 39 ∷ 96 ∷ 0 ∷ 92 ∷ 122 ∷ 120 ∷ 99 ∷ 118 ∷ 98 ∷ 110 ∷ 109 ∷ 44 ∷ 46 ∷ 47
    ∷ 0 ∷ 42 ∷ 0 ∷ 32 ∷ []

abbrev mapped : Option ℕ → Option ℕ
mapped none = none
mapped (some c) = if c == 0 then none else some c

unfoldable pub translate : ℕ → Option ℕ
translate scancode = mapped (get_elem? sc1 scancode)

abbrev push_key : Ring → Option ℕ → Ring
push_key r none = r
push_key r (some ascii) = push r ascii

-- The handler, given the scancode that it reads from the controller.
unfoldable pub irq_handler : Ring → ℕ → Ring
unfolding push translate
irq_handler r scancode = push_key r (translate scancode)

abbrev drained : Option ℕ → List ℕ × Ring → Ring → List ℕ × Ring
drained none rest r = ([], r)
drained (some b) (bytes, left) r = (b ∷ bytes, left)

-- The locked loop of `read` and `read_nb`: up to `room` bytes, and the ring left.
unfoldable pub drain : Ring → ℕ → List ℕ × Ring
unfolding pop
drain r zero = ([], r)
drain r (suc room) = let (b, r') = pop r in drained b (drain r' room) r

-- `read_nb`, and one round of `read`, which waits for the next interrupt when there is nothing.
unfoldable pub read_nb : Ring → ℕ → List ℕ × Ring
unfolding drain
read_nb r room = if room == 0 then ([], r) else drain r room

abbrev answer : List ℕ × Ring → Option (List ℕ) × Ring
answer ([], r) = (none, r)
answer (b ∷ bytes, r) = (some (b ∷ bytes), r)

unfoldable pub read_round : Ring → ℕ → Option (List ℕ) × Ring
unfolding drain
read_round r room = if room == 0 then (some [], r) else answer (drain r room)
