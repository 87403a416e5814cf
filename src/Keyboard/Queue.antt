-- ===== src/Keyboard/Queue.antt =====
-- The ring of Xernel/kernel/src/arch/x86_64/keyboard.rs as a queue of at most 255 bytes.
use xernel.Prelude.{
  ltb, ◌==◌, if◌then◌else◌, eq→==, length, set, length-set, length-replicate, get_elem?-set_self,
  get_elem?-set_ne, ℕ, zero, suc, ◌+◌, ◌-◌, ◌%◌, ◌≤◌, ◌<◌, ◌≡◌, refl, ap, ◌∙◌, ◌≢◌, true, false,
  Option, none, some, List, [], ◌∷◌, ◌++◌, arith, ℕ_discrete,
}
use xernel.Keyboard.{byte_or_zero, ring_cap, Ring, new, push, byte_at, pop}

-- The number of bytes in the ring.
abbrev pub size : Ring → ℕ
size r = (r.tail + ring_cap - r.head) % ring_cap

-- `n` bytes from index `i` on, round the array.
abbrev collect : List ℕ → ℕ → ℕ → List ℕ
collect bytes i zero = []
collect bytes i (suc n) = byte_at bytes i ∷ collect bytes ((i + 1) % ring_cap) n

-- The bytes waiting, the oldest first.
abbrev pub contents : Ring → List ℕ
contents r = collect r.bytes r.head (size r)

pub record IsValid (r : Ring) : Type 0 where
  pub whole : length r.bytes ≡ ring_cap
  pub head_in : r.head < ring_cap
  pub tail_in : r.tail < ring_cap

valid : {r : Ring} → length r.bytes ≡ ring_cap → r.head < ring_cap → r.tail < ring_cap → IsValid r
valid a h t = record { whole = a; head_in = h; tail_in = t }

byte_at-set_self : (bytes : List ℕ) (i v : ℕ) → i < length bytes → byte_at (set bytes i v) i ≡ v
byte_at-set_self bytes i v h = ap byte_or_zero (get_elem?-set_self bytes i v h)

byte_at-set_ne : (bytes : List ℕ) (i j v : ℕ) → i ≢ j → byte_at (set bytes i v) j ≡ byte_at bytes j
byte_at-set_ne bytes i j v h = ap byte_or_zero (get_elem?-set_ne bytes i j v h)

-- A byte written right behind `n` bytes joins them.
collect-set :
    (bytes : List ℕ) (i n t v : ℕ)
    → length bytes ≡ ring_cap
    → i < ring_cap
    → n < ring_cap
    → t ≡ (i + n) % ring_cap
    → collect (set bytes t v) i (suc n) ≡ collect bytes i n ++ v ∷ []
collect-set bytes i zero t v w hi hn e =
    let at : t ≡ i = omega arith in
    ap (λ x. x ∷ []) (rw at (byte_at-set_self bytes i v (omega arith)))
collect-set bytes i (suc n) t v w hi hn e =
    let other : t ≢ i = omega arith in
    rw (byte_at-set_ne bytes t i v other) (
      ap (◌∷◌ (byte_at bytes i))
        (collect-set bytes ((i + 1) % 256) n t v w (omega arith) (omega arith) (omega arith)))

length-collect : (bytes : List ℕ) (i n : ℕ) → length (collect bytes i n) ≡ n
length-collect bytes i zero = refl
length-collect bytes i (suc n) = ap suc (length-collect bytes ((i + 1) % 256) n)

pub length-contents : (r : Ring) → IsValid r → length (contents r) ≤ 255
length-contents r v =
    let h = v.head_in in
    let t = v.tail_in in rw (length-collect r.bytes r.head (size r)) (omega arith)

pub new-IsValid : IsValid new × (contents new ≡ [])
unfolding new
new-IsValid = (
  record { whole = length-replicate {A = ℕ} 256 0; head_in = omega arith; tail_in = omega arith },
  refl,
)

-- A byte is appended to what is waiting, unless 255 bytes are, and then it is dropped.
pub contents-push :
    (r : Ring) (b : ℕ)
    → IsValid r
    → IsValid (push r b)
      × (contents (push r b)
          ≡ (if ltb (length (contents r)) 255 then contents r ++ b ∷ [] else contents r))
unfolding push
contents-push r b v =
    let a = v.whole in
    let h = v.head_in in
    let t = v.tail_in in
    rw (length-collect r.bytes r.head (size r)) (elim (ℕ_discrete ((r.tail + 1) % 256) r.head) [
      | yes full ↦
          let many : ltb (size r) 255 ≡ false = ground arith in
          rw (many, eq→== ((r.tail + 1) % 256) r.head full) (v, refl)
      | no room ↦
          let few : ltb (size r) 255 ≡ true = ground arith in
          let differ : ((r.tail + 1) % 256 == r.head) ≡ false = ground arith in
          let grows : ((r.tail + 1) % 256 + 256 - r.head) % 256 ≡ suc (size r) = omega arith in
          rw (few, differ)
            (
              valid (length-set r.bytes r.tail b ∙ a) h (omega arith),
              rw grows
                  (collect-set r.bytes r.head (size r) r.tail b a h (omega arith) (omega arith)),
            )
    ])

-- What was waiting, given the byte taken from it and what is left.
abbrev pub put_back : Option ℕ → List ℕ → List ℕ
put_back none bytes = []
put_back (some b) bytes = b ∷ bytes

-- What is taken is the oldest byte waiting; nothing is taken exactly when none is.
pub contents-pop :
    (r : Ring)
    → IsValid r
    → IsValid (pop r).1
      × (contents r ≡ put_back (pop r).0 (contents (pop r).1))
      × ((pop r).0 ≡ none → (pop r).1 ≡ r)
unfolding pop
contents-pop r v =
    let a = v.whole in
    let h = v.head_in in
    let t = v.tail_in in
    elim (ℕ_discrete r.head r.tail) [
      | yes empty ↦
          let none_left : size r ≡ 0 = omega arith in
          rw (eq→== r.head r.tail empty, none_left) (v, refl, λ _. refl)
      | no some_left ↦
          let differ : (r.head == r.tail) ≡ false = ground arith in
          let shrinks : size r ≡ suc ((r.tail + 256 - (r.head + 1) % 256) % 256) = omega arith in
          rw (differ, shrinks) (valid a (omega arith) t, refl, λ x. absurd (cc x))
    ]
