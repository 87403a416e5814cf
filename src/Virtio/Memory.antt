-- ===== src/Virtio/Memory.antt =====
-- Reads of the memory that the virtio drivers of Xernel/userland/init/src/main.rs share with the device,
-- after writes of it.
use xernel.Prelude.{
  ltb, leb, Bool-cases, length, octet, ℕ, zero, suc, ◌+◌, ◌-◌, ◌≤◌, ◌<◌, ◌≡◌, refl, ◌⊎◌, inl, inr,
  true, false, List, [], ◌∷◌, ◌++◌, arith,
}
use xernel.Virtio.{Memory, store, fetch}

pub length-fetch : (m : Memory) (a n : ℕ) → length (fetch m a n) ≡ n
unfolding fetch
length-fetch m a zero = refl
length-fetch m a (suc n) = omega (arith, length-fetch m (suc a) n)

-- Bytes are read at an address if each stands at its own.
pub fetch_ext :
    (m : Memory) (a : ℕ) (bytes : List ℕ)
    → ((i : ℕ) → i < length bytes → m (a + i) ≡ octet bytes i)
    → fetch m a (length bytes) ≡ bytes
unfolding fetch
fetch_ext m a [] h = refl
fetch_ext m a (b ∷ bytes) h =
    let here : a + 0 ≡ a = omega arith in
    let first : m a ≡ b = rw here at (h 0 (omega arith)) in
    let rest =
      fetch_ext m (suc a) bytes
        λ i l. let e : suc a + i ≡ a + suc i = omega arith in rw e (h (suc i) (omega arith)) in
    rw (first, rest) refl

pub fetch_cong :
    (m m' : Memory) (a n : ℕ)
    → ((i : ℕ) → i < n → m (a + i) ≡ m' (a + i))
    → fetch m a n ≡ fetch m' a n
unfolding fetch
fetch_cong m m' a zero h = refl
fetch_cong m m' a (suc n) h =
    let here : a + 0 ≡ a = omega arith in
    let first : m a ≡ m' a = rw here at (h 0 (omega arith)) in
    let rest =
      fetch_cong m m' (suc a) n
        λ i l. let e : suc a + i ≡ a + suc i = omega arith in rw e (h (suc i) (omega arith)) in
    rw (first, rest) refl

pub store_in :
    (m : Memory) (a : ℕ) (bytes : List ℕ) (i : ℕ)
    → i < length bytes
    → store m a bytes (a + i) ≡ octet bytes i
unfolding store
store_in m a bytes i h =
    let low : leb a (a + i) ≡ true = ground arith in
    let high : ltb (a + i) (a + length bytes) ≡ true = ground arith in
    let e : a + i - a ≡ i = omega arith in rw (low, high, e) refl

pub store_out :
    (m : Memory) (a : ℕ) (bytes : List ℕ) (x : ℕ)
    → (x < a) ⊎ (a + length bytes ≤ x)
    → store m a bytes x ≡ m x
unfolding store
store_out m a bytes x (inl h) = let low : leb a x ≡ false = ground arith in rw low refl
store_out m a bytes x (inr h) = elim (Bool-cases (leb a x)) [
  | inl low ↦ let high : ltb x (a + length bytes) ≡ false = ground arith in rw (low, high) refl
  | inr low ↦ rw low refl
]

-- What was written is read.
pub fetch-store_self :
    (m : Memory) (a : ℕ) (bytes : List ℕ) → fetch (store m a bytes) a (length bytes) ≡ bytes
fetch-store_self m a bytes = fetch_ext (store m a bytes) a bytes (store_in m a bytes)

-- A write elsewhere does not show.
pub fetch-store_apart :
    (m : Memory) (a : ℕ) (bytes : List ℕ) (c n : ℕ)
    → (c + n ≤ a) ⊎ (a + length bytes ≤ c)
    → fetch (store m a bytes) c n ≡ fetch m c n
fetch-store_apart m a bytes c n apart = fetch_cong (store m a bytes) m c n λ i h.
    store_out m a bytes (c + i)
      (elim apart [ inl p ↦ inl (omega arith) | inr p ↦ inr (omega arith) ])

-- The front and the rest of what is read.
pub fetch_add : (m : Memory) (a n k : ℕ) → fetch m a (n + k) ≡ fetch m a n ++ fetch m (a + n) k
unfolding fetch
fetch_add m a zero k =
    let e : 0 + k ≡ k = omega arith in let e2 : a + 0 ≡ a = omega arith in rw (e, e2) refl
fetch_add m a (suc n) k =
    let e : suc n + k ≡ suc (n + k) = omega arith in
    let e2 : a + suc n ≡ suc a + n = omega arith in rw (e, e2, fetch_add m (suc a) n k) refl
