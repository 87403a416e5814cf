-- ===== src/Virtio/Queue.antt =====
-- The descriptors and the copies of Xernel/userland/init/src/main.rs, read back from memory.
use xernel.Prelude.{
  length, u64_mod, add64, mul64, le_bytes, from_le_bytes, octet, length-le_bytes,
  from_le_bytes-le_bytes, ℕ, zero, suc, ◌+◌, ◌*◌, ◌^◌, ◌≤◌, ◌<◌, ◌≡◌, refl, ap, subst, ◌∙◌, ◌⊎◌,
  inl, inr, List, [], ◌∷◌, arith, ℕ_discrete,
}
use xernel.Virtio.{Memory, store, fetch, wr_u8, write16, write32, write64, read16, write_desc}
use xernel.Virtio.Memory.{fetch_cong, store_in, store_out, fetch-store_self, fetch-store_apart}
use xernel.Virtio.Block.{copy_in, copy_out}

-- A descriptor as the device reads it from the table.
pub record Desc : Type 0 where
  pub addr : ℕ
  pub len : ℕ
  pub flags : ℕ
  pub next : ℕ

abbrev pub read32 : Memory → ℕ → ℕ
read32 m a = from_le_bytes (fetch m a 4)

abbrev pub read64 : Memory → ℕ → ℕ
read64 m a = from_le_bytes (fetch m a 8)

abbrev pub read_desc : Memory → ℕ → ℕ → Desc
read_desc m table i =
    let d = table + 16 * i in
    record {
      addr = read64 m d;
      len = read32 m (d + 8);
      flags = read16 m (d + 12);
      next = read16 m (d + 14);
    }

pub add64-plain : (a b : ℕ) → a + b < u64_mod → add64 a b ≡ a + b
add64-plain a b h = omega arith

-- A number that fits is read where it was written.
pub from_le_bytes-store :
    (m : Memory) (a n v : ℕ)
    → v < 256 ^ n
    → from_le_bytes (fetch (store m a (le_bytes n v)) a n) ≡ v
from_le_bytes-store m a n v h =
    let same =
      subst (λ k. fetch (store m a (le_bytes n v)) a k ≡ le_bytes n v) (length-le_bytes n v)
        (fetch-store_self m a (le_bytes n v)) in
    rw same (from_le_bytes-le_bytes n v h)

pub read-store_apart :
    (m : Memory) (a n v c k : ℕ)
    → (c + k ≤ a) ⊎ (a + n ≤ c)
    → from_le_bytes (fetch (store m a (le_bytes n v)) c k) ≡ from_le_bytes (fetch m c k)
read-store_apart m a n v c k apart =
    let clear : (c + k ≤ a) ⊎ (a + length (le_bytes n v) ≤ c) = rw (length-le_bytes n v) apart in
    ap from_le_bytes (fetch-store_apart m a (le_bytes n v) c k clear)

pub store_le-out :
    (m : Memory) (a n v x : ℕ) → (x < a) ⊎ (a + n ≤ x) → store m a (le_bytes n v) x ≡ m x
store_le-out m a n v x apart =
    let clear : (x < a) ⊎ (a + length (le_bytes n v) ≤ x) = rw (length-le_bytes n v) apart in
    store_out m a (le_bytes n v) x clear

module _ (m : Memory) (base i addr len flags next : ℕ) (inside : base + 16 * i + 16 ≤ u64_mod) where
  abbrev desc_at : ℕ
  desc_at = base + 16 * i

  write_desc-plain :
      write_desc m base i addr len flags next
      ≡ write16
          (write16 (write32 (write64 m desc_at addr) (desc_at + 8) len) (desc_at + 12) flags)
          (desc_at + 14)
          next
  unfolding write_desc
  write_desc-plain =
      let e : add64 base (mul64 i 16) ≡ base + 16 * i = omega arith in
      rw
        (
          e,
          add64-plain desc_at 8 (omega arith),
          add64-plain desc_at 12 (omega arith),
          add64-plain desc_at 14 (omega arith),
        )
        refl

  pub write_desc-out :
      (x : ℕ)
      → (x < base + 16 * i) ⊎ (base + 16 * i + 16 ≤ x)
      → write_desc m base i addr len flags next x ≡ m x
  write_desc-out x apart =
      let beside : (a n : ℕ) → desc_at ≤ a → a + n ≤ desc_at + 16 → (x < a) ⊎ (a + n ≤ x) =
        λ a n l h. ground arith in
      rw write_desc-plain (
        store_le-out _ (desc_at + 14) 2 next x (beside (desc_at + 14) 2 (omega arith) (omega arith))
        ∙ store_le-out _ (desc_at + 12) 2 flags x
            (beside (desc_at + 12) 2 (omega arith) (omega arith))
        ∙ store_le-out _ (desc_at + 8) 4 len x (beside (desc_at + 8) 4 (omega arith) (omega arith))
        ∙ store_le-out m desc_at 8 addr x (beside desc_at 8 (omega arith) (omega arith)))

  pub read_desc-write_desc :
      addr < u64_mod
      → len < 2 ^ 32
      → flags < 2 ^ 16
      → next < 2 ^ 16
      → read_desc (write_desc m base i addr len flags next) base i
        ≡ record { addr = addr; len = len; flags = flags; next = next }
  read_desc-write_desc ha hl hf hn =
      let m1 = write64 m desc_at addr in
      let m2 = write32 m1 (desc_at + 8) len in
      let m3 = write16 m2 (desc_at + 12) flags in
      let m4 = write16 m3 (desc_at + 14) next in
      let e1 : read64 m4 desc_at ≡ addr =
        read-store_apart m3 (desc_at + 14) 2 next desc_at 8 (inl (omega arith))
        ∙ read-store_apart m2 (desc_at + 12) 2 flags desc_at 8 (inl (omega arith))
        ∙ read-store_apart m1 (desc_at + 8) 4 len desc_at 8 (inl (omega arith))
        ∙ from_le_bytes-store m desc_at 8 addr (omega arith) in
      let e2 : read32 m4 (desc_at + 8) ≡ len =
        read-store_apart m3 (desc_at + 14) 2 next (desc_at + 8) 4 (inl (omega arith))
        ∙ read-store_apart m2 (desc_at + 12) 2 flags (desc_at + 8) 4 (inl (omega arith))
        ∙ from_le_bytes-store m1 (desc_at + 8) 4 len (omega arith) in
      let e3 : read16 m4 (desc_at + 12) ≡ flags =
        read-store_apart m3 (desc_at + 14) 2 next (desc_at + 12) 2 (inl (omega arith))
        ∙ from_le_bytes-store m2 (desc_at + 12) 2 flags (omega arith) in
      let e4 : read16 m4 (desc_at + 14) ≡ next =
        from_le_bytes-store m3 (desc_at + 14) 2 next (omega arith) in
      rw (write_desc-plain, e1, e2, e3, e4) refl

-- A descriptor is its sixteen bytes.
pub read_desc-cong :
    (m m' : Memory) (table i : ℕ)
    → ((x : ℕ) → table + 16 * i ≤ x → x < table + 16 * i + 16 → m x ≡ m' x)
    → read_desc m table i ≡ read_desc m' table i
read_desc-cong m m' table i h =
    let d = table + 16 * i in
    let part : (off n : ℕ) → off + n ≤ 16 → fetch m (d + off) n ≡ fetch m' (d + off) n =
      λ off n l. fetch_cong m m' (d + off) n λ j k. h (d + off + j) (omega arith) (omega arith) in
    let e : d + 0 ≡ d = omega arith in
    let p0 : fetch m d 8 ≡ fetch m' d 8 = rw e at (part 0 8 (omega arith)) in
    rw (p0, part 8 4 (omega arith), part 12 2 (omega arith), part 14 2 (omega arith)) refl

pub copy_in-out :
    (left i : ℕ) (m : Memory) (va : ℕ) (buf : List ℕ) (x : ℕ)
    → va + i + left ≤ u64_mod
    → (x < va + i) ⊎ (va + i + left ≤ x)
    → copy_in m va buf i left x ≡ m x
unfolding copy_in
copy_in-out zero i m va buf x inside apart = refl
copy_in-out (suc left) i m va buf x inside apart =
    let e = add64-plain va i (omega arith) in
    rw e (
      copy_in-out left (suc i) (wr_u8 m (va + i) (octet buf i)) va buf x (omega arith)
        (elim apart [ inl h ↦ inl (omega arith) | inr h ↦ inr (omega arith) ])
      ∙ store_out m (va + i) (octet buf i ∷ []) x
          (elim apart [ inl h ↦ inl (omega arith) | inr h ↦ inr (omega arith) ]))

pub copy_in-in :
    (left i : ℕ) (m : Memory) (va : ℕ) (buf : List ℕ) (j : ℕ)
    → va + i + left ≤ u64_mod
    → i ≤ j
    → j < i + left
    → copy_in m va buf i left (va + j) ≡ octet buf j
unfolding copy_in
copy_in-in zero i m va buf j inside low high = absurd (omega arith)
copy_in-in (suc left) i m va buf j inside low high =
    let e = add64-plain va i (omega arith) in
    let m1 = wr_u8 m (va + i) (octet buf i) in
    rw e (elim (ℕ_discrete i j) [
      | no differ ↦ copy_in-in left (suc i) m1 va buf j (omega arith) (omega arith) (omega arith)
      | yes same ↦
          let k : va + i + 0 ≡ va + j = omega arith in
          let put : m1 (va + j) ≡ octet buf i =
            rw k at (store_in m (va + i) (octet buf i ∷ []) 0 (omega arith)) in
          copy_in-out left (suc i) m1 va buf (va + j) (omega arith) (inl (omega arith))
          ∙ put
          ∙ ap (octet buf) same
    ])

pub copy_out-fetch :
    (left i : ℕ) (m : Memory) (va : ℕ)
    → va + i + left ≤ u64_mod
    → copy_out m va i left ≡ fetch m (va + i) left
unfolding copy_out fetch
copy_out-fetch zero i m va inside = refl
copy_out-fetch (suc left) i m va inside =
    let e = add64-plain va i (omega arith) in
    let e2 : suc (va + i) ≡ va + suc i = omega arith in
    rw (e, e2, copy_out-fetch left (suc i) m va (omega arith)) refl
