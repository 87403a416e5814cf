-- ===== src/Syscall/Buffers.antt =====
-- What the check of user buffers in Xernel/kernel/src/syscall.rs guarantees: the kernel never
-- faults on the caller's behalf.
use xernel.Prelude.{
  ltb, leb, ◌==◌, eq→==, Bool-cases, u64_mod, ℕ, zero, suc, ◌+◌, ◌-◌, ◌*◌, ◌/◌, ◌%◌, ◌≤◌, ◌<◌, max,
  ◌≡◌, refl, sym, ap, subst, ◌∙◌, ◌≢◌, ◌↔◌, ◌⊎◌, inl, inr, Bool, true, false, arith, ℕ_discrete,
}
use xernel.Syscall.{
  PageTables, page_of, usable, user_addr_max, max_write, pages_ok, user_range_ok, buffer_ok,
  user_slice, user_slice_mut,
}

pages_ok-usable :
    (tables : PageTables) (space page last q : ℕ) (write : Bool) (rounds : ℕ)
    → page % 4096 ≡ 0
    → q % 4096 ≡ 0
    → page ≤ q
    → q ≤ last
    → pages_ok tables space page last write rounds ≡ true
    → usable tables space q write ≡ true
unfolding pages_ok
pages_ok-usable tables space page last q write zero ap aq lo hi h = absurd (cc)
pages_ok-usable tables space page last q write (suc rounds) al aq lo hi h =
    elim (Bool-cases (usable tables space page write)) [
      | inr bad ↦ absurd (cc (rw bad at h))
      | inl good ↦ elim (ℕ_discrete page q) [
        | yes same ↦ rw (sym same) good
        | no later ↦
            let more : leb last page ≡ false = ground arith in
            pages_ok-usable tables space (page + 4096) last q write rounds (omega arith) aq
              (omega arith) hi (rw (good, more) at h)
      ]
    ]

pages_ok-all :
    (tables : PageTables) (space page last : ℕ) (write : Bool) (rounds : ℕ)
    → page % 4096 ≡ 0
    → last % 4096 ≡ 0
    → last < page + 4096 * rounds
    → 0 < rounds
    → ((q : ℕ) → q % 4096 ≡ 0 → page ≤ q → (q ≤ max page last) → usable tables space q write ≡ true)
    → pages_ok tables space page last write rounds ≡ true
unfolding pages_ok
pages_ok-all tables space page last write zero am al few pos all = absurd (omega arith)
pages_ok-all tables space page last write (suc rounds) am al few pos all =
    rw (all page am (omega arith) (omega arith)) (elim (Bool-cases (leb last page)) [
      | inl stop ↦ rw stop refl
      | inr more ↦
          let above : page < last = ground arith in
          rw more (
            pages_ok-all tables space (page + 4096) last write rounds (omega arith) al (omega arith)
              (omega arith) (λ q aq lo hi. all q aq (omega arith) (omega arith)))
    ])

-- The bytes of a buffer are in user space and on pages that the caller may use.
abbrev pub Accessible : PageTables → ℕ → ℕ → ℕ → Bool → Type 0
Accessible tables space ptr len write =
    (a : ℕ)
    → ptr ≤ a
    → a < ptr + len
    → (a < user_addr_max) × (usable tables space (page_of a) write ≡ true)

abbrev pages_of : PageTables → ℕ → ℕ → ℕ → Bool → Bool
pages_of tables space ptr len write =
    pages_ok tables space (page_of ptr) (page_of (ptr + (len - 1))) write
      (suc ((page_of (ptr + (len - 1)) - page_of ptr) / 4096))

buffer_ok-pages :
    (tables : PageTables) (space ptr len : ℕ) (write : Bool)
    → 0 < len
    → ptr ≢ 0
    → len ≤ max_write
    → ptr + len ≤ user_addr_max
    → buffer_ok tables space ptr len write ≡ pages_of tables space ptr len write
unfolding buffer_ok user_range_ok
buffer_ok-pages tables space ptr len write pos nonnull small below =
    let a : (ptr == 0) ≡ false = ground arith in
    let b : ltb max_write len ≡ false = ground arith in
    let c : ltb (ptr + len) u64_mod ≡ true = ground arith in
    let d : leb user_addr_max ptr ≡ false = ground arith in
    let e : ltb user_addr_max (ptr + len) ≡ false = ground arith in
    let f : (len == 0) ≡ false = ground arith in
    let g : ltb (ptr + (len - 1)) u64_mod ≡ true = ground arith in rw (a, b, c, d, e, f, g) refl

buffer_ok-bounds :
    (tables : PageTables) (space ptr len : ℕ) (write : Bool)
    → 0 < len
    → buffer_ok tables space ptr len write ≡ true
    → (ptr ≢ 0) × (len ≤ max_write) × (ptr + len ≤ user_addr_max)
unfolding buffer_ok
buffer_ok-bounds tables space ptr len write pos h = (ground arith, ground arith, ground arith)

buffer_ok-Accessible :
    (tables : PageTables) (space ptr len : ℕ) (write : Bool)
    → 0 < len
    → (buffer_ok tables space ptr len write ≡ true)
      ↔ ((ptr ≢ 0) × (len ≤ max_write) × Accessible tables space ptr len write)
buffer_ok-Accessible tables space ptr len write pos = (
  λ h.
      let (nonnull, small, below) = buffer_ok-bounds tables space ptr len write pos h in
      let pages = sym (buffer_ok-pages tables space ptr len write pos nonnull small below) ∙ h in
      (
        nonnull,
        small,
        λ a lo hi. (
          omega arith,
          pages_ok-usable tables space (page_of ptr) (page_of (ptr + (len - 1))) (page_of a) write _
              (omega arith) (omega arith) (omega arith) (omega arith) pages,
        ),
      ),
  λ (nonnull, small, all).
      let below : ptr + len ≤ user_addr_max =
        let (top, _) = all (ptr + (len - 1)) (omega arith) (omega arith) in omega arith in
      buffer_ok-pages tables space ptr len write pos nonnull small below
      ∙ pages_ok-all tables space (page_of ptr) (page_of (ptr + (len - 1))) write _ (omega arith)
          (omega arith) (omega arith) (omega arith)
          (λ q aq lo hi.
            subst (λ p. usable tables space p write ≡ true)
              (let e : page_of (max ptr q) ≡ q = omega arith in e)
              (all (max ptr q) (omega arith) (omega arith)).1),
)

slices_full :
    (tables : PageTables) (space ptr len : ℕ)
    → len ≢ 0
    → (user_slice tables space ptr len ≡ buffer_ok tables space ptr len false)
      × (user_slice_mut tables space ptr len ≡ buffer_ok tables space ptr len true)
unfolding user_slice user_slice_mut
slices_full tables space ptr len full =
    let e : (len == 0) ≡ false = ground arith in (rw e refl, rw e refl)

slices_empty :
    (tables : PageTables) (space ptr len : ℕ)
    → len ≡ 0
    → (user_slice tables space ptr len ≡ true) × (user_slice_mut tables space ptr len ≡ false)
unfolding user_slice user_slice_mut
slices_empty tables space ptr len empty = let e = eq→== len 0 empty in (rw e refl, rw e refl)

-- `user_slice` hands out a buffer exactly when it is empty, or not at the null address, at most
-- 2^20 bytes long and wholly in user space on pages that the caller may read; `user_slice_mut`
-- never hands out an empty one, and asks for pages that the caller may write. So the kernel reads
-- and writes through a buffer without a fault.
pub user_slice-Accessible :
    (tables : PageTables) (space ptr len : ℕ)
    → ((user_slice tables space ptr len ≡ true)
        ↔ ((len ≡ 0) ⊎ ((ptr ≢ 0) × (len ≤ max_write) × Accessible tables space ptr len false)))
      × ((user_slice_mut tables space ptr len ≡ true)
          ↔ ((len ≢ 0) × (ptr ≢ 0) × (len ≤ max_write) × Accessible tables space ptr len true))
user_slice-Accessible tables space ptr len = elim (ℕ_discrete len 0) [
  | yes empty ↦
      let (reads, writes) = slices_empty tables space ptr len empty in
      ((λ _. inl empty, λ _. reads), (λ h. absurd (cc (h, writes)), λ h. absurd (h.0 empty)))
  | no full ↦
      let (r, w) = slices_full tables space ptr len full in
      let reads = buffer_ok-Accessible tables space ptr len false (omega arith) in
      let writes = buffer_ok-Accessible tables space ptr len true (omega arith) in
      (
        (
          λ h. inr (reads.0 (sym r ∙ h)),
          λ h. elim h [ inl empty ↦ absurd (full empty) | inr ok ↦ r ∙ reads.1 ok ],
        ),
        (
          λ h. let (a, b, c) = writes.0 (sym w ∙ h) in (full, a, b, c),
          λ (_, a, b, c). w ∙ writes.1 (a, b, c),
        ),
      )
]
