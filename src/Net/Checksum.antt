-- ===== src/Net/Checksum.antt =====
-- `inet_checksum` of Xernel/userland/init/src/main.rs.
use xernel.Prelude.{
  ◌==◌, if◌then◌else◌, Bool-cases, length, ℕ, zero, suc, ◌+◌, ◌-◌, ◌*◌, ◌/◌, ◌%◌, ◌^◌, ◌≤◌, ◌<◌,
  ◌≡◌, refl, ◌⊎◌, inl, inr, List, [], ◌∷◌, ◌++◌, arith,
}
use xernel.Net.{add32, be16}

-- The loop over the words, and the odd byte at the end.
unfoldable pub sum_words : List ℕ → ℕ → ℕ
sum_words [] sum = sum
sum_words (a ∷ []) sum = add32 sum (a * 256)
sum_words (a ∷ b ∷ buf) sum = sum_words buf (add32 sum (a * 256 + b))

-- The loop that adds the carries, with the rounds given: two are enough for a `u32`.
unfoldable pub fold_carries : ℕ → ℕ → ℕ
fold_carries zero sum = sum
fold_carries (suc rounds) sum =
    let rest = fold_carries rounds (sum % 65536 + sum / 65536) in
    if sum / 65536 == 0 then sum else rest

unfoldable pub inet_checksum : List ℕ → ℕ
unfolding sum_words fold_carries
inet_checksum buf = 65535 - fold_carries 2 (sum_words buf 0) % 65536

-- Every element is a byte.
abbrev pub Bytes : List ℕ → Type 0
Bytes [] = Unit {0}
Bytes (b ∷ bytes) = (b < 256) × Bytes bytes

-- The sum of the words without bounds.
abbrev pub word_sum : List ℕ → ℕ
word_sum [] = 0
word_sum (a ∷ []) = a * 256
word_sum (a ∷ b ∷ buf) = a * 256 + b + word_sum buf

sum_words_lem :
    (buf : List ℕ) (sum : ℕ) → sum + word_sum buf < 2 ^ 32 → sum_words buf sum ≡ sum + word_sum buf
unfolding sum_words
sum_words_lem [] sum h = omega arith
sum_words_lem (a ∷ []) sum h = omega arith
sum_words_lem (a ∷ b ∷ buf) sum h =
    let e : add32 sum (a * 256 + b) ≡ sum + (a * 256 + b) = omega arith in
    rw e (omega (arith, sum_words_lem buf (sum + (a * 256 + b)) (omega arith)))

zero_or_positive : (x : ℕ) → (x ≡ 0) ⊎ (0 < x)
zero_or_positive zero = inl refl
zero_or_positive (suc x) = inr (omega arith)

-- Two rounds leave a remainder of the division by 65535, which is 0 only for 0.
fold_carries_lem :
    (x : ℕ)
    → x < 2 ^ 32
    → (q : ℕ) × (x ≡ 65535 * q + fold_carries 2 x)
      × (fold_carries 2 x ≤ 65535)
      × ((x ≡ 0) ⊎ (0 < fold_carries 2 x))
unfolding fold_carries
fold_carries_lem x h = elim (Bool-cases (x / 65536 == 0)) [
  | inl small ↦ rw small (0, omega arith, ground arith, zero_or_positive x)
  | inr large ↦
      let big : 65536 ≤ x = ground arith in
      let once = x % 65536 + x / 65536 in
      elim (Bool-cases (once / 65536 == 0)) [
        | inl fits ↦ rw (large, fits) (x / 65536, omega arith, ground arith, inr (omega arith))
        | inr more ↦
            rw (large, more) (x / 65536 + once / 65536, omega arith, omega arith, inr (omega arith))
      ]
]

-- The checksum completes the sum of the words to a multiple of 65535 other than 0.
inet_checksum_lem :
    (buf : List ℕ)
    → word_sum buf < 2 ^ 32
    → (inet_checksum buf ≤ 65535) × ((q : ℕ) × (word_sum buf + inet_checksum buf ≡ 65535 * suc q))
unfolding inet_checksum
inet_checksum_lem buf h =
    let (q, e, le, zero?) = fold_carries_lem (word_sum buf) h in
    let whole : sum_words buf 0 ≡ word_sum buf = omega (arith, sum_words_lem buf 0 (omega arith)) in
    rw whole (omega arith, (q, omega arith))

pub word_sum-append :
    (k : ℕ) (xs ys : List ℕ) → length xs ≡ 2 * k → word_sum (xs ++ ys) ≡ word_sum xs + word_sum ys
word_sum-append k [] ys h = omega arith
word_sum-append k (a ∷ []) ys h = absurd (omega arith)
word_sum-append zero (a ∷ b ∷ xs) ys h = absurd (omega arith)
word_sum-append (suc k) (a ∷ b ∷ xs) ys h = omega (arith, word_sum-append k xs ys (omega arith))

pub word_sum_le : (xs : List ℕ) → Bytes xs → word_sum xs ≤ 65536 * length xs
word_sum_le [] h = omega arith
word_sum_le (a ∷ []) (ha, h) = omega arith
word_sum_le (a ∷ b ∷ xs) (ha, (hb, h)) = omega (arith, word_sum_le xs h)

-- A checksum put where its two bytes were zero, at an even offset, makes the sum of the words a
-- multiple of 65535 other than 0, which is what a receiver looks for.
pub inet_checksum-put :
    (k : ℕ) (front back : List ℕ)
    → length front ≡ 2 * k
    → word_sum (front ++ 0 ∷ 0 ∷ back) < 2 ^ 31
    → (q : ℕ) × (word_sum (front ++ (be16 (inet_checksum (front ++ 0 ∷ 0 ∷ back)) ++ back))
        ≡ 65535 * suc q)
inet_checksum-put k front back even h =
    let sum = inet_checksum (front ++ 0 ∷ 0 ∷ back) in
    let (le, (q, e)) = inet_checksum_lem (front ++ 0 ∷ 0 ∷ back) (omega arith) in
    let blank = word_sum-append k front (0 ∷ 0 ∷ back) even in
    let full : word_sum (front ++ (be16 sum ++ back)) ≡ word_sum (front ++ 0 ∷ 0 ∷ back) + sum =
      omega (arith, word_sum-append k front (be16 sum ++ back) even) in
    (q, omega arith)
