-- ===== src/Prelude/Slices.antt =====
-- What reading, taking and splicing do to each other.
use Prim.Native.Nat.{ℕ, zero, suc, ◌+◌, ◌-◌, ◌<◌, ◌≤◌}
use mathlib.Core.Path.{◌≡◌, refl, sym, ap, subst, ◌∙◌}
use mathlib.Core.List.{List, [], ◌∷◌, ◌++◌}
use native.Mathlib.Omega.{arith}
use xernel.Prelude.Lists.{
  length, take, drop, length-append, length-take, length-drop, get_elem?-append_left,
}
use xernel.Prelude.Bytes.{octet_of, octet, slice, splice}

take-nil : (k : ℕ) → ◌≡◌ {A = List ℕ} (take k []) []
take-nil zero = refl
take-nil (suc k) = refl

pub take-add : (a b : ℕ) (xs : List ℕ) → take (a + b) xs ≡ take a xs ++ take b (drop a xs)
take-add zero b xs = let e : 0 + b ≡ b = omega arith in rw e refl
take-add (suc a) b [] = take-nil (suc a + b) ∙ sym (take-nil b)
take-add (suc a) b (x ∷ xs) =
    let e : suc a + b ≡ suc (a + b) = omega arith in rw e (ap (λ ys. x ∷ ys) (take-add a b xs))

pub take-append : (xs ys : List ℕ) (k : ℕ) → length xs ≡ k → take k (xs ++ ys) ≡ xs
take-append [] ys k h = let e : k ≡ 0 = omega arith in rw e refl
take-append (x ∷ xs) ys zero h = absurd (omega arith)
take-append (x ∷ xs) ys (suc k) h = ap (λ zs. x ∷ zs) (take-append xs ys k (omega arith))

pub take-length : (xs : List ℕ) (k : ℕ) → length xs ≤ k → take k xs ≡ xs
take-length [] zero h = refl
take-length [] (suc k) h = refl
take-length (x ∷ xs) zero h = absurd (omega arith)
take-length (x ∷ xs) (suc k) h = ap (λ ys. x ∷ ys) (take-length xs k (omega arith))

pub octet-append_left : (xs ys : List ℕ) (i : ℕ) → i < length xs → octet (xs ++ ys) i ≡ octet xs i
octet-append_left xs ys i h = ap octet_of (get_elem?-append_left xs ys i h)

pub octet-append_right : (xs ys : List ℕ) (i : ℕ) → octet (xs ++ ys) (length xs + i) ≡ octet ys i
octet-append_right [] ys i = let e : 0 + i ≡ i = omega arith in rw e refl
octet-append_right (x ∷ xs) ys i =
    let e : suc (length xs) + i ≡ suc (length xs + i) = omega arith in
    rw e (octet-append_right xs ys i)

pub octet-take : (n : ℕ) (xs : List ℕ) (i : ℕ) → i < n → octet (take n xs) i ≡ octet xs i
octet-take zero xs i h = absurd (omega arith)
octet-take (suc n) [] i h = refl
octet-take (suc n) (x ∷ xs) zero h = refl
octet-take (suc n) (x ∷ xs) (suc i) h = octet-take n xs i (omega arith)

pub octet-drop : (n : ℕ) (xs : List ℕ) (i : ℕ) → octet (drop n xs) i ≡ octet xs (n + i)
octet-drop zero xs i = let e : 0 + i ≡ i = omega arith in rw e refl
octet-drop (suc n) [] i = refl
octet-drop (suc n) (x ∷ xs) i =
    let e : suc n + i ≡ suc (n + i) = omega arith in rw e (octet-drop n xs i)

pub length-slice : (buf : List ℕ) (off n : ℕ) → off + n ≤ length buf → length (slice buf off n) ≡ n
length-slice buf off n h = omega (arith, length-take n (drop off buf), length-drop off buf)

module _ (buf : List ℕ) (off : ℕ) (bytes : List ℕ) (fits : off + length bytes ≤ length buf) where
  length-front : length (take off buf) ≡ off
  length-front = omega (arith, length-take off buf)

  pub length-splice : length (splice buf off bytes) ≡ length buf
  length-splice = omega (
    arith,
    length-append (take off buf ++ bytes) (drop (off + length bytes) buf),
    length-append (take off buf) bytes,
    length-front,
    length-drop (off + length bytes) buf,
  )

  pub take-splice : take (off + length bytes) (splice buf off bytes) ≡ take off buf ++ bytes
  take-splice =
      take-append (take off buf ++ bytes) (drop (off + length bytes) buf) (off + length bytes)
        (omega (arith, length-append (take off buf) bytes, length-front))

  pub octet-splice_in :
      (j : ℕ) → j < length bytes → octet (splice buf off bytes) (off + j) ≡ octet bytes j
  octet-splice_in j h =
      octet-append_left (take off buf ++ bytes) (drop (off + length bytes) buf) (off + j)
        (omega (arith, length-append (take off buf) bytes, length-front))
      ∙ subst (λ k. octet (take off buf ++ bytes) (k + j) ≡ octet bytes j) length-front
          (octet-append_right (take off buf) bytes j)

  pub octet-splice_before : (i : ℕ) → i < off → octet (splice buf off bytes) i ≡ octet buf i
  octet-splice_before i h =
      octet-append_left (take off buf ++ bytes) (drop (off + length bytes) buf) i
        (omega (arith, length-append (take off buf) bytes, length-front))
      ∙ octet-append_left (take off buf) bytes i (omega (arith, length-front))
      ∙ octet-take off buf i h

  pub octet-splice_after :
      (i : ℕ) → off + length bytes ≤ i → octet (splice buf off bytes) i ≡ octet buf i
  octet-splice_after i h =
      let past : length (take off buf ++ bytes) + (i - (off + length bytes)) ≡ i =
        omega (arith, length-append (take off buf) bytes, length-front) in
      let back : off + length bytes + (i - (off + length bytes)) ≡ i = omega arith in
      subst
        (λ k.
          octet (splice buf off bytes) k
          ≡ octet (drop (off + length bytes) buf) (i - (off + length bytes)))
        past
        (octet-append_right (take off buf ++ bytes) (drop (off + length bytes) buf)
          (i - (off + length bytes)))
      ∙ octet-drop (off + length bytes) buf (i - (off + length bytes))
      ∙ ap (octet buf) back
