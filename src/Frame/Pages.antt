-- ===== src/Frame/Pages.antt =====
-- Lists of frames: how often a frame occurs, and the frames of a contiguous run.
use xernel.Prelude.{
  ◌==◌, if◌then◌else◌, ==→eq, Bool-cases, length, ℕ, zero, suc, ◌+◌, ◌≤◌, ◌<◌, ◌≡◌, refl, ap, subst,
  inl, inr, List, [], ◌∷◌, ◌++◌, arith,
}

abbrev pub count : ℕ → List ℕ → ℕ
count x [] = 0
count x (y ∷ ys) = (if y == x then 1 else 0) + count x ys

abbrev pub remove : ℕ → List ℕ → List ℕ
remove x [] = []
remove x (y ∷ ys) = let rest = remove x ys in if y == x then ys else y ∷ rest

abbrev pub All {ℓ} : (ℕ → Type ℓ) → List ℕ → Type ℓ
All P [] = Unit
All P (x ∷ xs) = P x × All P xs

-- The bases of `n` frames from `pa` on.
abbrev pub frames_of : ℕ → ℕ → List ℕ
frames_of pa zero = []
frames_of pa (suc n) = pa ∷ frames_of (pa + 4096) n

pub count-append : (x : ℕ) (xs ys : List ℕ) → count x (xs ++ ys) ≡ count x xs + count x ys
count-append x [] ys = omega arith
count-append x (y ∷ xs) ys = omega (arith, count-append x xs ys)

pub count-remove :
    (x y : ℕ) (xs : List ℕ)
    → 0 < count y xs
    → count x (remove y xs) + (if y == x then 1 else 0) ≡ count x xs
count-remove x y [] h = absurd (omega arith)
count-remove x y (z ∷ xs) h = ground (arith, count-remove x y xs)

pub length-remove : (y : ℕ) (xs : List ℕ) → 0 < count y xs → length (remove y xs) + 1 ≡ length xs
length-remove y [] h = absurd (omega arith)
length-remove y (z ∷ xs) h = ground (arith, length-remove y xs)

pub All-remove {ℓ} : (P : ℕ → Type ℓ) (y : ℕ) (xs : List ℕ) → All P xs → All P (remove y xs)
All-remove P y [] h = h
All-remove P y (z ∷ xs) h = elim (Bool-cases (z == y)) [
  | inl e ↦ rw e (h.1)
  | inr e ↦ rw e (h.0, All-remove P y xs h.1)
]

pub All-held {ℓ} : (P : ℕ → Type ℓ) (y : ℕ) (xs : List ℕ) → All P xs → 0 < count y xs → P y
All-held P y [] h c = absurd (omega arith)
All-held P y (z ∷ xs) h c = elim (Bool-cases (z == y)) [
  | inl e ↦ subst P (==→eq z y e) h.0
  | inr e ↦ All-held P y xs h.1 (ground arith)
]

pub All-append {ℓ} : (P : ℕ → Type ℓ) (xs ys : List ℕ) → All P xs → All P ys → All P (xs ++ ys)
All-append P [] ys h k = k
All-append P (x ∷ xs) ys h k = (h.0, All-append P xs ys h.1 k)

pub All-map {ℓ κ} :
    {P : ℕ → Type ℓ} {Q : ℕ → Type κ} (xs : List ℕ) → ((x : ℕ) → P x → Q x) → All P xs → All Q xs
All-map [] f h = tt
All-map (x ∷ xs) f h = (f x h.0, All-map xs f h.1)

pub length-frames_of : (pa n : ℕ) → length (frames_of pa n) ≡ n
length-frames_of pa zero = refl
length-frames_of pa (suc n) = ap suc (length-frames_of (pa + 4096) n)

pub count-frames_of_below : (x pa n : ℕ) → x < pa → count x (frames_of pa n) ≡ 0
count-frames_of_below x pa zero h = refl
count-frames_of_below x pa (suc n) h = ground (arith, count-frames_of_below x (pa + 4096) n)

pub count-frames_of_le : (x pa n : ℕ) → count x (frames_of pa n) ≤ 1
count-frames_of_le x pa zero = omega arith
count-frames_of_le x pa (suc n) =
    ground (arith, count-frames_of_below x (pa + 4096) n, count-frames_of_le x (pa + 4096) n)
