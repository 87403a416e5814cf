-- ===== src/Prelude/Updates.antt =====
-- Changing one element of a list in place.
use Prim.Native.Nat.{ℕ, zero, suc}
use mathlib.Core.Path.{◌≡◌, refl, ap}
use mathlib.Core.Logic.{◌≢◌, ◌⊎◌, inl, inr}
use mathlib.Core.List.{List, [], ◌∷◌, map}
use mathlib.Core.Option.{some}
use native.Mathlib.Omega.{arith}
use xernel.Prelude.Lists.{length, get_elem?}

module _ {ℓ} {A : Type ℓ} where
  -- `xs[i] = f(xs[i])`; out of bounds it changes nothing.
  abbrev pub modify : List A → ℕ → (A → A) → List A
  modify [] i f = []
  modify (x ∷ xs) zero f = f x ∷ xs
  modify (x ∷ xs) (suc i) f = x ∷ modify xs i f

  pub length-modify : (xs : List A) (i : ℕ) (f : A → A) → length (modify xs i f) ≡ length xs
  length-modify [] i f = refl
  length-modify (x ∷ xs) zero f = refl
  length-modify (x ∷ xs) (suc i) f = ap suc (length-modify xs i f)

  pub get_elem?-modify_self :
      (xs : List A) (i : ℕ) (f : A → A) {a : A}
      → get_elem? xs i ≡ some a
      → get_elem? (modify xs i f) i ≡ some (f a)
  get_elem?-modify_self [] i f h = cc
  get_elem?-modify_self (x ∷ xs) zero f h = ground arith
  get_elem?-modify_self (x ∷ xs) (suc i) f h = get_elem?-modify_self xs i f h

  pub get_elem?-modify_ne :
      (xs : List A) (i j : ℕ) (f : A → A) → i ≢ j → get_elem? (modify xs i f) j ≡ get_elem? xs j
  get_elem?-modify_ne [] i j f h = refl
  get_elem?-modify_ne (x ∷ xs) zero zero f h = absurd (h refl)
  get_elem?-modify_ne (x ∷ xs) zero (suc j) f h = refl
  get_elem?-modify_ne (x ∷ xs) (suc i) zero f h = refl
  get_elem?-modify_ne (x ∷ xs) (suc i) (suc j) f h =
      get_elem?-modify_ne xs i j f (λ e. h (ap suc e))

  -- Every element after a change is one from before, or the changed one.
  pub modify-cases :
      (xs : List A) (i j : ℕ) (f : A → A) {b : A}
      → get_elem? (modify xs i f) j ≡ some b
      → (a : A) × (get_elem? xs j ≡ some a) × (((i ≡ j) × (b ≡ f a)) ⊎ ((i ≢ j) × (b ≡ a)))
  modify-cases [] i j f h = absurd (cc)
  modify-cases (x ∷ xs) zero zero f {b} h = (x, refl, inl (refl, ground arith))
  modify-cases (x ∷ xs) zero (suc j) f {b} h = (b, h, inr (omega arith, refl))
  modify-cases (x ∷ xs) (suc i) zero f {b} h = (x, refl, inr (omega arith, ground arith))
  modify-cases (x ∷ xs) (suc i) (suc j) f h =
      let (a, e, c) = modify-cases xs i j f h in
      (a, e, elim c [ inl (p, q) ↦ inl (ap suc p, q) | inr (p, q) ↦ inr (omega arith, q) ])

  -- Every element from before is there after a change, changed or not.
  pub get_elem?-modify :
      (xs : List A) (i j : ℕ) (f : A → A) {a : A}
      → get_elem? xs j ≡ some a
      → (b : A) × (get_elem? (modify xs i f) j ≡ some b)
        × (((i ≡ j) × (b ≡ f a)) ⊎ ((i ≢ j) × (b ≡ a)))
  get_elem?-modify [] i j f h = absurd (cc)
  get_elem?-modify (x ∷ xs) zero zero f {a} h = (f x, refl, inl (refl, ground arith))
  get_elem?-modify (x ∷ xs) zero (suc j) f {a} h = (a, h, inr (omega arith, refl))
  get_elem?-modify (x ∷ xs) (suc i) zero f {a} h = (x, refl, inr (omega arith, ground arith))
  get_elem?-modify (x ∷ xs) (suc i) (suc j) f h =
      let (b, e, c) = get_elem?-modify xs i j f h in
      (b, e, elim c [ inl (p, q) ↦ inl (ap suc p, q) | inr (p, q) ↦ inr (omega arith, q) ])

module _ {ℓ κ} {A : Type ℓ} {B : Type κ} (f : A → B) where
  pub length-map : (xs : List A) → length (map f xs) ≡ length xs
  length-map [] = refl
  length-map (x ∷ xs) = ap suc (length-map xs)

  pub get_elem?-map :
      (xs : List A) (i : ℕ) {a : A} → get_elem? xs i ≡ some a → get_elem? (map f xs) i ≡ some (f a)
  get_elem?-map [] i h = absurd (cc)
  get_elem?-map (x ∷ xs) zero h = ground arith
  get_elem?-map (x ∷ xs) (suc i) h = get_elem?-map xs i h

  pub map-cases :
      (xs : List A) (i : ℕ) {b : B}
      → get_elem? (map f xs) i ≡ some b
      → (a : A) × (get_elem? xs i ≡ some a) × (b ≡ f a)
  map-cases [] i h = absurd (cc)
  map-cases (x ∷ xs) zero h = (x, refl, ground arith)
  map-cases (x ∷ xs) (suc i) h = map-cases xs i h
