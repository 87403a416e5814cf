-- ===== src/Fs/Device.antt =====
-- What XernelFS in Xernel/userland/init/src/main.rs relies on of its block device: the laws of a
-- disk, and what a loop of writes leaves untouched.
use xernel.Prelude.{
  ltb, if◌then◌else◌, Bool-cases, Option-cases, length, ℕ, zero, suc, ◌+◌, ◌-◌, ◌<◌, min, ◌≡◌, refl,
  ◌∙◌, ◌≢◌, inl, inr, Bool, true, false, some, List, arith,
}
use xernel.Fs.{Disk, sector, sector_at, Io, read_sector, write_sector, bind, write_data}

-- The device holds 512 bytes in each sector. A read that succeeds gives them, and no read changes
-- any; a write touches one sector only, and puts the bytes there if it succeeds.
pub record IsLawful (d : Disk) : Type 0 where
  pub held : d.Blk → ℕ → List ℕ
  pub length-held : (b : d.Blk) (s : ℕ) → length (held b s) ≡ sector
  pub read-held :
      (b : d.Blk) (s : ℕ) (bytes : List ℕ) → (d.read b s).0 ≡ some bytes → bytes ≡ held b s
  pub read-keeps : (b : d.Blk) (s t : ℕ) → held (d.read b s).1 t ≡ held b t
  pub write-held :
      (b : d.Blk) (s : ℕ) (bytes : List ℕ)
      → length bytes ≡ sector
      → (d.write b s bytes).0 ≡ true
      → held (d.write b s bytes).1 s ≡ bytes
  pub write-keeps :
      (b : d.Blk) (s : ℕ) (bytes : List ℕ) (t : ℕ) → s ≢ t → held (d.write b s bytes).1 t ≡ held b t

module _ (d : Disk) (law : IsLawful d) where
  -- Whatever it comes to, a call leaves the sectors alone that satisfy `P`.
  abbrev pub Keeps : {A : Type 0} → (ℕ → Type 0) → Io d A → Type 0
  Keeps P m = (b : d.Blk) (t : ℕ) → P t → law.held (m b).1 t ≡ law.held b t

  pub Keeps-bind :
      {A B : Type 0} (P : ℕ → Type 0) (m : Io d A) (f : A → Io d B)
      → Keeps P m
      → ((a : A) → Keeps P (f a))
      → Keeps P (bind d m f)
  Keeps-bind P m f hm hf b t p = elim (Option-cases (m b).0) [
    | inl e ↦ rw e (hm b t p)
    | inr (a, e) ↦ rw e (hf a (m b).1 t p ∙ hm b t p)
  ]

  pub Keeps-write :
      (P : ℕ → Type 0) (s : ℕ) (bytes : List ℕ)
      → ((t : ℕ) → P t → s ≢ t)
      → Keeps P (write_sector d s bytes)
  Keeps-write P s bytes apart b t p = elim (Bool-cases (d.write b s bytes).0) [
    | inl e ↦ rw e (law.write-keeps b s bytes t (apart t p))
    | inr e ↦ rw e (law.write-keeps b s bytes t (apart t p))
  ]

  pub Keeps-write_data :
      (P : ℕ → Type 0) (contents : List ℕ) (off s rounds : ℕ)
      → ((t : ℕ) → P t → t < s)
      → Keeps P (write_data d contents off s rounds)
  unfolding write_data
  Keeps-write_data P contents off s zero below b t p = refl
  Keeps-write_data P contents off s (suc rounds) below b t p =
      elim (Bool-cases (ltb off (length contents))) [
        | inr over ↦ rw over refl
        | inl more ↦ rw more (
            Keeps-bind P (write_sector d s (sector_at contents off)) _
              (Keeps-write P s _ (λ t p e. omega (arith, below t p)))
              (λ done.
                Keeps-write_data P contents (off + min sector (length contents - off)) (s + 1)
                  rounds (λ t p. omega (arith, below t p)))
              b t p)
      ]

  pub Keeps-if :
      {A : Type 0} (P : ℕ → Type 0) (c : Bool) (x y : Io d A)
      → Keeps P x
      → Keeps P y
      → Keeps P (if c then x else y)
  Keeps-if P true x y hx hy = hx
  Keeps-if P false x y hx hy = hy

  -- A read hands on what the sector holds.
  pub held-read :
      {B : Type 0} (s : ℕ) (f : List ℕ → Io d B) (b : d.Blk) (t : ℕ)
      → ((bytes : List ℕ) (b' : d.Blk)
          → bytes ≡ law.held b s
          → law.held (f bytes b').1 t ≡ law.held b' t)
      → law.held (bind d (read_sector d s) f b).1 t ≡ law.held b t
  held-read s f b t h = elim (Option-cases (d.read b s).0) [
    | inl e ↦ rw (e, read_sector) (law.read-keeps b s t)
    | inr (bytes, e) ↦
        rw (e, read_sector)
          (h bytes (d.read b s).1 (law.read-held b s bytes e) ∙ law.read-keeps b s t)
  ]
