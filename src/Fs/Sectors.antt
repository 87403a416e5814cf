-- ===== src/Fs/Sectors.antt =====
-- The data of a file of XernelFS in Xernel/userland/init/src/main.rs: what `fs_create` leaves in the
-- sectors, and what `fs_read` puts together from them.
use xernel.Prelude.{
  take-add, take-length, take-splice, length-splice, length-slice, ltb, leb, Bool-cases,
  Option-cases, length, take, slice, splice, ℕ, zero, suc, ◌+◌, ◌-◌, ◌*◌, ◌≤◌, ◌<◌, min, ◌≡◌, refl,
  sym, ap, subst, ◌∙◌, inl, inr, true, false, some, List, ◌++◌, arith, dec_lt,
}
use xernel.Fs.{
  Disk, total_sectors, sector, zeros, sector_at, Io, read_sector, write_sector, bind, write_data,
}
use xernel.Fs.Read.{put_piece, Outcome, read_data}
use xernel.Fs.Device.{IsLawful, Keeps-write_data}

-- The sectors from `s` on hold the contents from `off` on.
abbrev pub Holds : (ℕ → List ℕ) → List ℕ → ℕ → ℕ → Type 0
Holds held contents off s =
    (i : ℕ) → off + 512 * i < length contents → held (s + i) ≡ sector_at contents (off + 512 * i)

pub Holds-cons :
    (held : ℕ → List ℕ) (contents : List ℕ) (off s : ℕ)
    → off < length contents
    → held s ≡ sector_at contents off
    → Holds held contents (off + min sector (length contents - off)) (s + 1)
    → Holds held contents off s
Holds-cons held contents off s some_left first later zero h =
    let e1 : s + 0 ≡ s = omega arith in
    let e2 : off + 512 * 0 ≡ off = omega arith in rw (e1, e2) first
Holds-cons held contents off s some_left first later (suc i) h =
    let n = min sector (length contents - off) in
    let e1 : s + suc i ≡ s + 1 + i = omega arith in
    let e2 : off + 512 * suc i ≡ off + n + 512 * i = omega arith in
    rw (e1, e2) (later i (omega arith))

Holds-tail :
    (held : ℕ → List ℕ) (contents : List ℕ) (off s : ℕ)
    → off < length contents
    → Holds held contents off s
    → Holds held contents (off + min sector (length contents - off)) (s + 1)
Holds-tail held contents off s some_left h i inside =
    let n = min sector (length contents - off) in
    let e1 : s + 1 + i ≡ s + suc i = omega arith in
    let e2 : off + n + 512 * i ≡ off + 512 * suc i = omega arith in
    rw (e1, e2) (h (suc i) (omega arith))

module _ (d : Disk) where
  pub bind-success :
      {A B : Type 0} (m : Io d A) (f : A → Io d B) (b : d.Blk) (x : B)
      → (bind d m f b).0 ≡ some x
      → (a : A) × ((m b).0 ≡ some a) × (bind d m f b ≡ f a (m b).1)
  bind-success m f b x e = elim (Option-cases (m b).0) [
    | inl failed ↦ absurd (cc (rw failed at e))
    | inr (a, done) ↦ (a, done, rw done refl)
  ]

module _ (d : Disk) (law : IsLawful d) where
  pub write_sector-held :
      (s : ℕ) (bytes : List ℕ) (b : d.Blk) {x : Unit {0}}
      → length bytes ≡ sector
      → (write_sector d s bytes b).0 ≡ some x
      → law.held (write_sector d s bytes b).1 s ≡ bytes
  write_sector-held s bytes b whole e = elim (Bool-cases (d.write b s bytes).0) [
    | inl done ↦ rw done (law.write-held b s bytes whole done)
    | inr failed ↦ absurd (cc (rw failed at e))
  ]

  length-sector_at :
      (contents : List ℕ) (off : ℕ)
      → off < length contents
      → length (sector_at contents off) ≡ sector
  length-sector_at contents off h =
      let n = min sector (length contents - off) in
      let inside = length-slice contents off n (omega arith) in
      length-splice zeros 0 (slice contents off n) (omega arith)

  pub write_data-Holds :
      (rounds off s : ℕ) (contents : List ℕ) (b : d.Blk) {x : Unit {0}}
      → length contents ≤ off + 512 * rounds
      → (write_data d contents off s rounds b).0 ≡ some x
      → Holds (law.held (write_data d contents off s rounds b).1) contents off s
  unfolding write_data
  write_data-Holds zero off s contents b enough e i h = absurd (omega arith)
  write_data-Holds (suc rounds) off s contents b enough e i h =
      let more : ltb off (length contents) ≡ true = ground arith in
      let n = min sector (length contents - off) in
      let rest = λ (done : Unit {0}). write_data d contents (off + n) (s + 1) rounds in
      let first = write_sector d s (sector_at contents off) in
      let (done, wrote, same) = bind-success d first rest b _ (rw more at e) in
      let b' = (first b).1 in
      let put =
        write_sector-held s (sector_at contents off) b (length-sector_at contents off (omega arith))
          wrote in
      let kept =
        Keeps-write_data d law (λ t. t < s + 1) contents (off + n) (s + 1) rounds (λ t p. p) b' s
          (omega arith) in
      let later =
        write_data-Holds rounds (off + n) (s + 1) contents b' (omega arith)
          (rw same at (rw more at e)) in
      rw more (
        rw same (
          Holds-cons (law.held (rest done b').1) contents off s (omega arith) (kept ∙ put) later i
            h))

-- A piece of the contents, put behind those before it.
put_piece-take :
    (contents out : List ℕ) (off : ℕ)
    → off < length contents
    → length contents ≤ length out
    → take off out ≡ take off contents
    → (take
          (off + min sector (length contents - off))
          (put_piece out off (min sector (length contents - off)) (sector_at contents off))
        ≡ take (off + min sector (length contents - off)) contents)
      × (length (put_piece out off (min sector (length contents - off)) (sector_at contents off))
          ≡ length out)
put_piece-take contents out off h room before = (
  rw put (
      subst (λ k. take (off + k) (splice out off piece) ≡ take off out ++ piece) len
        (take-splice out off piece (omega (arith, len)))
      ∙ ap (λ xs. xs ++ piece) before
      ∙ sym (take-add off n contents)),
  rw put (length-splice out off piece (omega (arith, len))),
)
  where
    n : ℕ
    n = min sector (length contents - off)

    piece : List ℕ
    piece = slice contents off n

    len : length piece ≡ n
    len = length-slice contents off n (omega arith)

    whole : take n (sector_at contents off) ≡ piece
    whole =
        subst (λ k. take k (splice zeros 0 piece) ≡ piece) (omega (arith, len))
          (take-splice zeros 0 piece (omega (arith, len)))

    put : put_piece out off n (sector_at contents off) ≡ splice out off piece
    put =
        let fits : leb (off + n) (length out) ≡ true = ground arith in
        rw fits (ap (splice out off) whole)

done_reading :
    (contents out : List ℕ) (off : ℕ)
    → off ≡ length contents
    → take off out ≡ take off contents
    → take (length contents) out ≡ contents
done_reading contents out off all before =
    subst (λ k. take k out ≡ take k contents) all before
    ∙ take-length contents (length contents) (omega arith)

module _ (d : Disk) (law : IsLawful d) where
  -- Every read of a sector of the disk succeeds.
  abbrev pub ReadsFine : Type 0
  ReadsFine = (b : d.Blk) (s : ℕ) → s < total_sectors → (d.read b s).0 ≡ some (law.held b s)

  -- The contents are at the front of the buffer, and the sectors are as they were.
  abbrev pub Reads : List ℕ → d.Blk → Outcome d → Type 0
  Reads contents b r =
      (out' : List ℕ) × (r.0 ≡ (some (length contents), out'))
      × (take (length contents) out' ≡ contents)
      × ((t : ℕ) → law.held r.1 t ≡ law.held b t)

  pub read_data-Holds :
      (fine : ReadsFine) (rounds off s : ℕ) (contents out : List ℕ) (b : d.Blk)
      → s + rounds ≤ total_sectors
      → off ≤ length contents
      → length contents ≤ off + 512 * rounds
      → length contents ≤ length out
      → Holds (law.held b) contents off s
      → take off out ≡ take off contents
      → Reads contents b (read_data d (length contents) off s out rounds b)
  unfolding read_data
  read_data-Holds fine zero off s contents out b disk inside enough room holds before =
      (out, refl, done_reading contents out off (omega arith) before, λ t. refl)
  read_data-Holds fine (suc rounds) off s contents out b disk inside enough room holds before =
      elim (dec_lt off (length contents)) [
        | no over ↦
            let t : ltb off (length contents) ≡ false = ground arith in
            rw t (out, refl, done_reading contents out off (omega arith) before, λ t. refl)
        | yes more ↦
            let t : ltb off (length contents) ≡ true = ground arith in
            let n = min sector (length contents - off) in
            let out1 = put_piece out off n (sector_at contents off) in
            let (start, len) = put_piece-take contents out off more room before in
            let e1 : s + 0 ≡ s = omega arith in
            let e2 : off + 512 * 0 ≡ off = omega arith in
            let here : law.held b s ≡ sector_at contents off =
              rw (e1, e2) at (holds 0 (omega arith)) in
            let tail = Holds-tail (law.held b) contents off s more holds in
            let (out', reads, all, kept) =
              read_data-Holds fine rounds (off + n) (s + 1) contents out1 (d.read b s).1
                (omega arith) (omega arith) (omega arith) (omega arith)
                (λ i h. law.read-keeps b s (s + 1 + i) ∙ tail i h) start in
            rw (t, read_sector, fine b s (omega arith), here)
              (out', reads, all, λ t. kept t ∙ law.read-keeps b s t)
      ]
