-- ===== src/Keyboard/Typing.antt =====
-- From key to reader: what `read` and `read_nb` of Xernel/kernel/src/arch/x86_64/keyboard.rs hand
-- out of what was typed.
use xernel.Prelude.{
  ltb, ◌==◌, if◌then◌else◌, length, take, drop, length-append, ℕ, zero, suc, ◌≤◌, ◌≡◌, refl, sym,
  ap, ◌∙◌, true, false, Option, none, some, List, [], ◌∷◌, ◌++◌, append_assoc, append-nil, arith,
  ℕ_discrete,
}
use xernel.Keyboard.{Ring, push, pop, translate, push_key, irq_handler, drained, drain, read_nb}
use xernel.Keyboard.Queue.{
  contents, IsValid, contents-push, put_back, contents-pop, length-contents,
}

take_all : (n : ℕ) (xs : List ℕ) → length xs ≤ n → take n xs ≡ xs
take_all zero [] h = refl
take_all zero (x ∷ xs) h = absurd (omega arith)
take_all (suc n) [] h = refl
take_all (suc n) (x ∷ xs) h = ap (◌∷◌ x) (take_all n xs (omega arith))

take_left : (xs ys : List ℕ) → take (length xs) (xs ++ ys) ≡ xs
take_left [] ys = refl
take_left (x ∷ xs) ys = ap (◌∷◌ x) (take_left xs ys)

take-take_append : (n : ℕ) (xs ys : List ℕ) → take n (take n xs ++ ys) ≡ take n (xs ++ ys)
take-take_append zero xs ys = refl
take-take_append (suc n) [] ys = refl
take-take_append (suc n) (x ∷ xs) ys = ap (◌∷◌ x) (take-take_append n xs ys)

-- Appending only while there is room is appending and cutting off.
append_bounded :
    (n : ℕ) (xs : List ℕ) (b : ℕ)
    → length xs ≤ n
    → (if ltb (length xs) n then xs ++ b ∷ [] else xs) ≡ take n (xs ++ b ∷ [])
append_bounded n xs b h = elim (ℕ_discrete (length xs) n) [
  | yes full ↦
      let over : ltb (length xs) n ≡ false = ground arith in
      rw over (sym (rw full at (take_left xs (b ∷ []))))
  | no room ↦
      let fits : ltb (length xs) n ≡ true = ground arith in
      rw fits (sym (take_all n (xs ++ b ∷ []) (omega (arith, length-append xs (b ∷ [])))))
]

-- Interrupts, one for each scancode.
abbrev pub irqs : Ring → List ℕ → Ring
irqs r [] = r
irqs r (code ∷ codes) = irqs (irq_handler r code) codes

abbrev ascii : Option ℕ → List ℕ → List ℕ
ascii none bytes = bytes
ascii (some b) bytes = b ∷ bytes

-- The characters of the keys that have one.
abbrev pub typed : List ℕ → List ℕ
typed [] = []
typed (code ∷ codes) = ascii (translate code) (typed codes)

push_bounded :
    (r : Ring) (b : ℕ)
    → IsValid r
    → IsValid (push r b) × (contents (push r b) ≡ take 255 (contents r ++ b ∷ []))
push_bounded r b v =
    let (v', e) = contents-push r b v in
    (v', e ∙ append_bounded 255 (contents r) b (length-contents r v))

contents-irqs :
    (codes : List ℕ) (r : Ring)
    → IsValid r
    → IsValid (irqs r codes) × (contents (irqs r codes) ≡ take 255 (contents r ++ typed codes))
unfolding irq_handler
contents-irqs [] r v =
    (v, sym (rw (append-nil (contents r)) (take_all 255 (contents r) (length-contents r v))))
contents-irqs (code ∷ codes) r v = by_key (translate code) (λ r' v'. contents-irqs codes r' v')
  where
    by_key :
        (o : Option ℕ)
        → ((r' : Ring)
            → IsValid r'
            → IsValid (irqs r' codes)
              × (contents (irqs r' codes) ≡ take 255 (contents r' ++ typed codes)))
        → IsValid (irqs (push_key r o) codes)
          × (contents (irqs (push_key r o) codes) ≡ take 255 (contents r ++ ascii o (typed codes)))
    by_key none rest = rest r v
    by_key (some b) rest =
        let (v', p) = push_bounded r b v in
        let (v'', q) = rest (push r b) v' in
        (
          v'',
          q
              ∙ ap (λ xs. take 255 (xs ++ typed codes)) p
              ∙ take-take_append 255 (contents r ++ b ∷ []) (typed codes)
              ∙ ap (take 255) (append_assoc (contents r) (b ∷ []) (typed codes)),
        )

pub contents-drain :
    (room : ℕ) (r : Ring)
    → IsValid r
    → let (bytes, left) = drain r room in
      IsValid left × (bytes ≡ take room (contents r)) × (contents left ≡ drop room (contents r))
unfolding drain
contents-drain zero r v = (v, refl, refl)
contents-drain (suc room) r v =
    let (v', e, same) = contents-pop r v in
    by_byte (pop r).0 (pop r).1 v' e (contents-drain room (pop r).1 v')
  where
    by_byte :
        (o : Option ℕ) (r' : Ring)
        → IsValid r'
        → contents r ≡ put_back o (contents r')
        → IsValid (drain r' room).1
          × ((drain r' room).0 ≡ take room (contents r'))
          × (contents (drain r' room).1 ≡ drop room (contents r'))
        → IsValid (drained o (drain r' room) r).1
          × ((drained o (drain r' room) r).0 ≡ take (suc room) (contents r))
          × (contents (drained o (drain r' room) r).1 ≡ drop (suc room) (contents r))
    by_byte none r' v' e rest = (v, ap (take (suc room)) (sym e), e ∙ ap (drop (suc room)) (sym e))
    by_byte (some b) r' v' e rest =
        let (v'', taken, left) = rest in
        (v'', ap (◌∷◌ b) taken ∙ ap (take (suc room)) (sym e), left ∙ ap (drop (suc room)) (sym e))

read_nb-drain : (r : Ring) (room : ℕ) → read_nb r room ≡ drain r room
unfolding read_nb drain
read_nb-drain r zero = refl
read_nb-drain r (suc room) = rw (let e : (suc room == 0) ≡ false = ground arith in e) refl

-- After any keys, a reader that does not block gets the characters of the keys, in order, behind
-- what was waiting before: as many as it has room for, of the 255 oldest. What it did not take
-- stays, in order, and the ring is valid again.
pub read_nb-irqs :
    (r : Ring) (codes : List ℕ) (room : ℕ)
    → IsValid r
    → let (bytes, left) = read_nb (irqs r codes) room in
      IsValid left
      × (bytes ≡ take room (take 255 (contents r ++ typed codes)))
      × (contents left ≡ drop room (take 255 (contents r ++ typed codes)))
read_nb-irqs r codes room v =
    let (v', e) = contents-irqs codes r v in
    let (v'', taken, left) = contents-drain room (irqs r codes) v' in
    rw (read_nb-drain (irqs r codes) room) (v'', taken ∙ ap (take room) e, left ∙ ap (drop room) e)
