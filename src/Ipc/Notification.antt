-- ===== src/Ipc/Notification.antt =====
-- Xernel/kernel/src/notification.rs: one word of signal bits for each notification.
use xernel.Prelude.{
  test_bit-bit_or, bit_or, test_bit, ◌==◌, if◌then◌else◌, Option-cases, length, get_elem?, set,
  replicate, get_elem?-set_self, get_elem?-set_ne, get_elem?-lt, get_elem?-none, ℕ, ◌<◌, ◌≡◌, refl,
  sym, ap, ◌∙◌, ◌≢◌, ◌↔◌, ◌⊎◌, inl, inr, Bool, true, false, ◌||◌, Option, none, some, List, [], ◌∷◌,
  arith, ℕ_discrete,
}

abbrev pub num_notifications : ℕ
num_notifications = 4

-- `NOTIFICATIONS` at boot.
abbrev pub notifications : List ℕ
notifications = replicate num_notifications 0

abbrev or_into : List ℕ → ℕ → ℕ → Option ℕ → Bool × List ℕ
or_into words id bits none = (false, words)
or_into words id bits (some word) = (true, set words id (bit_or 64 word bits))

unfoldable pub signal : List ℕ → ℕ → ℕ → Bool × List ℕ
signal words id bits = or_into words id bits (get_elem? words id)

abbrev take_word : List ℕ → ℕ → Option ℕ → Option ℕ × List ℕ
take_word words id none = (none, words)
take_word words id (some word) = if word == 0 then (none, words) else (some word, set words id 0)

unfoldable pub poll_take : List ℕ → ℕ → Option ℕ × List ℕ
poll_take words id = take_word words id (get_elem? words id)

-- Signals on one notification, one after another.
abbrev pub signal_all : List ℕ → ℕ → List ℕ → List ℕ
signal_all words id [] = words
signal_all words id (bits ∷ more) = signal_all (signal words id bits).1 id more

-- Whether one of the words has a bit.
abbrev pub any_bit : ℕ → List ℕ → Bool
any_bit k [] = false
any_bit k (bits ∷ more) = test_bit k bits || any_bit k more

-- What a waiter reads from the answer of one poll: 0 while it has to wait.
abbrev pub bits_taken : Option ℕ → ℕ
bits_taken none = 0
bits_taken (some bits) = bits

signal_all-word :
    (words : List ℕ) (id w : ℕ) (more : List ℕ)
    → get_elem? words id ≡ some w
    → (v : ℕ) × (get_elem? (signal_all words id more) id ≡ some v)
      × ((k : ℕ) → k < 64 → test_bit k v ≡ (test_bit k w || any_bit k more))
unfolding signal
signal_all-word words id w [] e = (w, e, λ k h. ground arith)
signal_all-word words id w (bits ∷ more) e =
    let l = get_elem?-lt words id e in
    let (v, f, g) =
      signal_all-word (set words id (bit_or 64 w bits)) id (bit_or 64 w bits) more
        (get_elem?-set_self words id (bit_or 64 w bits) l) in
    rw e (v, f, λ k h. ground (arith, g k h, test_bit-bit_or 64 w bits k h))

poll_take-cases :
    (words : List ℕ) (id v : ℕ)
    → get_elem? words id ≡ some v
    → ((v ≡ 0) × (poll_take words id ≡ (none, words)))
      ⊎ ((v ≢ 0) × (poll_take words id ≡ (some v, set words id 0)))
unfolding poll_take
poll_take-cases words id v e = elim (ℕ_discrete v 0) [
  | yes empty ↦ inl (empty, rw e (ground arith))
  | no full ↦ inr (full, rw e (ground arith))
]

-- No signal is lost: after any number of signals a waiter takes the bits that were pending
-- together with all the bits that were signalled, and no other; it never takes an empty word; and
-- the word is then clear.
pub poll_take-signal_all :
    (words : List ℕ) (id w : ℕ) (more : List ℕ)
    → get_elem? words id ≡ some w
    → let (taken, left) = poll_take (signal_all words id more) id in
      ((k : ℕ) → k < 64 → test_bit k (bits_taken taken) ≡ (test_bit k w || any_bit k more))
      × (taken ≢ some 0)
      × ((poll_take left id).0 ≡ none)
poll_take-signal_all words id w more e =
    let (v, f, g) = signal_all-word words id w more e in
    let after = signal_all words id more in
    elim (poll_take-cases after id v f) [
      | inl (empty, p) ↦ rw p (λ k h. ap (test_bit k) (sym empty) ∙ g k h, λ x. cc, ap (λ r. r.0) p)
      | inr (full, p) ↦ rw p (
        g,
        λ x. full (ap bits_taken x),
        elim (poll_take-cases (set after id 0) id 0
            (get_elem?-set_self after id 0 (get_elem?-lt after id f))) [
              | inl (_, q) ↦ ap (λ r. r.0) q
              | inr (n, q) ↦ absurd (n refl)
            ],
      )
    ]

-- A signal on one notification leaves the word of every other one alone, and is refused exactly
-- for an identifier that is not in the table.
pub signal-others :
    (words : List ℕ) (id other bits : ℕ)
    → (((signal words id bits).0 ≡ true) ↔ (id < length words))
      × (id ≢ other → get_elem? (signal words id bits).1 other ≡ get_elem? words other)
unfolding signal
signal-others words id other bits = elim (Option-cases (get_elem? words id)) [
  | inl e ↦
      let past = get_elem?-none words id e in rw e ((λ f. cc, λ l. absurd (omega arith)), λ _. refl)
  | inr (w, e) ↦ rw e (
    (λ _. get_elem?-lt words id e, λ _. refl),
    λ n. get_elem?-set_ne words id other (bit_or 64 w bits) n,
  )
]
