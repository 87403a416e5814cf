-- ===== src/Syscall/Messages.antt =====
-- The capabilities in messages on their way through Xernel/kernel/src/endpoint.rs.
use xernel.Prelude.{
  ◌==◌, ==_refl, Bool-cases, get_elem?, ℕ, zero, suc, ◌≡◌, refl, sym, ap, subst, ◌⊎◌, inl, inr,
  Option, none, some, List, [], ◌∷◌, ◌++◌,
}
use xernel.Cap.{CapEntry}
use xernel.Ipc.Endpoint.{
  Endpoint, Message, push_back, enqueue, pop_front, dequeue, send, try_recv, queue_at,
}
use xernel.Ipc.Endpoint.Order.{queue_at-modify, queue_found}

-- A message that is queued carries it.
abbrev pub InFlight : List Endpoint → CapEntry → Type 0
InFlight eps cp = (id j word : ℕ) × (get_elem? (queue_at eps id) j ≡ some (word, some cp))

behind-cases :
    (queue : List Message) (m : Message) (j : ℕ) {x : Message}
    → get_elem? (queue ++ m ∷ []) j ≡ some x
    → (get_elem? queue j ≡ some x) ⊎ (x ≡ m)
behind-cases [] m zero e = inr (cc e)
behind-cases [] m (suc j) e = absurd (cc)
behind-cases (y ∷ queue) m zero e = inl e
behind-cases (y ∷ queue) m (suc j) e = behind-cases queue m j e

-- A send puts no other capability on its way than the one it was given.
pub send-InFlight :
    (eps : List Endpoint) (id word : ℕ) (cap : Option CapEntry) (cp : CapEntry)
    → InFlight (send eps id word cap).1 cp
    → InFlight eps cp ⊎ (cap ≡ some cp)
unfolding send
send-InFlight eps id word cap cp h = by_endpoint (get_elem? eps id) refl h
  where
    by_endpoint :
        (o : Option Endpoint)
        → get_elem? eps id ≡ o
        → InFlight (enqueue eps id (word, cap) o).1 cp
        → InFlight eps cp ⊎ (cap ≡ some cp)
    by_endpoint none e h = inl h
    by_endpoint (some ep) e (i, j, w, g) = elim (Bool-cases (id == i)) [
      | inr other ↦
          inl (i, j, w, rw (queue_at-modify eps id i (push_back (word, cap)) e, other) at g)
      | inl same ↦
          elim (behind-cases ep.queue (word, cap) j
            (rw (queue_at-modify eps id i (push_back (word, cap)) e, same) at g)) [
              | inl old ↦ inl (
                id,
                j,
                w,
                subst (λ q. get_elem? q j ≡ some (w, some cp))
                    (sym (queue_found eps id id ep e (==_refl id))) old,
              )
              | inr new ↦ inr (ap (λ m. m.1) (sym new))
            ]
    ]

-- What a receiver takes was on its way, and nothing else is on its way then.
pub try_recv-InFlight :
    (eps : List Endpoint) (id : ℕ) (cp : CapEntry)
    → (InFlight (try_recv eps id).1 cp → InFlight eps cp)
      × ((word : ℕ) → (try_recv eps id).0 ≡ some (word, some cp) → InFlight eps cp)
unfolding try_recv
try_recv-InFlight eps id cp = by_endpoint (get_elem? eps id) refl
  where
    by_queue :
        (ep : Endpoint)
        → get_elem? eps id ≡ some ep
        → (q : List Message) → queue_at eps id ≡ q
        → (InFlight (pop_front eps id q).1 cp → InFlight eps cp)
          × ((word : ℕ) → (pop_front eps id q).0 ≡ some (word, some cp) → InFlight eps cp)
    by_queue ep e [] same = (λ h. h, λ w h. absurd (cc h))
    by_queue ep e (m ∷ q) same = (
      λ (i, j, w, g). elim (Bool-cases (id == i)) [
        | inr other ↦
            (i, j, w, rw (queue_at-modify eps id i (λ _. record { queue = q }) e, other) at g)
        | inl here ↦ (
          id,
          suc j,
          w,
          rw same (rw (queue_at-modify eps id i (λ _. record { queue = q }) e, here) at g),
        )
      ],
      λ w h. (id, 0, w, rw same h),
    )

    by_endpoint :
        (o : Option Endpoint)
        → get_elem? eps id ≡ o
        → (InFlight (dequeue eps id o).1 cp → InFlight eps cp)
          × ((word : ℕ) → (dequeue eps id o).0 ≡ some (word, some cp) → InFlight eps cp)
    by_endpoint none e = (λ h. h, λ w h. absurd (cc h))
    by_endpoint (some ep) e = by_queue ep e ep.queue (queue_found eps id id ep e (==_refl id))
