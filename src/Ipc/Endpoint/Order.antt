-- ===== src/Ipc/Endpoint/Order.antt =====
-- The queues of Xernel/kernel/src/endpoint.rs lose, double and reorder nothing.
use xernel.Ipc.Endpoint.{
  modify, Message, Endpoint, endpoints, push_back, send, pop_front, try_recv, queue_of, queue_at,
}
use xernel.Prelude.{
  ◌==◌, if◌then◌else◌, ==→eq, ==_refl, Option-cases, length, get_elem?, get_elem?-lt,
  get_elem?-none, get_elem?-modify_self, get_elem?-modify_ne, ℕ, zero, suc, ◌<◌, ◌≡◌, refl, sym, ap,
  subst, ◌∙◌, ◌↔◌, inl, inr, Bool, true, false, Option, none, some, List, [], ◌∷◌, ◌++◌,
  append_assoc, arith, ℕ_discrete,
}
use xernel.Cap.{CapEntry}

-- What senders and receivers have seen: the messages accepted and those delivered, each with its
-- endpoint, in order.
pub record World : Type 0 where
  pub state : List Endpoint
  pub sent : List (ℕ × Message)
  pub got : List (ℕ × Message)

abbrev pub record_sent : Bool × List Endpoint → World → ℕ → Message → World
record_sent (true, eps) w id m = record w { state = eps; sent = w.sent ++ (id, m) ∷ [] }
record_sent (false, eps) w id m = record w { state = eps }

abbrev pub record_got : Option Message × List Endpoint → World → ℕ → World
record_got (none, eps) w id = record w { state = eps }
record_got (some m, eps) w id = record w { state = eps; got = w.got ++ (id, m) ∷ [] }

pub data Step : World → World → Type 0 where
  sends :
      {w : World} (id word : ℕ) (cap : Option CapEntry)
      → Step w (record_sent (send w.state id word cap) w id (word, cap))
  receives : {w : World} (id : ℕ) → Step w (record_got (try_recv w.state id) w id)

abbrev pub start : World
start = record { state = endpoints; sent = []; got = [] }

pub data Reach : World → Type 0 where
  here : Reach start
  next : {v w : World} → Reach v → Step v w → Reach w

-- The messages of one endpoint.
abbrev pub via : ℕ → List (ℕ × Message) → List Message
via id [] = []
via id ((i, m) ∷ log) = if i == id then m ∷ via id log else via id log

via-append :
    (id i : ℕ) (m : Message) (log : List (ℕ × Message))
    → via id (log ++ (i, m) ∷ []) ≡ (if i == id then via id log ++ m ∷ [] else via id log)
via-append id i m [] = ground arith
via-append id i m ((j, x) ∷ log) = ground (arith, via-append id i m log)

pub queue_at-modify :
    (eps : List Endpoint) (i id : ℕ) (f : Endpoint → Endpoint) {ep : Endpoint}
    → get_elem? eps i ≡ some ep
    → queue_at (modify eps i f) id ≡ (if i == id then (f ep).queue else queue_at eps id)
queue_at-modify eps i id f {ep} e = elim (ℕ_discrete i id) [
  | yes same ↦
      subst (λ j. queue_at (modify eps i f) j ≡ (if i == j then (f ep).queue else queue_at eps j))
        same (ap queue_of (get_elem?-modify_self eps i f e) ∙ rw (==_refl i) refl)
  | no other ↦ ap queue_of (get_elem?-modify_ne eps i id f other) ∙ ground arith
]

-- Each endpoint hands on what was sent to it, in order, each message once.
InOrder : World → ℕ → Type 0
InOrder w id = via id w.sent ≡ via id w.got ++ queue_at w.state id

pub queue_found :
    (eps : List Endpoint) (i id : ℕ) (ep : Endpoint)
    → get_elem? eps i ≡ some ep
    → (i == id) ≡ true
    → queue_at eps id ≡ ep.queue
queue_found eps i id ep e b = subst (λ j. queue_at eps j ≡ ep.queue) (==→eq i id b) (ap queue_of e)

put_behind :
    (here : Bool) (sent got queue own : List Message) (m : Message)
    → (here ≡ true → queue ≡ own)
    → sent ≡ got ++ queue
    → (if here then sent ++ m ∷ [] else sent) ≡ got ++ (if here then own ++ m ∷ [] else queue)
put_behind true sent got queue own m same h = rw (h, same refl) (append_assoc got own (m ∷ []))
put_behind false sent got queue own m same h = h

taken_off :
    (here : Bool) (sent got queue rest : List Message) (m : Message)
    → (here ≡ true → queue ≡ m ∷ rest)
    → sent ≡ got ++ queue
    → sent ≡ (if here then got ++ m ∷ [] else got) ++ (if here then rest else queue)
taken_off true sent got queue rest m same h =
    rw (h, same refl) (sym (append_assoc got (m ∷ []) rest))
taken_off false sent got queue rest m same h = h

send-InOrder :
    (w : World) (i id word : ℕ) (cap : Option CapEntry)
    → InOrder w id
    → InOrder (record_sent (send w.state i word cap) w i (word, cap)) id
unfolding send InOrder
send-InOrder w i id word cap h = elim (Option-cases (get_elem? w.state i)) [
  | inl e ↦ rw e h
  | inr (ep, e) ↦
      rw
        (
          e,
          via-append id i (word, cap) w.sent,
          queue_at-modify w.state i id (push_back (word, cap)) e,
        )
        (put_behind (i == id) (via id w.sent) (via id w.got) (queue_at w.state id) ep.queue
          (word, cap) (queue_found w.state i id ep e) h)
]

recv-InOrder :
    (w : World) (i id : ℕ) → InOrder w id → InOrder (record_got (try_recv w.state i) w i) id
unfolding try_recv InOrder
recv-InOrder w i id h = elim (Option-cases (get_elem? w.state i)) [
  | inl e ↦ rw e h
  | inr (ep, e) ↦ rw e (by_queue ep e ep.queue refl)
]
  where
    by_queue :
        (ep : Endpoint)
        → get_elem? w.state i ≡ some ep
        → (q : List Message) → ep.queue ≡ q
        → InOrder (record_got (pop_front w.state i q) w i) id
    by_queue ep e [] same = h
    by_queue ep e (m ∷ q) same =
        rw (via-append id i m w.got, queue_at-modify w.state i id (λ _. record { queue = q }) e)
          (taken_off (i == id) (via id w.sent) (via id w.got) (queue_at w.state id) q m
            (λ b. queue_found w.state i id ep e b ∙ same) h)

Step-InOrder : (v w : World) (id : ℕ) → Step v w → InOrder v id → InOrder w id
Step-InOrder v w id (sends i word cap) h = send-InOrder v i id word cap h
Step-InOrder v w id (receives i) h = recv-InOrder v i id h

start-InOrder : (id : ℕ) → queue_at endpoints id ≡ []
start-InOrder zero = refl
start-InOrder (suc zero) = refl
start-InOrder (suc (suc zero)) = refl
start-InOrder (suc (suc (suc zero))) = refl
start-InOrder (suc (suc (suc (suc id)))) = refl

-- From boot on, however sends and receives of all processes interleave, the messages delivered
-- from an endpoint, followed by those still queued, are exactly the messages that `send` accepted
-- for it, in the order of the sends: none is lost, doubled, reordered or misdelivered.
pub Reach-InOrder :
    (w : World) (id : ℕ) → Reach w → via id w.sent ≡ via id w.got ++ queue_at w.state id
unfolding InOrder
Reach-InOrder w id here = sym (start-InOrder id)
Reach-InOrder w id (next {v = v} r s) = Step-InOrder v w id s (Reach-InOrder v id r)

-- `send` accepts a message exactly for the endpoints of the table, and `try_recv` comes back empty
-- exactly when the endpoint has no message queued.
pub try_recv-none :
    (eps : List Endpoint) (id word : ℕ) (cap : Option CapEntry)
    → (((send eps id word cap).0 ≡ true) ↔ (id < length eps))
      × (((try_recv eps id).0 ≡ none) ↔ (queue_at eps id ≡ []))
unfolding send try_recv
try_recv-none eps id word cap = elim (Option-cases (get_elem? eps id)) [
  | inl e ↦
      let past = get_elem?-none eps id e in
      rw e ((λ f. cc, λ l. absurd (omega arith)), (λ _. refl, λ _. refl))
  | inr (ep, e) ↦ rw e ((λ _. get_elem?-lt eps id e, λ _. refl), by_queue ep.queue)
]
  where
    by_queue : (q : List Message) → ((pop_front eps id q).0 ≡ none) ↔ (q ≡ [])
    by_queue [] = (λ _. refl, λ _. refl)
    by_queue (m ∷ q) = (λ h. cc, λ h. cc)
