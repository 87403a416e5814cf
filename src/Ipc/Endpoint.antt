-- ===== src/Ipc/Endpoint.antt =====
-- Xernel/kernel/src/endpoint.rs: the queues of messages, each a word and perhaps a capability.
pub mod Order
use xernel.Prelude.{
  modify, get_elem?, replicate, ℕ, Bool, true, false, Option, none, some, List, [], ◌∷◌, ◌++◌,
}
use xernel.Cap.{CapEntry}

abbrev pub Message : Type 0
Message = ℕ × Option CapEntry

-- The front of the queue is the head of the list.
pub record Endpoint : Type 0 where
  pub queue : List Message

abbrev pub num_endpoints : ℕ
num_endpoints = 4

abbrev pub new : Endpoint
new = record { queue = [] }

-- `ENDPOINTS` at boot.
abbrev pub endpoints : List Endpoint
endpoints = replicate num_endpoints new

abbrev pub push_back : Message → Endpoint → Endpoint
push_back m ep = record { queue = ep.queue ++ m ∷ [] }

-- What `send` does with the endpoint it found.
abbrev pub enqueue : List Endpoint → ℕ → Message → Option Endpoint → Bool × List Endpoint
enqueue eps id m none = (false, eps)
enqueue eps id m (some ep) = (true, modify eps id (push_back m))

unfoldable pub send : List Endpoint → ℕ → ℕ → Option CapEntry → Bool × List Endpoint
send eps id word cap = enqueue eps id (word, cap) (get_elem? eps id)

abbrev pub pop_front : List Endpoint → ℕ → List Message → Option Message × List Endpoint
pop_front eps id [] = (none, eps)
pop_front eps id (m ∷ queue) = (some m, modify eps id (λ _. record { queue = queue }))

abbrev pub dequeue : List Endpoint → ℕ → Option Endpoint → Option Message × List Endpoint
dequeue eps id none = (none, eps)
dequeue eps id (some ep) = pop_front eps id ep.queue

unfoldable pub try_recv : List Endpoint → ℕ → Option Message × List Endpoint
try_recv eps id = dequeue eps id (get_elem? eps id)

abbrev pub queue_of : Option Endpoint → List Message
queue_of none = []
queue_of (some ep) = ep.queue

abbrev pub queue_at : List Endpoint → ℕ → List Message
queue_at eps id = queue_of (get_elem? eps id)
