-- ===== src/Ipc/Tests.antt =====
-- The objects of Xernel/kernel/src/endpoint.rs, notification.rs and frame_ref.rs at concrete
-- inputs.
use xernel.Prelude.{
  bit_or, test_bit, ℕ, ◌<◌, ◌≡◌, refl, ◌≢◌, true, false, ◌||◌, none, some, [], ◌∷◌, ◌++◌, arith,
}
use xernel.Cap.{CapEntry, frame_cap}
use xernel.Ipc.Endpoint.{endpoints, send, try_recv, queue_at}
use xernel.Ipc.Endpoint.Order.{
  World, sends, receives, start, here, next, via, Reach-InOrder, record_sent, record_got,
}
use xernel.Ipc.Notification.{
  notifications, signal, poll_take, signal_all, any_bit, bits_taken, poll_take-signal_all,
}
use xernel.Ipc.FrameRef.{inc, dec, references}
use xernel.Ipc.FrameRef.Ledger.{takes, gives, run, dec-holders}

abbrev granted : CapEntry
granted = frame_cap 0x9000 1

send_refused : (send endpoints 4 7 none).0 ≡ false
unfolding send
send_refused = refl

received : (try_recv (send endpoints 1 7 (some granted)).1 1).0 ≡ some (7, some granted)
unfolding send try_recv
received = refl

abbrev one_sent : World
one_sent = record_sent (send endpoints 1 7 (some granted)) start 1 (7, some granted)

abbrev two_sent : World
two_sent = record_sent (send one_sent.state 1 8 none) one_sent 1 (8, none)

abbrev one_received : World
one_received = record_got (try_recv two_sent.state 1) two_sent 1

Reach-InOrder_example :
    via 1 one_received.sent ≡ via 1 one_received.got ++ queue_at one_received.state 1
Reach-InOrder_example =
    Reach-InOrder one_received 1
      (next (next (next here (sends 1 7 (some granted))) (sends 1 8 none)) (receives 1))

signalled : (poll_take (signal (signal notifications 2 5).1 2 6).1 2).0 ≡ some 7
unfolding signal poll_take bit_or
signalled = refl

poll_take-signal_all_example :
    let (taken, left) = poll_take (signal_all notifications 2 (5 ∷ 6 ∷ [])) 2 in
    ((k : ℕ) → k < 64 → test_bit k (bits_taken taken) ≡ (test_bit k 0 || any_bit k (5 ∷ 6 ∷ [])))
    × (taken ≢ some 0)
    × ((poll_take left 2).0 ≡ none)
poll_take-signal_all_example = poll_take-signal_all notifications 2 0 (5 ∷ 6 ∷ []) refl

last_dropped : (dec (run (takes 8 ∷ takes 8 ∷ gives 8 ∷ []) []) 8).0 ≡ true
unfolding inc dec
last_dropped = refl

dec-holders_example :
    (references (run (takes 8 ∷ takes 8 ∷ gives 8 ∷ []) []) 8 ≡ 1)
    × ((dec (run (takes 8 ∷ takes 8 ∷ gives 8 ∷ []) []) 8).0 ≡ true)
dec-holders_example = dec-holders (takes 8 ∷ takes 8 ∷ gives 8 ∷ []) 8 (omega arith)
