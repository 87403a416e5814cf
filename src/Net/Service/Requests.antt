-- ===== src/Net/Service/Requests.antt =====
-- The requests on sockets that `combined_service` of Xernel/userland/init/src/main.rs answers.
use xernel.Prelude.{
  leb, ◌==◌, if◌then◌else◌, get_elem?, take, u64_max, ℕ, zero, suc, ◌+◌, ◌/◌, ◌%◌, ◌^◌, min, Bool,
  true, false, ◌&&◌, Option, none, some, List, [], ◌∷◌,
}
use xernel.Net.{
  Nic, add32, be32, rd_be16, tcp_fin, tcp_psh, tcp_ack, TcpState, Run, bind, return, arm, wait,
}
use xernel.Net.Segment.{net_tcp_send, send_on}
use xernel.Net.Connect.{net_connect}
use xernel.Net.Service.{
  shm_frame_slot, no_cap, page_bytes, Socket, Host, on_socket, with_tcp, Reply, refused,
  net_buffer_frame,
}

-- The socket with what the request says of the peer.
abbrev pub dialled : TcpState → ℕ → List ℕ → TcpState
dialled tcp a gmac = record tcp { dip = be32 (a % 2 ^ 32); dport = a / 2 ^ 32 % 65536; dmac = gmac }

abbrev count_sent : ℕ → TcpState → TcpState
count_sent len tcp = record tcp { our_seq = add32 tcp.our_seq len }

abbrev pub can_send : Socket → ℕ → Bool
can_send s len = s.tcp.active && s.have_shm && leb len page_bytes

-- Handing out what waits for a socket: at most `max` bytes, a `u32`, and nothing waits then.
abbrev handed : Option Socket → ℕ → ℕ
handed none limit = 0
handed (some s) limit = min s.pending_len (limit % 2 ^ 32)

abbrev emptied : Socket → Socket
emptied s = record s { pending = false; pending_len = 0 }

abbrev pub is_for : Option ℕ → ℕ → Bool
is_for none i = false
is_for (some j) i = j == i

abbrev pub hung_up : Socket → Socket
hung_up s = with_tcp (record (s.tcp) { active = false }) s

unfoldable pub on_get_frame : Host → ℕ → Reply
on_get_frame h i = elim (get_elem? h.socks i) [
  | none ↦ refused
  | some s ↦ if s.have_shm then (page_bytes, shm_frame_slot + i) else refused
]

-- The sockets with data, from `i` on, as bits.
unfoldable pub ready_mask : ℕ → List Socket → ℕ
ready_mask i [] = 0
ready_mask i (s ∷ socks) =
    let rest = ready_mask (suc i) socks in if s.pending then 2 ^ i + rest else rest

abbrev pub mask_of : Option ℕ → ℕ
mask_of none = 0
mask_of (some i) = 2 ^ i

module _ (n : Nic) where
  abbrev pub replied : ℕ → Host → Run n (Reply × Host)
  replied word h = return n ((word, no_cap), h)

  abbrev pub connected : Host → ℕ → Bool × TcpState → Run n (Reply × Host)
  connected h i (up, tcp) =
      replied (if up then 0 else u64_max) (on_socket h i (with_tcp (record tcp { active = up })))

  abbrev pub connect_for : Host → ℕ → ℕ → Option Socket → Run n (Reply × Host)
  connect_for h i a none = return n (refused, h)
  connect_for h i a (some s) = bind n (net_connect n (dialled s.tcp a h.gmac)) (connected h i)

  unfoldable pub on_connect : Host → ℕ → ℕ → Run n (Reply × Host)
  unfolding net_connect
  on_connect h i a = connect_for h i a (get_elem? h.socks i)

  abbrev pub sent_on : Host → ℕ → Socket → ℕ → Bool → Run n (Reply × Host)
  sent_on h i s len true = replied len (on_socket h i (with_tcp (count_sent len s.tcp)))
  sent_on h i s len false = return n (refused, h)

  abbrev pub send_for : Host → ℕ → ℕ → Option Socket → Run n (Reply × Host)
  send_for h i len none = return n (refused, h)
  send_for h i len (some s) =
      if can_send s len
      then bind n (send_on n s.tcp (tcp_psh + tcp_ack) (take len s.page)) (sent_on h i s len)
      else return n (refused, h)

  unfoldable pub on_send : Host → ℕ → ℕ → Run n (Reply × Host)
  unfolding net_tcp_send
  on_send h i len = send_for h i len (get_elem? h.socks i)

  abbrev pub hand_out : Host → ℕ → ℕ → Run n (Reply × Host)
  hand_out h i limit = replied (handed (get_elem? h.socks i) limit) (on_socket h i emptied)

  abbrev pub polled :
      ℕ → ℕ → ℕ → (Host → Run n (Reply × Host)) → List ℕ → Option ℕ × Host → Run n (Reply × Host)
  polled port i limit next e (got, h) =
      if rd_be16 e 36 == port && is_for got i then hand_out h i limit else next h

  abbrev pub poll_frame :
      Host → ℕ → ℕ → ℕ → (Host → Run n (Reply × Host)) → Option (List ℕ) → Run n (Reply × Host)
  poll_frame h port i limit next none = replied 0 h
  poll_frame h port i limit next (some e) =
      bind n (net_buffer_frame n h e) (polled port i limit next e)

  -- The attempts of a receive for the port of socket `i`.
  unfoldable pub poll : ℕ → ℕ → ℕ → ℕ → Host → Run n (Reply × Host)
  unfolding net_buffer_frame
  poll zero port i limit h = replied 0 h
  poll (suc attempts) port i limit h =
      bind n (arm n) λ armed.
        bind n (wait n 256) λ got. poll_frame h port i limit (poll attempts port i limit) got

  abbrev pub recv_for : Host → ℕ → ℕ → Option Socket → Run n (Reply × Host)
  recv_for h i limit none = return n (refused, h)
  recv_for h i limit (some s) =
      if s.tcp.active && s.have_shm
      then (if s.pending then hand_out h i limit else poll 6 s.tcp.sport i limit h)
      else return n (refused, h)

  unfoldable pub on_recv : Host → ℕ → ℕ → Run n (Reply × Host)
  unfolding poll
  on_recv h i limit = recv_for h i limit (get_elem? h.socks i)

  abbrev pub close_for : Host → ℕ → Option Socket → Run n (Reply × Host)
  close_for h i none = replied 0 h
  close_for h i (some s) =
      if s.tcp.active
      then bind n (send_on n s.tcp (tcp_fin + tcp_ack) [])
          (λ sent. replied 0 (on_socket h i hung_up))
      else replied 0 h

  unfoldable pub on_close : Host → ℕ → Run n (Reply × Host)
  unfolding net_tcp_send
  on_close h i = close_for h i (get_elem? h.socks i)

  abbrev pub gather_frame :
      Host → (ℕ → Host → Run n (Reply × Host)) → Option (List ℕ) → Run n (Reply × Host)
  gather_frame h next none = replied 0 h
  gather_frame h next (some e) =
      bind n (net_buffer_frame n h e) (λ buffered. next (mask_of buffered.0) buffered.1)

  -- The attempts of `OP_NET_GET_READY`, which end once a bit is set.
  unfoldable pub gather : ℕ → ℕ → Host → Run n (Reply × Host)
  unfolding net_buffer_frame
  gather zero mask h = replied mask h
  gather (suc attempts) mask h =
      if mask == 0
      then bind n (arm n) (λ armed. bind n (wait n 256) (gather_frame h (gather attempts)))
      else replied mask h
