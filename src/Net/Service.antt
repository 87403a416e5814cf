-- ===== src/Net/Service.antt =====
-- The service host of Xernel/userland/init/src/main.rs: `combined_service` from the request on, and
-- `net_buffer_frame`. A request is answered by a word and the slot of a capability to grant.
pub mod Requests
pub mod Dispatch
pub mod Returns
pub mod Crash
use xernel.Prelude.{
  if◌then◌else◌, modify, ltb, leb, ◌==◌, length, get_elem?, u64_max, slice, splice, ℕ, ◌+◌, ◌-◌,
  ◌^◌, min, Bool, true, false, ◌&&◌, not, Option, none, some, List, [], ◌∷◌,
}
use xernel.Net.{Nic, add32, rd_be16, rd_be32, tcp_ack, TcpState, Run, bind, return}
use xernel.Net.Segment.{net_tcp_send, send_on}

abbrev pub op_bye : ℕ
op_bye = 0

abbrev pub op_readfile : ℕ
op_readfile = 5

abbrev pub op_net_connect : ℕ
op_net_connect = 10

abbrev pub op_net_send : ℕ
op_net_send = 11

abbrev pub op_net_recv : ℕ
op_net_recv = 12

abbrev pub op_net_close : ℕ
op_net_close = 13

abbrev pub op_net_get_frame : ℕ
op_net_get_frame = 14

abbrev pub op_net_get_ready : ℕ
op_net_get_ready = 15

abbrev pub sock_max : ℕ
sock_max = 4

abbrev pub first_port : ℕ
first_port = 49152

abbrev pub shm_frame_slot : ℕ
shm_frame_slot = 6

abbrev pub no_cap : ℕ
no_cap = u64_max

abbrev pub page_bytes : ℕ
page_bytes = 4096

-- What the arrays of the service have at one index: the connection, the shared page with the
-- address it is mapped at, and the bytes that wait there.
pub record Socket : Type 0 where
  pub tcp : TcpState
  pub shm_va : ℕ
  pub have_shm : Bool
  pub page : List ℕ
  pub pending : Bool
  pub pending_len : ℕ

-- The four sockets, the address of the gateway, and the bits raised on the notification, the
-- latest first.
pub record Host : Type 0 where
  pub socks : List Socket
  pub gmac : List ℕ
  pub notified : List ℕ

abbrev pub on_socket : Host → ℕ → (Socket → Socket) → Host
on_socket h i f = record h { socks = modify h.socks i f }

abbrev pub with_tcp : TcpState → Socket → Socket
with_tcp tcp s = record s { tcp = tcp }

-- A word, and the slot of the capability granted with it.
abbrev pub Reply : Type 0
Reply = ℕ × ℕ

abbrev pub refused : Reply
refused = (u64_max, no_cap)

-- The data of a received frame that the socket's page has room for: the buffer has 256 bytes.
abbrev pub payload_len : List ℕ → ℕ
payload_len e = rd_be16 e 16 - 40

abbrev pub buffered_len : List ℕ → ℕ
buffered_len e = min (min (payload_len e) page_bytes) (length e - 54)

-- What the indexes and slices of `net_buffer_frame` need: `e[36]` and `e[37]` at first, and for data
-- `e[54..54 + n]`, which is behind all the other indexes, and `dest[..n]`. Out of bounds they panic.
abbrev pub has_port : List ℕ → Bool
has_port e = leb 38 (length e)

abbrev pub slices_fit : List ℕ → Bool
slices_fit e = leb (54 + buffered_len e) (length e) && leb (buffered_len e) page_bytes

-- The socket of a frame that carries data for it.
abbrev pub wants : List ℕ → Option Socket → Bool
wants e none = false
wants e (some s) = not (s.shm_va == 0) && s.tcp.active && not (payload_len e == 0)

abbrev pub in_ports : ℕ → Bool
in_ports port = leb first_port port && ltb port (first_port + sock_max)

abbrev pub acked : List ℕ → TcpState → TcpState
acked e tcp = record tcp { their_ack = add32 (rd_be32 e 38) (payload_len e) }

abbrev pub take_in : List ℕ → Socket → Socket
take_in e s = record s {
  tcp = acked e s.tcp;
  page = splice s.page 0 (slice e 54 (buffered_len e));
  pending = true;
  pending_len = buffered_len e;
}

module _ (n : Nic) where
  abbrev pub buffer_for : Host → List ℕ → ℕ → Option Socket → Run n (Option ℕ × Host)
  buffer_for h e i none = return n (none, h)
  buffer_for h e i (some s) =
      if slices_fit e
      then (bind n (send_on n (acked e s.tcp) tcp_ack []) λ sent.
          return n
            (some i, record (on_socket h i (take_in e)) { notified = 2 ^ (2 + i) ∷ h.notified }))
      else λ net. none

  unfoldable pub net_buffer_frame : Host → List ℕ → Run n (Option ℕ × Host)
  unfolding net_tcp_send
  net_buffer_frame h e =
      let port = rd_be16 e 36 in
      let i = port - first_port in
      if has_port e
      then (if in_ports port && wants e (get_elem? h.socks i)
          then buffer_for h e i (get_elem? h.socks i)
          else return n (none, h))
      else λ net. none
