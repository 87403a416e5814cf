-- ===== src/Net/Connect.antt =====
-- The exchanges of Xernel/userland/init/src/main.rs with the network: the handshake of TCP, an ARP
-- request and a DHCP request.
use xernel.Prelude.{
  ◌==◌, if◌then◌else◌, replicate, test_bit, octet, slice, ℕ, zero, suc, ◌+◌, Bool, true, false,
  ◌&&◌, not, Option, none, some, List, [], ◌∷◌, ◌++◌,
}
use xernel.Net.{
  Nic, our_ip, add32, be16, rd_be16, rd_be32, tcp_syn, tcp_ack, TcpState, Run, bind, return, arm,
  wait, transmit, when,
}
use xernel.Net.Checksum.{inet_checksum}
use xernel.Net.Segment.{no_sum, net_tcp_send, send_on}

-- An IPv4 frame with a TCP segment whose `SYN` and `ACK` are set.
abbrev pub is_syn_ack : List ℕ → Bool
is_syn_ack r =
    octet r 12 == 0x08
    && octet r 13 == 0x00
    && octet r 23 == 6
    && test_bit 1 (octet r 47)
    && test_bit 4 (octet r 47)

-- The numbers after a `SYN`/`ACK`.
abbrev pub acknowledge : TcpState → List ℕ → TcpState
acknowledge tcp r = record tcp { our_seq = add32 tcp.our_seq 1; their_ack = add32 (rd_be32 r 38) 1 }

module _ (n : Nic) where
  -- A round of the loop of `net_connect`: the answer, or the state to go on with.
  abbrev pub confirm : TcpState → Run n (Option Bool × TcpState)
  confirm tcp =
      bind n (send_on n tcp tcp_ack []) λ sent. return n (if sent then some true else none, tcp)

  abbrev pub on_frame : TcpState → Option (List ℕ) → Run n (Option Bool × TcpState)
  on_frame tcp none = return n (some false, tcp)
  on_frame tcp (some r) =
      if not (rd_be16 r 36 == tcp.sport)
      then bind n (arm n) (λ armed. return n (none, tcp))
      else if is_syn_ack r
      then confirm (acknowledge tcp r)
      else return n (some false, tcp)

  abbrev pub go_on :
      (TcpState → Run n (Bool × TcpState)) → Option Bool × TcpState → Run n (Bool × TcpState)
  go_on next (some answer, tcp) = return n (answer, tcp)
  go_on next (none, tcp) = next tcp

  unfoldable pub handshake : ℕ → TcpState → Run n (Bool × TcpState)
  unfolding net_tcp_send
  handshake zero tcp = return n (false, tcp)
  handshake (suc attempts) tcp =
      bind n (wait n 128) λ got. bind n (on_frame tcp got) (go_on (handshake attempts))

  abbrev pub opening : TcpState → TcpState
  opening tcp = record tcp { our_seq = 0x1000 + tcp.sport; their_ack = 0 }

  unfoldable pub net_connect : TcpState → Run n (Bool × TcpState)
  unfolding handshake net_tcp_send
  net_connect tcp = bind n (arm n) λ armed.
      bind n (send_on n (opening tcp) tcp_syn [])
        λ sent. when n sent (false, opening tcp) (handshake 4 (opening tcp))

-- The ARP request for an address.
abbrev pub arp_request : List ℕ → List ℕ → List ℕ
arp_request smac ip =
    replicate 6 0xff
    ++ smac
    ++ 0x08 ∷ 0x06 ∷ 0x00 ∷ 0x01 ∷ 0x08 ∷ 0x00 ∷ 6 ∷ 4 ∷ 0x00 ∷ 0x01 ∷ smac
    ++ our_ip
    ++ replicate 6 0
    ++ ip

abbrev arp_reply : Option (List ℕ) → Option (List ℕ)
arp_reply none = none
arp_reply (some r) = if octet r 12 == 0x08 && octet r 13 == 0x06 then some (slice r 22 6) else none

-- The IPv4 header of the DHCP request, with the two bytes of its checksum.
abbrev pub dhcp_ip_header : List ℕ → List ℕ
dhcp_ip_header sum =
    0x45 ∷ 0 ∷ be16 272 ++ 0x39 ∷ 0x03 ∷ 0 ∷ 0 ∷ 64 ∷ 17 ∷ sum ++ replicate 4 0 ++ replicate 4 0xff

abbrev pub dhcp_request : List ℕ → List ℕ
dhcp_request smac =
    replicate 6 0xff
    ++ smac
    ++ 0x08 ∷ 0x00 ∷ dhcp_ip_header (be16 (inet_checksum (dhcp_ip_header no_sum)))
    ++ 0 ∷ 68 ∷ 0 ∷ 67 ∷ be16 252
    ++ no_sum
    ++ 1 ∷ 1 ∷ 6 ∷ 0 ∷ 0x39 ∷ 0x03 ∷ 0xf3 ∷ 0x26 ∷ 0 ∷ 0 ∷ 0x80 ∷ 0 ∷ replicate 16 0
    ++ smac
    ++ replicate 202 0
    ++ 0x63 ∷ 0x82 ∷ 0x53 ∷ 0x63 ∷ 53 ∷ 1 ∷ 1 ∷ 255 ∷ []

abbrev dhcp_offer : Option (List ℕ) → Option (List ℕ)
dhcp_offer none = none
dhcp_offer (some r) =
    if octet r 12 == 0x08
      && octet r 13 == 0x00
      && octet r 23 == 17
      && octet r 35 == 67
      && octet r 42 == 2
    then some (slice r 58 4)
    else none

module _ (n : Nic) where
  -- One frame out, one frame of `len` bytes back.
  abbrev exchange : {A : Type 0} → List ℕ → ℕ → (Option (List ℕ) → Option A) → Run n (Option A)
  exchange frame len f = bind n (arm n) λ armed.
      bind n (transmit n frame)
        λ sent. when n sent none (bind n (wait n len) λ got. return n (f got))

  unfoldable pub net_resolve : List ℕ → Run n (Option (List ℕ))
  net_resolve ip net = exchange (arp_request (n.mac net) ip) 42 arp_reply net

  unfoldable pub net_dhcp : Run n (Option (List ℕ))
  net_dhcp net = exchange (dhcp_request (n.mac net)) 128 dhcp_offer net
