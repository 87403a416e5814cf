-- ===== src/Net/Segment.antt =====
-- `tcp_checksum` and `net_tcp_send` of Xernel/userland/init/src/main.rs, with the frame in the order of its
-- bytes: what the source writes into a buffer of zeros, and the zeros it leaves.
use xernel.Prelude.{ltb, if◌then◌else◌, length, ℕ, ◌+◌, Bool, none, List, [], ◌∷◌, ◌++◌}
use xernel.Net.{Nic, our_ip, be16, be32, TcpState, Run, transmit}
use xernel.Net.Checksum.{inet_checksum}

-- The buffer of `tcp_checksum`: the pseudo header and the segment.
abbrev pub pseudo_segment : List ℕ → List ℕ → List ℕ → List ℕ
pseudo_segment src dst seg = src ++ (dst ++ (0 ∷ 6 ∷ be16 (length seg) ++ seg))

unfoldable pub tcp_checksum : List ℕ → List ℕ → List ℕ → ℕ
unfolding inet_checksum
tcp_checksum src dst seg = inet_checksum (pseudo_segment src dst seg)

-- The IPv4 header of a segment, with the two bytes of its checksum.
abbrev pub ip_header : ℕ → List ℕ → List ℕ → List ℕ
ip_header ip_len dip sum =
    0x45 ∷ 0 ∷ be16 ip_len ++ (0x42 ∷ 0 ∷ 0 ∷ 0 ∷ 64 ∷ 6 ∷ sum ++ (our_ip ++ dip))

-- The TCP header and the data, with the two bytes of the checksum.
abbrev pub tcp_segment : ℕ → ℕ → ℕ → ℕ → ℕ → List ℕ → List ℕ → List ℕ
tcp_segment sport dport seq ack flags contents sum =
    be16 sport
    ++ (be16 dport
        ++ (be32 seq ++ (be32 ack ++ (0x50 ∷ flags ∷ 0x40 ∷ 0 ∷ sum ++ (0 ∷ 0 ∷ contents)))))

abbrev pub no_sum : List ℕ
no_sum = 0 ∷ 0 ∷ []

abbrev pub ip_part : ℕ → List ℕ → List ℕ
ip_part ip_len dip = ip_header ip_len dip (be16 (inet_checksum (ip_header ip_len dip no_sum)))

abbrev pub tcp_part : List ℕ → ℕ → ℕ → ℕ → ℕ → ℕ → List ℕ → List ℕ
tcp_part dip sport dport seq ack flags contents =
    let blank = tcp_segment sport dport seq ack flags contents no_sum in
    tcp_segment sport dport seq ack flags contents (be16 (tcp_checksum our_ip dip blank))

unfoldable pub tcp_frame : List ℕ → List ℕ → List ℕ → ℕ → ℕ → ℕ → ℕ → ℕ → List ℕ → List ℕ
tcp_frame dmac smac dip sport dport seq ack flags contents =
    dmac
    ++ (smac
        ++ (0x08 ∷ 0x00 ∷ ip_part (40 + length contents) dip
            ++ tcp_part dip sport dport seq ack flags contents))

-- The buffer of a frame has room for 64 bytes of data: more of them are an index out of bounds.
abbrev pub max_data : ℕ
max_data = 64

module _ (n : Nic) where
  unfoldable pub net_tcp_send : List ℕ → List ℕ → ℕ → ℕ → ℕ → ℕ → ℕ → List ℕ → Run n Bool
  unfolding tcp_frame
  net_tcp_send dmac dip sport dport seq ack flags contents net =
      if ltb max_data (length contents)
      then none
      else transmit n (tcp_frame dmac (n.mac net) dip sport dport seq ack flags contents) net

  -- The call with the addresses and numbers of a socket.
  abbrev pub send_on : TcpState → ℕ → List ℕ → Run n Bool
  send_on tcp flags contents =
      net_tcp_send tcp.dmac tcp.dip tcp.sport tcp.dport tcp.our_seq tcp.their_ack flags contents
