-- ===== src/Net/Tests.antt =====
-- The network stack on a segment of two bytes, and the service host on a long send.
use xernel.Prelude.{
  zero, suc, some, subst, length-replicate, length, drop, replicate, slice, ℕ, ◌+◌, ◌≡◌, refl, ◌↔◌,
  true, false, none, List, [], ◌∷◌, arith,
}
use xernel.Fs.{Disk}
use xernel.Net.{Nic, gw_ip, tcp_psh}
use xernel.Net.Checksum.{word_sum}
use xernel.Net.Segment.{tcp_frame}
use xernel.Net.Integrity.{Sound, pseudo_words, tcp_frame-checks}
use xernel.Net.Service.{op_net_send, Socket}
use xernel.Net.Service.Requests.{on_send}
use xernel.Net.Service.Dispatch.{Service, panics, sock_of, rest_of, serve_op}
use xernel.Net.Service.Returns.{FillsBuffers}
use xernel.Net.Service.Crash.{WholePages, Overlong, serve_op-panics}

abbrev hi : List ℕ
hi = 0x68 ∷ 0x69 ∷ []

abbrev hi_frame : List ℕ
hi_frame = tcp_frame (replicate 6 2) (replicate 6 1) gw_ip 49152 7 1000 2000 tcp_psh hi

framed : length hi_frame ≡ 56
unfolding tcp_frame
framed = refl

tcp_frame-checks_example :
    Sound (word_sum (slice hi_frame 14 20))
    × Sound (pseudo_words gw_ip 22 + word_sum (drop 34 hi_frame))
tcp_frame-checks_example =
    tcp_frame-checks (replicate 6 2) (replicate 6 1) gw_ip 49152 7 1000 2000 tcp_psh hi refl refl
      refl (omega arith, (omega arith, (omega arith, (omega arith, tt)))) (omega arith)
      (omega arith, (omega arith, tt)) (omega arith)

-- A card that takes every frame and receives empty ones, and a disk that fails.
abbrev silent : Nic
silent = record {
  Net = Unit {0};
  mac = λ net. replicate 6 1;
  rx_arm = λ net. net;
  rx_wait = λ net len. (some (replicate len 0), net);
  tx = λ net frame. (true, net);
}

abbrev no_disk : Disk
no_disk = record { Blk = Unit {0}; read = λ b s. (none, b); write = λ b s bytes. (false, b) }

abbrev open_socket : Socket
open_socket = record {
  tcp = record {
    dmac = replicate 6 2;
    dip = gw_ip;
    sport = 49152;
    dport = 7;
    our_seq = 1000;
    their_ack = 2000;
    active = true;
  };
  shm_va = 0x70000000;
  have_shm = true;
  page = replicate 4096 0x61;
  pending = false;
  pending_len = 0;
}

abbrev service : Service no_disk silent
service = record {
  host = record { socks = open_socket ∷ []; gmac = replicate 6 2; notified = [] };
  blk = tt;
  net = tt;
}

sends_65 : serve_op no_disk silent service op_net_send 65 ≡ panics
unfolding serve_op on_send
sends_65 = refl

silent-FillsBuffers : FillsBuffers silent
silent-FillsBuffers net len e same =
    let whole : replicate len 0 ≡ e = cc in
    subst (λ x. length x ≡ len) whole (length-replicate len 0)

service-WholePages : WholePages service.host
service-WholePages zero s e =
    let same : open_socket ≡ s = ground arith in
    subst (λ x. length x.page ≡ 4096) same (length-replicate {A = ℕ} 4096 0x61)
service-WholePages (suc i) s e = absurd (cc)

serve_op-panics_example :
    (serve_op no_disk silent service op_net_send 65 ≡ panics)
    ↔ ((op_net_send ≡ op_net_send) × Overlong service.host (sock_of 65) (rest_of 65))
serve_op-panics_example =
    serve_op-panics no_disk silent service op_net_send 65 silent-FillsBuffers service-WholePages
