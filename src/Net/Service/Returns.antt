-- ===== src/Net/Service/Returns.antt =====
-- The functions of the service host of Xernel/userland/init/src/main.rs that return from every state.
use xernel.Net.Service.Requests.{
  dialled, close_for, connect_for, recv_for, is_for, mask_of, gather_frame, poll_frame, poll,
  gather,
}
use xernel.Net.Connect.{opening, go_on, on_frame, is_syn_ack, acknowledge, handshake, net_connect}
use xernel.Net.Service.{
  buffer_for, has_port, slices_fit, first_port, Socket, Host, Reply, wants, in_ports, acked,
  net_buffer_frame,
}
use xernel.Prelude.{
  ltb, ◌==◌, if◌then◌else◌, length, get_elem?, ℕ, zero, suc, ◌+◌, ◌-◌, ◌≡◌, refl, Bool, true, false,
  ◌&&◌, not, Option, none, some, List, [], arith,
}
use xernel.Net.{Nic, rd_be16, tcp_fin, tcp_syn, tcp_ack, TcpState, Run, bind, arm, wait, when}
use xernel.Net.Segment.{tcp_frame, max_data, net_tcp_send, send_on}

-- A function that returns from every state of the device.
abbrev pub Returns : (n : Nic) {A : Type 0} → Run n A → Type 0
Returns n {A} m = (net : n.Net) → (r : A × n.Net) × (m net ≡ some r)

module _ (n : Nic) where
  pub Returns-bind :
      {A B : Type 0} (m : Run n A) (f : A → Run n B)
      → Returns n m
      → ((a : A) → Returns n (f a))
      → Returns n (bind n m f)
  Returns-bind m f hm hf net =
      let ((a, net'), e) = hm net in let (r, e') = hf a net' in (r, rw e e')

  Returns-if :
      {A : Type 0} (b : Bool) (x y : Run n A)
      → Returns n x
      → Returns n y
      → Returns n (if b then x else y)
  Returns-if true x y hx hy = hx
  Returns-if false x y hx hy = hy

  pub Returns-short :
      (tcp : TcpState) (flags : ℕ) (contents : List ℕ)
      → ltb max_data (length contents) ≡ false
      → Returns n (send_on n tcp flags contents)
  unfolding net_tcp_send
  Returns-short tcp flags contents short net = (
    n.tx net (
        tcp_frame tcp.dmac (n.mac net) tcp.dip tcp.sport tcp.dport tcp.our_seq tcp.their_ack flags
          contents),
    rw short refl,
  )

  Returns-send : (tcp : TcpState) (flags : ℕ) → Returns n (send_on n tcp flags [])
  Returns-send tcp flags = Returns-short tcp flags [] refl

  Returns-when :
      {A : Type 0} (b : Bool) (other : A) (m : Run n A) → Returns n m → Returns n (when n b other m)
  Returns-when true other m h = h
  Returns-when false other m h = λ net. (_, refl)

  Returns-on_frame : (tcp : TcpState) (got : Option (List ℕ)) → Returns n (on_frame n tcp got)
  Returns-on_frame tcp none = λ net. (_, refl)
  Returns-on_frame tcp (some r) =
      Returns-if (not (rd_be16 r 36 == tcp.sport)) _ _ (λ net. (_, refl))
        (Returns-if (is_syn_ack r) _ _
          (Returns-bind (send_on n (acknowledge tcp r) tcp_ack []) _
            (Returns-send (acknowledge tcp r) tcp_ack) (λ sent net. (_, refl)))
          (λ net. (_, refl)))

  Returns-go_on :
      (next : TcpState → Run n (Bool × TcpState)) (round : Option Bool × TcpState)
      → ((tcp : TcpState) → Returns n (next tcp))
      → Returns n (go_on n next round)
  Returns-go_on next (some answer, tcp) h = λ net. (_, refl)
  Returns-go_on next (none, tcp) h = h tcp

  Returns-handshake : (attempts : ℕ) (tcp : TcpState) → Returns n (handshake n attempts tcp)
  unfolding handshake
  Returns-handshake zero tcp = λ net. (_, refl)
  Returns-handshake (suc attempts) tcp =
      Returns-bind (wait n 128) _ (λ net. (_, refl))
        λ got.
          Returns-bind (on_frame n tcp got) (go_on n (handshake n attempts))
            (Returns-on_frame tcp got)
            λ round. Returns-go_on (handshake n attempts) round (Returns-handshake attempts)

  Returns-net_connect : (tcp : TcpState) → Returns n (net_connect n tcp)
  unfolding net_connect
  Returns-net_connect tcp =
      let ready = opening n tcp in
      Returns-bind (arm n) _ (λ net. (_, refl))
        λ armed.
          Returns-bind (send_on n ready tcp_syn []) _ (Returns-send ready tcp_syn)
            λ sent. Returns-when sent (false, ready) _ (Returns-handshake 4 ready)

  pub Returns-connect_for :
      (h : Host) (i a : ℕ) (s : Option Socket) → Returns n (connect_for n h i a s)
  Returns-connect_for h i a none = λ net. (_, refl)
  Returns-connect_for h i a (some s) =
      let tcp = dialled s.tcp a h.gmac in
      Returns-bind (net_connect n tcp) _ (Returns-net_connect tcp) (λ up net. (_, refl))

  pub Returns-close_for : (h : Host) (i : ℕ) (s : Option Socket) → Returns n (close_for n h i s)
  Returns-close_for h i none = λ net. (_, refl)
  Returns-close_for h i (some s) =
      Returns-if s.tcp.active _ _
        (Returns-bind (send_on n s.tcp (tcp_fin + tcp_ack) []) _
          (Returns-send s.tcp (tcp_fin + tcp_ack)) (λ sent net. (_, refl)))
        (λ net. (_, refl))

-- The card fills the whole buffer that it is given, or times out.
abbrev pub FillsBuffers : Nic → Type 0
FillsBuffers n =
    (net : n.Net) (len : ℕ) (e : List ℕ) → (n.rx_wait net len).0 ≡ some e → length e ≡ len

module _ (n : Nic) (fills : FillsBuffers n) where
  Returns-wait :
      {B : Type 0} (len : ℕ) (f : Option (List ℕ) → Run n B)
      → ((got : Option (List ℕ))
          → ((e : List ℕ) → got ≡ some e → length e ≡ len)
          → Returns n (f got))
      → Returns n (bind n (wait n len) f)
  Returns-wait len f h net =
      h (n.rx_wait net len).0 (λ e same. fills net len e same) (n.rx_wait net len).1

  Returns-buffer_for :
      (h : Host) (e : List ℕ) (i : ℕ) (s : Option Socket)
      → length e ≡ 256
      → Returns n (buffer_for n h e i s)
  Returns-buffer_for h e i none whole = λ net. (_, refl)
  Returns-buffer_for h e i (some s) whole =
      let fit : slices_fit e ≡ true = ground arith in
      rw fit (
        Returns-bind n (send_on n (acked e s.tcp) tcp_ack []) _
          (Returns-send n (acked e s.tcp) tcp_ack) (λ sent net. (_, refl)))

  Returns-net_buffer_frame :
      (h : Host) (e : List ℕ) → length e ≡ 256 → Returns n (net_buffer_frame n h e)
  unfolding net_buffer_frame
  Returns-net_buffer_frame h e whole =
      let i = rd_be16 e 36 - first_port in
      let port : has_port e ≡ true = ground arith in
      rw port (
        Returns-if n (in_ports (rd_be16 e 36) && wants e (get_elem? h.socks i)) _ _
          (Returns-buffer_for h e i (get_elem? h.socks i) whole) (λ net. (_, refl)))

  Returns-poll_frame :
      (h : Host) (port i limit : ℕ) (next : Host → Run n (Reply × Host)) (got : Option (List ℕ))
      → ((e : List ℕ) → got ≡ some e → length e ≡ 256)
      → ((h : Host) → Returns n (next h))
      → Returns n (poll_frame n h port i limit next got)
  Returns-poll_frame h port i limit next none whole hn = λ net. (_, refl)
  Returns-poll_frame h port i limit next (some e) whole hn =
      Returns-bind n (net_buffer_frame n h e) _ (Returns-net_buffer_frame h e (whole e refl))
        λ buffered.
          Returns-if n (rd_be16 e 36 == port && is_for buffered.0 i) _ _ (λ net. (_, refl))
            (hn buffered.1)

  Returns-poll : (attempts port i limit : ℕ) (h : Host) → Returns n (poll n attempts port i limit h)
  unfolding poll
  Returns-poll zero port i limit h = λ net. (_, refl)
  Returns-poll (suc attempts) port i limit h =
      Returns-bind n (arm n) _ (λ net. (_, refl))
        λ armed. Returns-wait 256 _ λ got whole.
          Returns-poll_frame h port i limit _ got whole (Returns-poll attempts port i limit)

  Returns-gather_frame :
      (h : Host) (next : ℕ → Host → Run n (Reply × Host)) (got : Option (List ℕ))
      → ((e : List ℕ) → got ≡ some e → length e ≡ 256)
      → ((mask : ℕ) (h : Host) → Returns n (next mask h))
      → Returns n (gather_frame n h next got)
  Returns-gather_frame h next none whole hn = λ net. (_, refl)
  Returns-gather_frame h next (some e) whole hn =
      Returns-bind n (net_buffer_frame n h e) _ (Returns-net_buffer_frame h e (whole e refl))
        λ buffered. hn (mask_of buffered.0) buffered.1

  pub Returns-gather : (attempts mask : ℕ) (h : Host) → Returns n (gather n attempts mask h)
  unfolding gather
  Returns-gather zero mask h = λ net. (_, refl)
  Returns-gather (suc attempts) mask h =
      Returns-if n (mask == 0) _ _
        (Returns-bind n (arm n) _ (λ net. (_, refl))
          λ armed.
            Returns-wait 256 _
              λ got whole. Returns-gather_frame h _ got whole (Returns-gather attempts))
        (λ net. (_, refl))

  pub Returns-recv_for :
      (h : Host) (i limit : ℕ) (s : Option Socket) → Returns n (recv_for n h i limit s)
  Returns-recv_for h i limit none = λ net. (_, refl)
  Returns-recv_for h i limit (some s) =
      Returns-if n (s.tcp.active && s.have_shm) _ _
        (Returns-if n s.pending _ _ (λ net. (_, refl)) (Returns-poll 6 s.tcp.sport i limit h))
        (λ net. (_, refl))
