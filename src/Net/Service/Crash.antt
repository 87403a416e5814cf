-- ===== src/Net/Service/Crash.antt =====
-- The one request that makes the service host of Xernel/userland/init/src/main.rs panic.
use xernel.Net.Service.Returns.{
  FillsBuffers, Returns-gather, Returns-close_for, Returns-recv_for, Returns-connect_for, Returns,
  Returns-bind, Returns-short,
}
use xernel.Prelude.{
  length-take, ◌≤◌, ◌==◌, if◌then◌else◌, ==→eq, ℕ, ◌≡◌, refl, ◌↔◌, Bool, true, false, ltb, ltb→lt,
  Bool-cases, length, get_elem?, take, ◌+◌, ◌<◌, inl, inr, Option, none, some, arith,
}
use xernel.Net.{Nic, Run, tcp_psh, tcp_ack}
use xernel.Net.Service.{
  op_readfile, op_net_connect, op_net_send, op_net_recv, op_net_close, op_net_get_frame,
  op_net_get_ready, page_bytes, Host, Reply, Socket,
}
use xernel.Net.Service.Requests.{
  ready_mask, on_connect, on_send, on_recv, on_close, gather, sent_on, send_for, can_send,
}
use xernel.Net.Service.Dispatch.{Service, panics, sock_of, rest_of, networked, serve_op, read_file}
use xernel.Fs.{Disk}
use xernel.Net.Segment.{send_on}

-- Every shared page has its 4096 bytes.
abbrev pub WholePages : Host → Type 0
WholePages h = (i : ℕ) (s : Socket) → get_elem? h.socks i ≡ some s → length s.page ≡ page_bytes

-- A send to socket `i`, connected and with a page, of more bytes than the buffer of a frame has room
-- for, and of no more than a page.
abbrev pub Overlong : Host → ℕ → ℕ → Type 0
Overlong h i len =
    (s : Socket) × (get_elem? h.socks i ≡ some s)
    × (s.tcp.active ≡ true)
    × (s.have_shm ≡ true)
    × (64 < len)
    × (len ≤ 4096)

can_send_iff :
    (s : Socket) (len : ℕ)
    → (can_send s len ≡ true) ↔ ((s.tcp.active ≡ true) × (s.have_shm ≡ true) × (len ≤ 4096))
can_send_iff s len = (λ h. ground arith, λ (active, shared, le). ground arith)

module _ (n : Nic) where
  Returns-sent_on :
      (h : Host) (i : ℕ) (s : Socket) (len : ℕ) (sent : Bool) → Returns n (sent_on n h i s len sent)
  Returns-sent_on h i s len true = λ net. (_, refl)
  Returns-sent_on h i s len false = λ net. (_, refl)

  pub send_for-none :
      (h : Host) (i len : ℕ) (o : Option Socket) (net : n.Net)
      → send_for n h i len o net ≡ none
      → (s : Socket) × (o ≡ some s) × (can_send s len ≡ true) × (64 < length (take len s.page))
  send_for-none h i len none net e = absurd (cc)
  send_for-none h i len (some s) net e = elim (Bool-cases (can_send s len)) [
    | inr cannot ↦ absurd (cc (rw cannot at e))
    | inl can ↦ elim (Bool-cases (ltb 64 (length (take len s.page)))) [
      | inl long ↦ (s, refl, can, ltb→lt _ _ long)
      | inr short ↦
          let (r, f) =
            Returns-bind n (send_on n s.tcp (tcp_psh + tcp_ack) (take len s.page))
              (sent_on n h i s len)
              (Returns-short n s.tcp (tcp_psh + tcp_ack) (take len s.page) short)
              (Returns-sent_on h i s len) net in
          absurd (cc (rw (can, f) at e))
    ]
  ]

  pub on_send-panics :
      (h : Host) (i len : ℕ) (net : n.Net)
      → WholePages h
      → Overlong h i len
      → on_send n h i len net ≡ none
  unfolding on_send
  on_send-panics h i len net pages (s, e, active, shared, long, le) =
      let page = pages i s e in
      let can = (can_send_iff s len).1 (active, shared, le) in
      let over : ltb 64 (length (take len s.page)) ≡ true =
        ground (arith, length-take len s.page) in
      rw e (rw (can, over) refl)

module _ (d : Disk) (n : Nic) where
  pub networked-Returns :
      (s : Service d n) (m : Run n (Reply × Host))
      → Returns n m
      → ¬ (networked d n s (m s.net) ≡ panics)
  networked-Returns s m h e = let (r, f) = h s.net in cc (rw f at e)

  pub read_file-replies :
      (s : Service d n) (arg : ℕ) (o : Option Socket) → ¬ (read_file d n s arg o ≡ panics)
  read_file-replies s arg none e = cc
  read_file-replies s arg (some k) e = elim (Bool-cases k.have_shm) [
    | inl shared ↦ cc (rw shared at e)
    | inr unshared ↦ cc (rw unshared at e)
  ]

  pub networked-none :
      (s : Service d n) (o : Option ((Reply × Host) × n.Net))
      → networked d n s o ≡ panics
      → o ≡ none
  networked-none s none e = refl
  networked-none s (some r) e = absurd (cc)

-- Reading an `if` that is equal to `p`.
branch :
    {A G : Type 0} (b : Bool) {x y p : A}
    → (b ≡ true → x ≡ p → G)
    → (y ≡ p → G)
    → (if b then x else y) ≡ p
    → G
branch true f g e = f refl e
branch false f g e = g e

skip :
    {A G : Type 0} (b : Bool) {x y p : A} → ¬ (x ≡ p) → (y ≡ p → G) → (if b then x else y) ≡ p → G
skip b f g = branch b (λ t e. absurd (f e)) g

-- The service host panics on a request exactly if that is a send on a connected socket with a
-- shared page, of more than the 64 bytes for which the buffer of a frame has room, and of no more
-- than the 4096 of the page. On every other request it replies or stops. The panics modelled are
-- the ones of the buffer of a frame in `net_tcp_send` and of the indexes and slices of
-- `net_buffer_frame`. The card fills the buffer that it is given or times out, and a shared page has
-- 4096 bytes.
pub serve_op-panics :
    (d : Disk) (n : Nic) (s : Service d n) (op arg : ℕ)
    → FillsBuffers n
    → WholePages s.host
    → (serve_op d n s op arg ≡ panics)
      ↔ ((op ≡ op_net_send) × Overlong s.host (sock_of arg) (rest_of arg))
unfolding serve_op on_connect on_send on_recv on_close
serve_op-panics d n s op arg fills pages = (forth, back)
  where
    h : Host
    h = s.host

    i : ℕ
    i = sock_of arg

    a : ℕ
    a = rest_of arg

    overlong :
        (t : Socket) × (get_elem? h.socks i ≡ some t)
          × (can_send t a ≡ true)
          × (64 < length (take a t.page))
        → Overlong h i a
    overlong (t, e, can, long) =
        let (active, shared, le) = (can_send_iff t a).0 can in
        (t, e, active, shared, omega (arith, length-take a t.page), le)

    back : (op ≡ op_net_send) × Overlong h i a → serve_op d n s op arg ≡ panics
    back (e, long) = rw (e, on_send-panics n h i a s.net pages long) refl

    net_returns : (m : Run n (Reply × Host)) → Returns n m → ¬ (networked d n s (m s.net) ≡ panics)
    net_returns m returns = networked-Returns d n s m returns

    forth : serve_op d n s op arg ≡ panics → (op ≡ op_net_send) × Overlong h i a
    forth = skip (op == op_readfile) (read_file-replies d n s arg _) (
        skip (op == op_net_connect)
          (net_returns (on_connect n h i a) (Returns-connect_for n h i a _))
          (branch (op == op_net_send)
            (λ is_send e. (
              ==→eq op op_net_send is_send,
              overlong (send_for-none n h i a _ s.net (networked-none d n s _ e)),
            ))
            (skip (op == op_net_recv)
              (net_returns (on_recv n h i a) (Returns-recv_for n fills h i a _))
              (skip (op == op_net_close) (net_returns (on_close n h i) (Returns-close_for n h i _))
                (skip (op == op_net_get_frame) (λ e. cc)
                  (skip (op == op_net_get_ready)
                    (net_returns (gather n 6 (ready_mask 0 h.socks) h)
                      (Returns-gather n fills 6 _ h))
                    (λ e. absurd (cc))))))))
