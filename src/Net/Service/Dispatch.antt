-- ===== src/Net/Service/Dispatch.antt =====
-- The loop of `combined_service` of Xernel/userland/init/src/main.rs: what it does with one request.
use xernel.Prelude.{◌==◌, if◌then◌else◌, get_elem?, ℕ, ◌/◌, ◌%◌, ◌^◌, Option, none, some, List}
use xernel.Net.{Nic}
use xernel.Net.Service.{
  op_bye, op_readfile, op_net_connect, op_net_send, op_net_recv, op_net_close, op_net_get_frame,
  op_net_get_ready, shm_frame_slot, no_cap, Socket, Host, on_socket, Reply, refused,
}
use xernel.Net.Service.Requests.{
  on_get_frame, ready_mask, on_connect, on_send, on_recv, on_close, gather,
}
use xernel.Fs.{Disk}
use xernel.Fs.Read.{read_by_index}
use xernel.Fs.Serve.{serve_one}

-- The service between two requests: its tables and the two devices.
pub record Service (d : Disk) (n : Nic) : Type 0 where
  pub host : Host
  pub blk : d.Blk
  pub net : n.Net

-- After a request the service has replied, has stopped, or has panicked.
pub data Served (d : Disk) (n : Nic) : Type 0 where
  replies : Reply → Service d n → Served d n
  stops : Service d n → Served d n
  panics : Served d n

-- The socket and the rest of an argument.
abbrev pub sock_of : ℕ → ℕ
sock_of arg = arg / 2 ^ 52 % 16

abbrev pub rest_of : ℕ → ℕ
rest_of arg = arg % 2 ^ 52

module _ (d : Disk) (n : Nic) where
  abbrev pub networked : Service d n → Option ((Reply × Host) × n.Net) → Served d n
  networked s none = panics
  networked s (some ((reply, h), net)) = replies reply (record s { host = h; net = net })

  abbrev with_page : List ℕ → Socket → Socket
  with_page out s = record s { page = out }

  abbrev file_reply : Option ℕ → Reply
  file_reply none = refused
  file_reply (some size) = (size, shm_frame_slot)

  abbrev pub file_read : Service d n → (Option ℕ × List ℕ) × d.Blk → Served d n
  file_read s ((got, out), b) =
      replies (file_reply got) (record s { host = on_socket s.host 0 (with_page out); blk = b })

  abbrev pub read_file : Service d n → ℕ → Option Socket → Served d n
  read_file s arg none = replies refused s
  read_file s arg (some k) =
      if k.have_shm then file_read s (read_by_index d arg k.page s.blk) else replies refused s

  abbrev pub other : Service d n → ℕ × d.Blk → Served d n
  other s (word, b) = replies (word, no_cap) (record s { blk = b })

  -- The `match` on the operation.
  unfoldable pub serve_op : Service d n → ℕ → ℕ → Served d n
  unfolding read_by_index serve_one on_connect on_send on_recv on_close on_get_frame ready_mask
      gather
  serve_op s op arg =
      let h = s.host in
      let i = sock_of arg in
      let a = rest_of arg in
      if op == op_readfile
      then read_file s arg (get_elem? h.socks 0)
      else if op == op_net_connect
      then networked s (on_connect n h i a s.net)
      else if op == op_net_send
      then networked s (on_send n h i a s.net)
      else if op == op_net_recv
      then networked s (on_recv n h i a s.net)
      else if op == op_net_close
      then networked s (on_close n h i s.net)
      else if op == op_net_get_frame
      then replies (on_get_frame h i) s
      else if op == op_net_get_ready
      then networked s (gather n 6 (ready_mask 0 h.socks) h s.net)
      else other s (serve_one d op arg s.blk)

  -- A request received: the operation is in the top byte.
  unfoldable pub serve_request : Service d n → ℕ → Served d n
  unfolding serve_op
  serve_request s req =
      let op = req / 2 ^ 56 in if op == op_bye then stops s else serve_op s op (req % 2 ^ 56)
