-- ===== src/Virtio/Decode.antt =====
-- What a virtio block device finds in the queue and the buffers of
-- Xernel/userland/init/src/main.rs: the request at the head of a chain of three descriptors.
use xernel.Prelude.{◌==◌, if◌then◌else◌, ℕ, ◌+◌, ◌*◌, ◌%◌, ◌^◌, Bool, ◌&&◌, Option, none, some}
use xernel.Virtio.{Memory, read16}
use xernel.Virtio.Queue.{Desc, read32, read64, read_desc}

-- A request of one sector: its type, the sector, where its data and its status are.
pub record Request : Type 0 where
  pub kind : ℕ
  pub sector : ℕ
  pub buffer : ℕ
  pub status_at : ℕ

-- The header is read by the device; the data are written by it if the request is a read, and read
-- by it if it is a write; the status is a byte that it writes. `seen` gives the address at which the
-- driver sees what is at a physical address.
abbrev pub well_formed : ℕ → Desc → Desc → Desc → Bool
well_formed kind d0 d1 d2 =
    (d0.len == 16 && d0.flags == 1)
    && ((d1.len == 512 && d1.flags == (if kind == 0 then 3 else 1))
        && (d2.len == 1 && d2.flags == 2))

abbrev pub request_of : (ℕ → ℕ) → Memory → Desc → Desc → Desc → Option Request
request_of seen m d0 d1 d2 =
    let kind = read32 m (seen d0.addr) in
    if well_formed kind d0 d1 d2
    then some (record {
      kind = kind;
      sector = read64 m (seen d0.addr + 8);
      buffer = seen d1.addr;
      status_at = seen d2.addr;
    })
    else none

-- The chain that begins with descriptor `head`.
abbrev pub chain : (ℕ → ℕ) → Memory → ℕ → ℕ → Option Request
chain seen m table head =
    let d0 = read_desc m table head in
    let d1 = read_desc m table d0.next in request_of seen m d0 d1 (read_desc m table d1.next)

-- The request that is new to a device that has taken `count` requests, in a queue of `n` entries
-- with its table of descriptors at `table`: the available ring is behind the table.
unfoldable pub decode : (ℕ → ℕ) → Memory → ℕ → ℕ → ℕ → Option Request
decode seen m table n count =
    let avail = table + 16 * n in
    if read16 m (avail + 2) == (count + 1) % 2 ^ 16
    then chain seen m table (read16 m (avail + 4 + 2 * (count % n)))
    else none
