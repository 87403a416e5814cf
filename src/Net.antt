-- ===== src/Net.antt =====
-- The network stack of Xernel/userland/init/src/main.rs. The virtio network device is a parameter: the
-- buffers it is armed with, and the frames that it takes and gives.
pub mod Checksum
pub mod Segment
pub mod Integrity
pub mod Connect
pub mod Service
mod Tests
use xernel.Prelude.{
  octet, ℕ, ◌+◌, ◌*◌, ◌/◌, ◌%◌, ◌^◌, Bool, true, false, Option, none, some, List, [], ◌∷◌,
}

-- `rx_wait` gives as many bytes as it is asked for, unless it times out; `tx` tells whether the
-- device took the frame.
pub record Nic : Type 1 where
  pub Net : Type 0
  pub mac : Net → List ℕ
  pub rx_arm : Net → Net
  pub rx_wait : Net → ℕ → Option (List ℕ) × Net
  pub tx : Net → List ℕ → Bool × Net

abbrev pub our_ip : List ℕ
our_ip = 10 ∷ 0 ∷ 2 ∷ 15 ∷ []

abbrev pub gw_ip : List ℕ
gw_ip = 10 ∷ 0 ∷ 2 ∷ 2 ∷ []

abbrev pub u32_mod : ℕ
u32_mod = 2 ^ 32

-- `u32` arithmetic of the release profile, which wraps.
abbrev pub add32 : ℕ → ℕ → ℕ
add32 a b = (a + b) % u32_mod

-- `to_be_bytes` of `u16` and `u32`, and `from_be_bytes` at an offset.
abbrev pub be16 : ℕ → List ℕ
be16 x = x / 256 % 256 ∷ x % 256 ∷ []

abbrev pub be32 : ℕ → List ℕ
be32 x = x / 2 ^ 24 % 256 ∷ x / 2 ^ 16 % 256 ∷ x / 256 % 256 ∷ x % 256 ∷ []

abbrev pub rd_be16 : List ℕ → ℕ → ℕ
rd_be16 b off = octet b off * 256 + octet b (off + 1)

abbrev pub rd_be32 : List ℕ → ℕ → ℕ
rd_be32 b off = rd_be16 b off * 65536 + rd_be16 b (off + 2)

abbrev pub tcp_fin : ℕ
tcp_fin = 0x01

abbrev pub tcp_syn : ℕ
tcp_syn = 0x02

abbrev pub tcp_psh : ℕ
tcp_psh = 0x08

abbrev pub tcp_ack : ℕ
tcp_ack = 0x10

pub record TcpState : Type 0 where
  pub dmac : List ℕ
  pub dip : List ℕ
  pub sport : ℕ
  pub dport : ℕ
  pub our_seq : ℕ
  pub their_ack : ℕ
  pub active : Bool

-- What a function that uses the device comes to: `none` when the program panics.
module _ (n : Nic) where
  abbrev pub Run : Type 0 → Type 0
  Run A = n.Net → Option (A × n.Net)

  abbrev and_then : {A B : Type 0} → (A → Run B) → Option (A × n.Net) → Option (B × n.Net)
  and_then f none = none
  and_then f (some (a, net)) = f a net

  abbrev pub bind : {A B : Type 0} → Run A → (A → Run B) → Run B
  bind m f net = and_then f (m net)

  abbrev pub return : {A : Type 0} → A → Run A
  return a net = some (a, net)

  abbrev pub arm : Run (Unit {0})
  arm net = some (tt, n.rx_arm net)

  abbrev pub wait : ℕ → Run (Option (List ℕ))
  wait len net = some (n.rx_wait net len)

  abbrev pub transmit : List ℕ → Run Bool
  transmit frame net = some (n.tx net frame)

  -- `f(..)` if the test holds, and otherwise the answer.
  abbrev pub when : {A : Type 0} → Bool → A → Run A → Run A
  when true other m = m
  when false other m = return other
