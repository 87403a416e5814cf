-- ===== src/Elf.antt =====
-- Xernel/kernel/src/elf.rs: the loader of ELF images, up to the list of segments. The image is a
-- list of bytes. `Pages` has the first pass over the segments, `Load` the other two.
pub mod Pages
pub mod Load
pub mod Entries
pub mod Rounds
pub mod Union
mod Tests
use xernel.Prelude.{
  if◌then◌else◌, ltb, leb, ◌==◌, length, add64, mul64, test_bit, from_le_bytes, octet, slice, ℕ,
  zero, suc, Bool, ◌&&◌, not, Option, none, some, List, [], ◌∷◌,
}

abbrev pub pt_load : ℕ
pt_load = 1

pub data ElfError : Type 0 where
  too_small bad_magic not_elf64_le no_frame map_failed malformed : ElfError

pub data LoadResult {ℓ} (A : Type ℓ) : Type ℓ where
  loads : A → LoadResult A
  fails : ElfError → LoadResult A

infixl 5 ◌>>=◌
abbrev pub ◌>>=◌ {ℓ κ} :
    {A : Type ℓ} {B : Type κ} → LoadResult A → (A → LoadResult B) → LoadResult B
loads a >>= f = f a
fails e >>= f = fails e

-- `ok_or(ElfError::Malformed)`.
abbrev pub or_malformed {ℓ} : {A : Type ℓ} → Option A → LoadResult A
or_malformed none = fails malformed
or_malformed (some a) = loads a

-- `b.get(off..off + n)`.
abbrev pub get_range : List ℕ → ℕ → ℕ → Option (List ℕ)
get_range b off n =
    let end = add64 off n in
    if leb off end && leb end (length b) then some (slice b off n) else none

abbrev number : Option (List ℕ) → Option ℕ
number none = none
number (some bytes) = some (from_le_bytes bytes)

unfoldable pub rd_u16 : List ℕ → ℕ → Option ℕ
rd_u16 b off = number (get_range b off 2)

unfoldable pub rd_u32 : List ℕ → ℕ → Option ℕ
rd_u32 b off = number (get_range b off 4)

unfoldable pub rd_u64 : List ℕ → ℕ → Option ℕ
rd_u64 b off = number (get_range b off 8)

pub record Segment : Type 0 where
  pub offset : ℕ
  pub vaddr : ℕ
  pub filesz : ℕ
  pub memsz : ℕ
  pub writable : Bool
  pub executable : Bool

-- A program header whose type is `PT_LOAD`; `PF_X` is bit 0 of its flags and `PF_W` bit 1.
unfoldable pub read_segment : List ℕ → ℕ → LoadResult Segment
read_segment image ph = do
  p_flags ← or_malformed (rd_u32 image (add64 ph 4))
  offset ← or_malformed (rd_u64 image (add64 ph 8))
  vaddr ← or_malformed (rd_u64 image (add64 ph 16))
  filesz ← or_malformed (rd_u64 image (add64 ph 32))
  memsz ← or_malformed (rd_u64 image (add64 ph 40))
  loads (record {
    offset = offset;
    vaddr = vaddr;
    filesz = filesz;
    memsz = memsz;
    writable = test_bit 1 p_flags;
    executable = test_bit 0 p_flags;
  })

abbrev pub prepend : LoadResult Segment → LoadResult (List Segment) → LoadResult (List Segment)
prepend (fails e) rest = fails e
prepend (loads seg) rest = do segments ← rest; loads (seg ∷ segments)

-- The loop over the program headers from `i` on, with the headers left.
unfoldable pub collect : List ℕ → ℕ → ℕ → ℕ → ℕ → LoadResult (List Segment)
unfolding read_segment
collect image phoff phentsize i zero = loads []
collect image phoff phentsize i (suc left) =
    let ph = add64 phoff (mul64 i phentsize) in
    let rest = collect image phoff phentsize (suc i) left in
    or_malformed (rd_u32 image ph) >>= λ ty.
    if ty == pt_load then prepend (read_segment image ph) rest else rest

abbrev magic_ok : List ℕ → Bool
magic_ok image =
    octet image 0 == 0x7f && octet image 1 == 0x45 && octet image 2 == 0x4c && octet image 3 == 0x46

abbrev class_ok : List ℕ → Bool
class_ok image = octet image 4 == 2 && octet image 5 == 1

-- The tests at the start of `load`.
unfoldable pub check_ident : List ℕ → LoadResult (Unit {0})
check_ident image =
    if ltb (length image) 64
    then fails too_small
    else if not (magic_ok image)
    then fails bad_magic
    else if not (class_ok image)
    then fails not_elf64_le
    else loads tt

-- What `load` reads before its passes: the entry point and the segments.
unfoldable pub parse : List ℕ → LoadResult (ℕ × List Segment)
unfolding check_ident collect
parse image = do
  fine ← check_ident image
  entry ← or_malformed (rd_u64 image 24)
  phoff ← or_malformed (rd_u64 image 32)
  phentsize ← or_malformed (rd_u16 image 54)
  phnum ← or_malformed (rd_u16 image 56)
  segments ← collect image phoff phentsize 0 phnum
  loads (entry, segments)
