-- ===== src/Fs/Serve.antt =====
-- The requests that the file service of Xernel/userland/init/src/main.rs answers, the catalogue, and
-- the setting up of the disk.
use xernel.Prelude.{
  ltb, leb, ◌==◌, if◌then◌else◌, length, u64_max, octet, slice, ℕ, zero, suc, ◌+◌, ◌*◌, ◌/◌, ◌%◌,
  ◌&&◌, ◌||◌, Option, none, some, List, [], ◌∷◌,
}
use xernel.Fs.{
  Disk, dir_sector, dir_entries, ent_size, name_len, rd_u32, zeros, Io, read_sector, return, bind,
  fs_format, fs_create,
}
use xernel.Fs.Read.{fs_read, entry_name, no_entry}

abbrev pub op_nfiles : ℕ
op_nfiles = 1

abbrev pub op_fsize : ℕ
op_fsize = 2

abbrev pub op_namech : ℕ
op_namech = 3

abbrev pub op_datach : ℕ
op_datach = 4

-- The non-empty entries, from `i` on.
unfoldable pub count_files : List ℕ → ℕ → ℕ → ℕ
count_files dir i zero = 0
count_files dir i (suc left) =
    let rest = count_files dir (suc i) left in
    if octet dir (i * ent_size) == 0 then rest else suc rest

-- The name of an entry as it is printed: up to the first zero.
unfoldable pub printed_name : List ℕ → List ℕ
printed_name [] = []
printed_name (c ∷ name) = let rest = printed_name name in if c == 0 then [] else c ∷ rest

-- What `fs_list` prints of the entries from `i` on: the names, with the sizes.
unfoldable pub list_entries : List ℕ → ℕ → ℕ → List (List ℕ × ℕ)
unfolding printed_name rd_u32
list_entries dir i zero = []
list_entries dir i (suc left) =
    let base = i * ent_size in
    let rest = list_entries dir (suc i) left in
    if octet dir base == 0
    then rest
    else (printed_name (slice dir base name_len), rd_u32 dir (base + 24)) ∷ rest

abbrev file_size : List ℕ → ℕ → ℕ
file_size dir i = if no_entry dir i then u64_max else rd_u32 dir (i * ent_size + 24)

abbrev name_char : List ℕ → ℕ → ℕ → ℕ
name_char dir i pos =
    if no_entry dir i || leb name_len pos then 0 else octet dir (i * ent_size + pos)

abbrev data_char : ℕ → Option ℕ × List ℕ → ℕ
data_char off (none, buf) = 0
data_char off (some size, buf) = if ltb off size && ltb off (length buf) then octet buf off else 0

module _ (d : Disk) where
  abbrev data_byte : List ℕ → ℕ → ℕ → d.Blk → ℕ × d.Blk
  data_byte dir i off b =
      if no_entry dir i
      then (0, b)
      else let (got, b') = fs_read d (entry_name dir i) zeros b in (data_char off got, b')

  abbrev serve : ℕ → ℕ → Option (List ℕ) × d.Blk → ℕ × d.Blk
  serve op arg (none, b) = (u64_max, b)
  serve op arg (some dir, b) =
      if op == op_nfiles
      then (count_files dir 0 dir_entries, b)
      else if op == op_fsize
      then (file_size dir arg, b)
      else if op == op_namech
      then (name_char dir (arg / 256) (arg % 256), b)
      else if op == op_datach
      then data_byte dir (arg / 65536) (arg % 65536) b
      else (u64_max, b)

  unfoldable pub serve_one : ℕ → ℕ → d.Blk → ℕ × d.Blk
  unfolding fs_read count_files
  serve_one op arg b = serve op arg (read_sector d dir_sector b)

  unfoldable pub fs_list : Io d (List (List ℕ × ℕ))
  unfolding list_entries
  fs_list = bind d (read_sector d dir_sector) λ dir. return d (list_entries dir 0 dir_entries)

-- "hallo.txt" and "Hallo von XernelFS!", "readme" and "Xernel filesystem v1 - flach, 16 Dateien."
abbrev pub hallo_name : List ℕ
hallo_name = 104 ∷ 97 ∷ 108 ∷ 108 ∷ 111 ∷ 46 ∷ 116 ∷ 120 ∷ 116 ∷ []

abbrev pub hallo_text : List ℕ
hallo_text =
    72 ∷ 97 ∷ 108 ∷ 108 ∷ 111 ∷ 32 ∷ 118 ∷ 111 ∷ 110 ∷ 32 ∷ 88 ∷ 101 ∷ 114 ∷ 110 ∷ 101 ∷ 108 ∷ 70
    ∷ 83 ∷ 33 ∷ []

abbrev pub readme_name : List ℕ
readme_name = 114 ∷ 101 ∷ 97 ∷ 100 ∷ 109 ∷ 101 ∷ []

abbrev pub readme_text : List ℕ
readme_text =
    88 ∷ 101 ∷ 114 ∷ 110 ∷ 101 ∷ 108 ∷ 32 ∷ 102 ∷ 105 ∷ 108 ∷ 101 ∷ 115 ∷ 121 ∷ 115 ∷ 116 ∷ 101
    ∷ 109 ∷ 32 ∷ 118 ∷ 49 ∷ 32 ∷ 45 ∷ 32 ∷ 102 ∷ 108 ∷ 97 ∷ 99 ∷ 104 ∷ 44 ∷ 32 ∷ 49 ∷ 54 ∷ 32 ∷ 68
    ∷ 97 ∷ 116 ∷ 101 ∷ 105 ∷ 101 ∷ 110 ∷ 46 ∷ []

module _ (d : Disk) where
  -- The catalogue is only printed: that reading it fails changes nothing.
  abbrev listed : Option (List (List ℕ × ℕ)) × d.Blk → Option (Unit {0}) × d.Blk
  listed (catalogue, b) = (some tt, b)

  unfoldable pub fs_setup : Io d (Unit {0})
  unfolding fs_format fs_create fs_list
  fs_setup = bind d (fs_format d) λ formatted.
      bind d (fs_create d hallo_name hallo_text)
        λ hallo. bind d (fs_create d readme_name readme_text) λ readme b. listed (fs_list d b)
