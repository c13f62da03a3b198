-- ===== src/Fat/Names.antt =====
-- The search of a FAT32 directory by `Fat32TraverseOp`. The name of an entry is put together in a
-- buffer of the memory in which the wanted name stands.
use vv4os.Base.{
  ℕ, zero, suc, ◌+◌, ◌*◌, ◌/◌, ◌^◌, bit_and, bit_or, Bool, true, false, Option, none, some, ◌==◌,
  if◌then◌else◌, u8,
}
use vv4os.Strings.{Memory, store_byte, strcasecmp}
use vv4os.File.{FileType, fd_type_file, fd_type_directory, fd_type_tty}
use vv4os.Disk.{Bytes, store_bytes, word_16, word_32}
use vv4os.Fat.{
  FatVolumeInternalData, FatFile, Reader, fat32_read_cluster, next_cluster, invalid_cluster,
}

abbrev pub fat_attr_directory : ℕ
fat_attr_directory = 0x10

abbrev pub fat_attr_lfn : ℕ
fat_attr_lfn = 0x0F

-- A `FatDirectoryEntry` of a file with a short name
pub record DirectoryEntry : Type 0 where
  pub attr : ℕ
  pub cluster_number_high : ℕ
  pub cluster_number_low : ℕ
  pub size : ℕ

unfoldable pub read_directory_entry : Bytes → ℕ → DirectoryEntry
read_directory_entry b o = record {
  attr = b (o + 11);
  cluster_number_high = word_16 b (o + 20);
  cluster_number_low = word_16 b (o + 26);
  size = word_32 b (o + 28);
}

unfoldable pub gen_file_descriptor : DirectoryEntry → FatFile
gen_file_descriptor entry =
    let is_directory = bit_and entry.attr fat_attr_directory in
    record {
      seek = 0;
      size = if is_directory == 0 then entry.size else 0;
      kind = if is_directory == 0 then fd_type_file else fd_type_directory;
      first_cluster = bit_or (entry.cluster_number_high * 2 ^ 16) entry.cluster_number_low;
    }

-- The memory and where the next character of the name goes.
pub record Name : Type 0 where
  pub memory : Memory
  pub seek : ℕ

-- A loop over `n` characters of a long name from offset `o` on; whether the name has ended
unfoldable pub lfn_loop : Bytes → (n o : ℕ) → Name → (end_seen : Bool) → Name × Bool
lfn_loop b zero o name end_seen = (name, end_seen)
lfn_loop b (suc n) o name end_seen =
    let c = word_16 b o in
    let rest =
      lfn_loop b n (o + 2)
        (record { memory = store_byte name.memory name.seek (u8 c); seek = name.seek + 1 })
        (c == 0) in
    if end_seen then (name, true) else rest

unfoldable pub add_lfn : Bytes → (o : ℕ) → Name → Name
add_lfn b o name =
    let (name1, end1) = lfn_loop b 5 (o + 1) name false in
    let (name2, end2) = lfn_loop b 6 (o + 14) name1 end1 in
    let (name3, end3) = lfn_loop b 2 (o + 28) name2 end2 in name3

-- The loops that leave out the blanks at the end of `n` characters: how many are left
unfoldable pub trimmed : Bytes → (o n : ℕ) → ℕ
trimmed b o zero = 0
trimmed b o (suc n) = let rest = trimmed b o n in if b (o + n) == 0x20 then rest else suc n

-- The name of an entry that has a short name only, from `buf` on
unfoldable pub short_name : Bytes → (o buf : ℕ) → Memory → Memory
short_name b o buf m =
    let len = trimmed b o 8 in
    let ext = trimmed b (o + 8) 3 in
    let m1 = store_bytes m buf len (λ j. b (o + j)) in
    if ext == 0
    then store_byte m1 (buf + len) 0
    else store_byte
        (store_bytes (store_byte m1 (buf + len) 0x2E) (buf + len + 1) ext (λ j. b (o + 8 + j)))
        (buf + len + 1 + ext) 0

-- What the search of one cluster comes to: the directory ends, an entry has the name, or neither;
-- `endless` where a comparison has not ended within its fuel.
pub data Scan : Type 0 where
  ended : Scan
  hit : FatFile → Scan
  more : Name → Scan
  endless : Scan

-- The comparison of an entry's name, which is complete
unfoldable pub compare_entry : (fuel : ℕ) → Bytes → (o buf name : ℕ) → Memory → Scan → Scan
compare_entry fuel b o buf name m rest = elim (strcasecmp fuel m buf name) [
  | none ↦ endless
  | some d ↦ if d == 0 then hit (gen_file_descriptor (read_directory_entry b o)) else rest
]

-- The loop over `n` entries from offset `o` of the cluster on
unfoldable pub scan_loop : (fuel : ℕ) → Bytes → (n o buf name : ℕ) → Name → Scan
scan_loop fuel b zero o buf name text = more text
scan_loop fuel b (suc n) o buf name text =
    let from = λ (t : Name). scan_loop fuel b n (o + 32) buf name t in
    let short = short_name b o buf text.memory in
    if b o == 0x00
    then ended
    else if b o == 0xE5
    then from (record text { seek = buf })
    else if b (o + 11) == fat_attr_lfn
    then from (add_lfn b o text)
    else if text.seek == buf
    then compare_entry fuel b o buf name short (from (record { memory = short; seek = buf }))
    else compare_entry fuel b o buf name text.memory (from (record text { seek = buf }))

-- The loop over the clusters of the directory, of which `block` holds the last one that was read;
-- nothing if it or a comparison has not ended within its fuel
unfoldable pub traverse_loop :
    Reader
    → (fresh : Bytes) → FatVolumeInternalData
    → (fuel chars cluster buf name : ℕ) → Bytes
    → Name
    → Option (Option FatFile)
traverse_loop read fresh v zero chars cluster buf name block text = none
traverse_loop read fresh v (suc fuel) chars cluster buf name block text =
    if cluster == invalid_cluster
    then some none
    else let (loaded, block') = fat32_read_cluster read v cluster 0 block in
      elim (scan_loop chars block' (v.bytes_per_cluster / 32) 0 buf name text) [
        | ended ↦ some none
        | hit file ↦ some (some file)
        | endless ↦ none
        | more text' ↦
            traverse_loop read fresh v fuel chars (next_cluster read fresh v cluster) buf name
              block' text'
      ]

unfoldable pub is_directory_type : FileType → Bool
is_directory_type fd_type_file = false
is_directory_type fd_type_directory = true
is_directory_type fd_type_tty = false

unfoldable pub fat32_traverse_op :
    Reader
    → (fresh : Bytes) → FatVolumeInternalData
    → (fuel chars : ℕ) → FatFile
    → (buf name : ℕ) → Memory
    → Option (Option FatFile)
fat32_traverse_op read fresh v fuel chars parent buf name m =
    if is_directory_type parent.kind
    then traverse_loop read fresh v fuel chars parent.first_cluster buf name fresh
        (record { memory = m; seek = buf })
    else some none
