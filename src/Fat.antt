-- ===== src/Fat.antt =====
-- io/disk/fs/fat.c: FAT32 volumes and the files in them. A volume is read through a function from
-- sectors of its partition to their bytes, or to nothing where `PartitionReadSector` returns `NULL`.
-- `fresh` is what a block from `malloc` holds at first.
pub mod Clusters
pub mod Read
pub mod Op
pub mod Names
pub mod Mount
pub mod Volumes
mod Tests
use vv4os.Base.{
  ℕ, zero, suc, ◌+◌, ◌-◌, ◌*◌, ◌/◌, ◌%◌, ◌^◌, bit_and, Bool, true, false, Option, none, some, ◌==◌,
  ltb, if◌then◌else◌, u32,
}
use vv4os.Strings.{Memory}
use vv4os.File.{FileType, fd_type_file, fd_type_directory, fd_type_tty}
use vv4os.Disk.{Bytes, Media, store_bytes, word_16, word_32, u64, sector_or}

-- The fields of a boot record that the driver reads.
pub record FatBootRecord : Type 0 where
  pub bytes_per_sector : ℕ
  pub sectors_per_cluster : ℕ
  pub reserved_sectors : ℕ
  pub fats : ℕ
  pub fat16_signature : ℕ
  pub sectors_per_fat : ℕ
  pub root_cluster_number : ℕ
  pub fat32_signature : ℕ
  pub boot_signature : ℕ

unfoldable pub boot_record : Bytes → FatBootRecord
boot_record b = record {
  bytes_per_sector = word_16 b 11;
  sectors_per_cluster = b 13;
  reserved_sectors = word_16 b 14;
  fats = b 16;
  fat16_signature = b 38;
  sectors_per_fat = word_32 b 36;
  root_cluster_number = word_32 b 44;
  fat32_signature = b 66;
  boot_signature = word_16 b 510;
}

pub record FatVolumeInternalData : Type 0 where
  pub br : FatBootRecord
  pub first_data_sector : ℕ
  pub bytes_per_cluster : ℕ

-- A file that is read: `size`, `type` and `seek` of its descriptor, and its first cluster.
pub record FatFile : Type 0 where
  pub seek : ℕ
  pub size : ℕ
  pub kind : FileType
  pub first_cluster : ℕ

abbrev pub Reader : Type 0
Reader = ℕ → Option Bytes

abbrev pub invalid_cluster : ℕ
invalid_cluster = 0

unfoldable pub first_sector : FatVolumeInternalData → ℕ → ℕ
first_sector v cluster =
    u32 (u32 (cluster + 2 ^ 32 - 2) * v.br.sectors_per_cluster + v.first_data_sector)

-- The loop of `Fat32ReadCluster` from sector `i` of the cluster on
unfoldable pub read_cluster_loop :
    Reader → FatVolumeInternalData → (first n i buf : ℕ) → Memory → Bool × Memory
read_cluster_loop read v first zero i buf m = (true, m)
read_cluster_loop read v first (suc n) i buf m = elim (read (u64 (first + i))) [
  | none ↦ (false, m)
  | some b ↦
      read_cluster_loop read v first n (i + 1) buf
        (store_bytes m (buf + i * v.br.bytes_per_sector) 512 b)
]

unfoldable pub fat32_read_cluster :
    Reader → FatVolumeInternalData → (cluster buf : ℕ) → Memory → Bool × Memory
fat32_read_cluster read v cluster buf m =
    read_cluster_loop read v (first_sector v cluster) v.br.sectors_per_cluster 0 buf m

unfoldable pub next_cluster : Reader → (fresh : Bytes) → FatVolumeInternalData → ℕ → ℕ
next_cluster read fresh v cluster =
    let entries_per_sector = v.br.bytes_per_sector / 4 in
    let fat = sector_or fresh (read (u32 (v.br.reserved_sectors + cluster / entries_per_sector))) in
    let value = bit_and (word_32 fat (4 * (cluster % entries_per_sector))) 0x0FFFFFFF in
    if ltb value 0x0FFFFFF8 then value else invalid_cluster

-- The loop of `Fat32ReadOp` that skips `n` clusters; nothing if the chain ends before
unfoldable pub skip_loop :
    Reader → (fresh : Bytes) → FatVolumeInternalData → (n cluster : ℕ) → Option ℕ
skip_loop read fresh v zero cluster = some cluster
skip_loop read fresh v (suc n) cluster =
    let next = next_cluster read fresh v cluster in
    let rest = skip_loop read fresh v n next in if next == invalid_cluster then none else rest

-- What `Fat32ReadOp` keeps while it reads.
pub record Progress : Type 0 where
  pub cluster : ℕ
  pub ret : ℕ
  pub buf : ℕ
  pub size : ℕ
  pub memory : Memory

-- The loop of `Fat32ReadOp` over `n` whole clusters; whether it read them all
unfoldable pub whole_loop :
    Reader → (fresh : Bytes) → FatVolumeInternalData → ℕ → Progress → Bool × Progress
whole_loop read fresh v zero p = (true, p)
whole_loop read fresh v (suc n) p =
    let (loaded, m) = fat32_read_cluster read v p.cluster p.buf p.memory in
    let rest = whole_loop read fresh v n (record {
      cluster = next_cluster read fresh v p.cluster;
      ret = u32 (p.ret + v.bytes_per_cluster);
      buf = p.buf + v.bytes_per_cluster;
      size = u32 (p.size + 2 ^ 32 - v.bytes_per_cluster);
      memory = m;
    }) in
    if p.cluster == invalid_cluster
    then (false, p)
    else if loaded
    then rest
    else (false, record p { memory = m })

-- The end of `Fat32ReadOp`: the last cluster, of which `size` bytes are wanted
unfoldable pub read_tail : Reader → (fresh : Bytes) → FatVolumeInternalData → Progress → ℕ × Memory
read_tail read fresh v p =
    let (loaded, block) = fat32_read_cluster read v p.cluster 0 fresh in
    if p.size == 0
    then (p.ret, p.memory)
    else if p.cluster == invalid_cluster
    then (p.ret, p.memory)
    else if loaded
    then (u32 (p.ret + p.size), store_bytes p.memory p.buf p.size block)
    else (p.ret, p.memory)

unfoldable pub read_whole_and_tail :
    Reader → (fresh : Bytes) → FatVolumeInternalData → Progress → ℕ × Memory
read_whole_and_tail read fresh v p =
    let (complete, q) = whole_loop read fresh v (p.size / v.bytes_per_cluster) p in
    if complete then read_tail read fresh v q else (q.ret, q.memory)

unfoldable pub leading_of : FatVolumeInternalData → ℕ → ℕ
leading_of v seek = (v.bytes_per_cluster - seek % v.bytes_per_cluster) % v.bytes_per_cluster

-- `Fat32ReadOp` from `cluster` on: the number of bytes and the memory
unfoldable pub read_from :
    Reader
    → (fresh : Bytes) → FatVolumeInternalData
    → (cluster seek size buf : ℕ) → Memory
    → ℕ × Memory
read_from read fresh v cluster seek size buf m =
    let leading = leading_of v seek in
    let (loaded, block) = fat32_read_cluster read v cluster 0 fresh in
    if leading == 0
    then read_whole_and_tail read fresh v
        (record { cluster = cluster; ret = 0; buf = buf; size = size; memory = m })
    else if loaded
    then read_whole_and_tail read fresh v (record {
      cluster = next_cluster read fresh v cluster;
      ret = leading;
      buf = buf + leading;
      size = u32 (size + 2 ^ 32 - leading);
      memory = store_bytes m buf leading (λ o. block (v.bytes_per_cluster - leading + o));
    })
    else (0, m)

unfoldable pub is_file : FileType → Bool
is_file fd_type_file = true
is_file fd_type_directory = false
is_file fd_type_tty = false

-- `Fat32ReadOp`: the number of bytes, the file and the memory
unfoldable pub fat32_read_op :
    Reader
    → (fresh : Bytes) → FatVolumeInternalData
    → FatFile
    → (size buf : ℕ) → Memory
    → ℕ × FatFile × Memory
fat32_read_op read fresh v file size buf m =
    if is_file file.kind
    then elim (skip_loop read fresh v (u32 (file.seek / v.bytes_per_cluster)) file.first_cluster) [
      | none ↦ (0, file, m)
      | some cluster ↦
          let (ret, m') = read_from read fresh v cluster file.seek size buf m in
          (ret, record file { seek = u64 (file.seek + ret) }, m')
    ]
    else (0, file, m)
