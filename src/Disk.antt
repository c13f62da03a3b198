-- ===== src/Disk.antt =====
-- io/disk/disk.c: partitions of a disk and the bytes in them. What the driver of a disk does behind
-- `read_op` is a parameter: for each sector the 512 bytes that it stores, or nothing where it
-- returns `NULL`. Buffers are ranges of a memory of bytes, and do not wrap at its end.
pub mod Volumes
pub mod Flat
pub mod Lists
pub mod Partition
mod Tests
use vv4os.Base.{
  ℕ, zero, suc, ◌+◌, ◌-◌, ◌*◌, ◌/◌, ◌%◌, ◌^◌, Bool, true, false, Option, none, some, ◌&&◌, leb, ltb,
  ◌==◌, if◌then◌else◌, u32,
}
use vv4os.Base.Options.{◌>>=◌, ◌>>◌}
use vv4os.Strings.{Memory}

abbrev pub disk_sector_size : ℕ
disk_sector_size = 512

-- The bytes of a block, by their offset.
abbrev pub Bytes : Type 0
Bytes = ℕ → ℕ

abbrev pub Media : Type 0
Media = ℕ → Option Bytes

abbrev pub u64 : ℕ → ℕ
u64 n = n % 2 ^ 64

-- `memcpy` of `n` bytes to `buf`
unfoldable pub store_bytes : Memory → (buf n : ℕ) → Bytes → Memory
store_bytes m buf n bytes a = if leb buf a && ltb a (buf + n) then bytes (a - buf) else m a

unfoldable pub word_16 : Bytes → ℕ → ℕ
word_16 b o = b o + 2 ^ 8 * b (o + 1)

unfoldable pub word_32 : Bytes → ℕ → ℕ
word_32 b o = word_16 b o + 2 ^ 16 * word_16 b (o + 2)

pub record Chs : Type 0 where
  pub head : ℕ
  pub sector : ℕ
  pub cylinder : ℕ

pub record MbrPartitionEntry : Type 0 where
  pub active : ℕ
  pub start_chs : Chs
  pub system_id : ℕ
  pub end_chs : Chs
  pub start_lba : ℕ
  pub lba_length : ℕ

unfoldable pub chs : Bytes → ℕ → Chs
chs b o = record {
  head = b o;
  sector = word_16 b (o + 1) % 2 ^ 6;
  cylinder = word_16 b (o + 1) / 2 ^ 6;
}

-- `mbr->partition_table[partition]`
unfoldable pub partition_table : Bytes → ℕ → MbrPartitionEntry
partition_table b partition =
    let o = 446 + 16 * partition in
    record {
      active = b o;
      start_chs = chs b (o + 1);
      system_id = b (o + 4);
      end_chs = chs b (o + 5);
      start_lba = word_32 b (o + 8);
      lba_length = word_32 b (o + 12);
    }

-- What a block from `malloc` holds after the driver read a sector into it: if the driver failed,
-- what it held before, `fresh`.
unfoldable pub sector_or : (fresh : Bytes) → Option Bytes → Bytes
sector_or fresh none = fresh
sector_or fresh (some b) = b

unfoldable pub get_partition_entry :
    (fresh : Bytes) → Media → (partition : ℕ) → Option MbrPartitionEntry
get_partition_entry fresh disk partition =
    if ltb partition 4 then some (partition_table (sector_or fresh (disk 0)) partition) else none

-- The bytes of a sector of a partition, or nothing where the driver returns `NULL`
unfoldable pub partition_read_sector :
    (fresh : Bytes) → Media → (partition sector : ℕ) → Option (Option Bytes)
partition_read_sector fresh disk partition sector = do
  entry ← get_partition_entry fresh disk partition
  some (disk (u64 (entry.start_lba + sector)))

-- The loop of `PartitionRead` over whole sectors: whether they were all read, and the memory. `read`
-- is `PartitionReadSector` on the partition, and `i` is 32 bits wide.
unfoldable pub read_sectors_loop :
    (ℕ → Option (Option Bytes)) → (fuel i stop buf : ℕ) → Memory → Option (Bool × Memory)
read_sectors_loop read zero i stop buf m = none
read_sectors_loop read (suc fuel) i stop buf m =
    if ltb i stop
    then (do
      sector ← read i
      elim sector [
        | none ↦ some (false, m)
        | some b ↦
            read_sectors_loop read fuel (u32 (i + 1)) stop (buf + disk_sector_size)
              (store_bytes m buf disk_sector_size b)
      ])
    else some (true, m)

-- The last sector of `PartitionRead`, of which `length` bytes are wanted
unfoldable pub read_rest :
    (ℕ → Option (Option Bytes)) → (sector length buf ret : ℕ) → Memory → Option (ℕ × Memory)
read_rest read sector length buf ret m = do
  last ← read sector
  elim last [ none ↦ some (0, m) | some b ↦ some (ret, store_bytes m buf length b) ]

-- `PartitionRead` on the sectors that `read` gives; it returns a pointer and the memory, or nothing
-- if the loop has not ended within its fuel.
unfoldable pub read_range :
    (ℕ → Option (Option Bytes)) → (fuel addr length buf : ℕ) → Memory → Option (ℕ × Memory)
read_range read fuel addr length buf m =
    let padding = addr % disk_sector_size in
    let leading = disk_sector_size - padding in
    (do
      first ← read (addr / disk_sector_size)
      elim first [
        | none ↦ some (0, m)
        | some b ↦
            let m1 = store_bytes m buf leading (λ o. b (padding + o)) in
            let base = u64 (addr + leading) / disk_sector_size in
            let rest = u64 (length + 2 ^ 64 - leading) in
            let full_sectors = rest / disk_sector_size in
            (do
              whole ←
                  read_sectors_loop read fuel (u32 base) (u64 (base + full_sectors)) (buf + leading)
                    m1
              if whole.0
                  then read_rest read (u64 (base + full_sectors)) (rest % disk_sector_size)
                      (buf + leading + full_sectors * disk_sector_size) buf whole.1
                  else some (0, whole.1))
      ])

unfoldable pub partition_read :
    (fresh : Bytes) → Media → (fuel partition addr length buf : ℕ) → Memory → Option (ℕ × Memory)
partition_read fresh disk fuel partition addr length buf m =
    read_range (partition_read_sector fresh disk partition) fuel addr length buf m
