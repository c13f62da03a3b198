-- ===== src/Disk/Partition.antt =====
-- `PartitionRead` on the partitions of a master boot record.
use vv4os.Base.{ℕ, ◌+◌, ◌-◌, ◌/◌, ◌%◌, ◌^◌, ◌≤◌, ◌<◌, ◌≡◌, ◌∙◌, true, some, ltb, arith, ap}
use vv4os.Strings.{Memory}
use vv4os.Disk.{
  Bytes, Media, store_bytes, partition_table, sector_or, get_partition_entry, partition_read_sector,
  partition_read, u64,
}
use vv4os.Disk.Flat.{flat_from, read_range-flat}

abbrev pub start_of : (fresh : Bytes) → Media → ℕ → ℕ
start_of fresh disk partition = (partition_table (sector_or fresh (disk 0)) partition).start_lba

partition_read_sector-start :
    (fresh : Bytes) (disk : Media) (partition sector : ℕ)
    → partition < 4
    → start_of fresh disk partition + sector < 2 ^ 64
    → partition_read_sector fresh disk partition sector
      ≡ some (disk (start_of fresh disk partition + sector))
unfolding partition_read_sector get_partition_entry
partition_read_sector-start fresh disk partition sector known small =
    let e : ltb partition 4 ≡ true = ground arith in
    let exact : u64 (start_of fresh disk partition + sector)
        ≡ start_of fresh disk partition + sector =
      omega (arith, small) in
    rw e (ap (λ k. some (disk k)) exact)

-- For one of the four partitions, a range that reaches the end of the sector in which it starts, and
-- a driver that reads its sectors and the one that holds the byte after its end, `PartitionRead`
-- ends and returns the buffer. It then holds the bytes of the range, counted from the first sector
-- of the partition, and no byte outside it has changed.
pub partition_read-flat :
    (fresh : Bytes) (disk : Media) (sectors : ℕ → Bytes) (fuel partition addr length buf : ℕ)
    (m : Memory)
    → partition < 4
    → 512 - addr % 512 ≤ length
    → addr + length < 2 ^ 41
    → start_of fresh disk partition < 2 ^ 32
    → length / 512 < fuel
    → ((k : ℕ)
        → addr / 512 ≤ k
        → k ≤ (addr + length) / 512
        → disk (start_of fresh disk partition + k) ≡ some (sectors k))
    → partition_read fresh disk fuel partition addr length buf m
      ≡ some (buf, store_bytes m buf length (flat_from sectors addr))
unfolding partition_read
partition_read-flat fresh disk sectors fuel partition addr length buf m known long small start
      enough reads =
    read_range-flat (partition_read_sector fresh disk partition) sectors fuel addr length buf m long
      small enough
      (λ k lo hi.
        partition_read_sector-start fresh disk partition k known (omega (arith, start, small, hi))
        ∙ ap (λ b. some b) (reads k lo hi))
