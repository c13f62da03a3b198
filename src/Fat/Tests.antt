-- ===== src/Fat/Tests.antt =====
-- The theorems on FAT32 at a file of two clusters, and at a disk with a partition of another system.
use vv4os.Base.{
  zero, suc, ℕ, ◌+◌, ◌%◌, ◌≤◌, ◌≡◌, refl, ◌≢◌, none, some, [], ◌==◌, if◌then◌else◌, arith,
}
use vv4os.File.{fd_type_file}
use vv4os.Disk.{
  Bytes, Media, store_bytes, word_16, word_32, partition_table, sector_or, partition_read_sector,
  get_partition_entry,
}
use vv4os.Fat.{
  FatVolumeInternalData, FatFile, Reader, boot_record, next_cluster, leading_of, fat32_read_op,
}
use vv4os.Fat.Clusters.{IsVolume, nth_cluster, file_byte}
use vv4os.Fat.Read.{HasRange}
use vv4os.Fat.Op.{fat32_read_op-file}
use vv4os.Fat.Mount.{fat_mount_volume, mount_disk}
use vv4os.Fat.Volumes.{mount_disk-fault}

abbrev blank : Bytes
blank o = 0

-- Cluster 3 is followed by cluster 4.
abbrev sector : ℕ → Bytes
sector n o = if n == 32 then (if o == 12 then 4 else 0) else (n + o) % 256

abbrev reader : Reader
reader n = some (sector n)

abbrev volume : FatVolumeInternalData
volume = record {
  br = record {
    bytes_per_sector = 512;
    sectors_per_cluster = 2;
    reserved_sectors = 32;
    fats = 2;
    fat16_signature = 0;
    sectors_per_fat = 8;
    root_cluster_number = 2;
    fat32_signature = 0x29;
    boot_signature = 0xAA55;
  };
  first_data_sector = 48;
  bytes_per_cluster = 1024;
}

volume-IsVolume : IsVolume volume
volume-IsVolume = record {
  sector_size = refl;
  some_sectors = omega arith;
  few_sectors = omega arith;
  cluster_size = refl;
}

abbrev file : FatFile
file = record { seek = 100; size = 1800; kind = fd_type_file; first_cluster = 3 }

leading : leading_of volume 100 ≤ 1500
unfolding leading_of
leading = omega arith

two_clusters : HasRange reader blank sector volume volume-IsVolume 3 0 1600
unfolding nth_cluster next_cluster sector_or word_32 word_16
two_clusters zero lo hi = (λ e. omega (arith, e), λ i h. refl)
two_clusters (suc zero) lo hi = (λ e. omega (arith, e), λ i h. refl)
two_clusters (suc (suc k)) lo hi = absurd (omega (arith, hi))

fat32_read_op-file_example : fat32_read_op reader blank volume file 1500 0x9000 blank ≡ (
  1500,
  record file { seek = 100 + 1500 },
  store_bytes blank 0x9000 1500 (λ j. file_byte reader blank sector volume 3 (100 + j)),
)
fat32_read_op-file_example =
    fat32_read_op-file reader blank sector volume file 1500 0x9000 blank volume-IsVolume refl
      (omega arith) (omega arith) (omega arith) leading two_clusters

-- A boot record of FAT32 at sector 64, where the first partition starts; the second partition starts
-- at sector 128, where there is none.
abbrev boot : Bytes
boot o =
    if o == 12
    then 2
    else if o == 13
    then 1
    else if o == 14
    then 32
    else if o == 44
    then 2
    else if o == 66
    then 0x29
    else if o == 510
    then 0x55
    else if o == 511
    then 0xAA
    else 0

abbrev table : Bytes
table o =
    if o == 454
    then 64
    else if o == 458
    then 100
    else if o == 470
    then 128
    else if o == 474
    then 100
    else 0

abbrev disk : Media
disk n = if n == 0 then some table else if n == 64 then some boot else some blank

second_partition :
    ((partition_table (sector_or blank (disk 0)) 1).lba_length ≢ 0)
    × (fat_mount_volume blank 7 8 disk 1 ≡ some none)
unfolding fat_mount_volume boot_record sector_or partition_read_sector get_partition_entry
    partition_table word_32 word_16
second_partition = (λ e. omega (arith, e), refl)

mount_disk-fault_example : mount_disk blank 7 8 disk [] ≡ none
mount_disk-fault_example =
    mount_disk-fault blank 7 8 disk 1 [] (omega arith) second_partition.0 second_partition.1
