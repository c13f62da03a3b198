-- ===== src/Fat/Mount.antt =====
-- `FatMountVolume`, and `AddDisks` of io/disk/disk.c, which mounts the partitions of new disks.
use vv4os.Base.{
  ℕ, zero, suc, ◌+◌, ◌*◌, Bool, Option, none, some, ◌||◌, ◌==◌, if◌then◌else◌, u32, List, ◌∷◌,
}
use vv4os.Base.Options.{◌>>=◌}
use vv4os.File.{fd_type_directory}
use vv4os.Disk.{Bytes, sector_or, Media, partition_read_sector, get_partition_entry}
use vv4os.Fat.{FatBootRecord, boot_record, FatVolumeInternalData, FatFile}

-- What mounting makes: the data of the volume and its root.
pub record Mounted : Type 0 where
  pub partition : ℕ
  pub internal : FatVolumeInternalData
  pub root : FatFile

unfoldable pub fat32_mount_volume :
    (partition : ℕ) → FatBootRecord → (size_junk seek_junk : ℕ) → Mounted
fat32_mount_volume partition br size_junk seek_junk = record {
  partition = partition;
  internal = record {
    br = br;
    first_data_sector = u32 (br.reserved_sectors + br.fats * br.sectors_per_fat);
    bytes_per_cluster = br.bytes_per_sector * br.sectors_per_cluster;
  };
  root = record {
    seek = seek_junk;
    size = size_junk;
    kind = fd_type_directory;
    first_cluster = br.root_cluster_number;
  };
}

abbrev pub has_signature : ℕ → Bool
has_signature s = (s == 0x28) || (s == 0x29)

-- Nothing is a failed assertion, and `some none` is `NULL`. The root's `seek` and `size` are not set,
-- and are what the block from `malloc` held.
unfoldable pub fat_mount_volume :
    (fresh : Bytes) → (size_junk seek_junk : ℕ) → Media → (partition : ℕ) → Option (Option Mounted)
fat_mount_volume fresh size_junk seek_junk disk partition = do
  sector ← partition_read_sector fresh disk partition 0
  let br = boot_record (sector_or fresh sector)
  some (
      if br.boot_signature == 0xAA55
      then (if has_signature br.fat16_signature
          then none
          else if has_signature br.fat32_signature
          then some (fat32_mount_volume partition br size_junk seek_junk)
          else none)
      else none)

-- The loop of `AddDisks` over `n` partitions of a disk from `partition` on, with the volumes mounted
-- before, newest first; nothing if it follows `NULL`
unfoldable pub mount_loop :
    (fresh : Bytes)
    → (size_junk seek_junk : ℕ) → Media
    → (n partition : ℕ) → List Mounted
    → Option (List Mounted)
mount_loop fresh size_junk seek_junk disk zero partition volumes = some volumes
mount_loop fresh size_junk seek_junk disk (suc n) partition volumes = do
  entry ← get_partition_entry fresh disk partition
  if entry.lba_length == 0
      then mount_loop fresh size_junk seek_junk disk n (partition + 1) volumes
      else do
        mounted ← fat_mount_volume fresh size_junk seek_junk disk partition
        volume ← mounted
        mount_loop fresh size_junk seek_junk disk n (partition + 1) (volume ∷ volumes)

unfoldable pub mount_disk :
    (fresh : Bytes) → (size_junk seek_junk : ℕ) → Media → List Mounted → Option (List Mounted)
mount_disk fresh size_junk seek_junk disk volumes =
    mount_loop fresh size_junk seek_junk disk 4 0 volumes
