-- ===== src/Disk/Tests.antt =====
-- The theorems on disks at a disk with one partition and two volumes.
use vv4os.Base.{ℕ, ◌+◌, ◌%◌, ◌≡◌, refl, ◌≢◌, none, some, [], ◌∷◌, ◌==◌, if◌then◌else◌, arith}
use vv4os.Disk.{
  Bytes, Media, store_bytes, partition_table, sector_or, word_16, word_32, partition_read,
}
use vv4os.Disk.Flat.{flat_from}
use vv4os.Disk.Partition.{partition_read-flat}
use vv4os.Disk.Volumes.{Volume, Disks, last_volume_loop, add_volumes}
use vv4os.Disk.Lists.{VolumeChain, add_volumes_outcome}
use vv4os.Process.Chain.{Cells, nil, cons}

-- The first partition starts at sector 2048; every other sector holds its number.
abbrev sector : ℕ → Bytes
sector k o = if k == 0 then (if o == 455 then 8 else 0) else (k + o) % 256

abbrev disk : Media
disk k = some (sector k)

abbrev blank : Bytes
blank o = 0

partition_read-flat_example :
    partition_read blank disk 4 0 500 1000 0x8000 blank
    ≡ some (0x8000, store_bytes blank 0x8000 1000 (flat_from (λ k. sector (2048 + k)) 500))
unfolding partition_table sector_or word_32 word_16
partition_read-flat_example =
    partition_read-flat blank disk (λ k. sector (2048 + k)) 4 0 500 1000 0x8000 blank (omega arith)
      (omega arith) (omega arith) (omega arith) (omega arith) (λ k lo hi. refl)

abbrev volume : (partition next : ℕ) → Volume
volume partition next = record {
  disk = 0x700;
  internal = 0x800;
  partition = partition;
  root = 0x900;
  next = next;
}

abbrev disks : Disks
disks = record {
  volume_at =
      λ p. if p == 100 then some (volume 1 200) else if p == 200 then some (volume 2 0) else none;
  disk_at = λ p. none;
  volumes = 100;
  disks = 0;
}

abbrev cells : Cells Volume
cells = (100, volume 1 0) ∷ (200, volume 2 0) ∷ []

disks-VolumeChain : VolumeChain disks 100 cells
disks-VolumeChain =
    cons (volume 1 200) (λ e. omega (arith, e)) refl refl refl
      (cons (volume 2 0) (λ e. omega (arith, e)) refl refl refl (nil refl))

add_volumes_outcome_example :
    ((disks.volumes ≡ 0) → add_volumes 3 300 disks ≡ some (record disks { volumes = 300 }))
    × ((disks.volumes ≢ 0)
        → (last_volume_loop disks 3 disks.volumes ≡ some 0) × (add_volumes 3 300 disks ≡ none))
add_volumes_outcome_example = add_volumes_outcome disks 3 300 cells disks-VolumeChain (omega arith)
