-- ===== src/Fat/Volumes.antt =====
-- Which partitions are mounted, and what becomes of a disk with a partition that is not.
use vv4os.Base.{
  ℕ, zero, suc, ◌+◌, ◌<◌, ◌≤◌, ◌≡◌, refl, ◌∙◌, ◌≢◌, true, false, Option, none, some, ◌==◌, List,
  ◌∷◌, arith, inl, inr, Bool-cases, ==_iff, ltb, Option-cases,
}
use vv4os.Disk.{Bytes, Media, partition_table, sector_or, get_partition_entry}
use vv4os.Fat.{FatBootRecord, boot_record}
use vv4os.Fat.Mount.{Mounted, has_signature, fat_mount_volume, mount_loop, mount_disk}

-- A boot record that the driver accepts.
pub record IsFat32 (br : FatBootRecord) : Type 0 where
  pub boot : br.boot_signature ≡ 0xAA55
  pub not_fat16 : has_signature br.fat16_signature ≡ false
  pub fat32 : has_signature br.fat32_signature ≡ true

module _ (fresh : Bytes) (size_junk seek_junk : ℕ) (disk : Media) where
  abbrev boot_of : Option Bytes → FatBootRecord
  boot_of sector = boot_record (sector_or fresh sector)

  abbrev entry_length : ℕ → ℕ
  entry_length partition = (partition_table (sector_or fresh (disk 0)) partition).lba_length

  get_partition_entry-some :
      (partition : ℕ)
      → partition < 4
      → get_partition_entry fresh disk partition
        ≡ some (partition_table (sector_or fresh (disk 0)) partition)
  unfolding get_partition_entry
  get_partition_entry-some partition h = let z : ltb partition 4 ≡ true = ground arith in rw z refl

  mount_rest :
      (n start : ℕ) (vs : List Mounted)
      → start < 4
      → entry_length start ≢ 0
      → ((vs : List Mounted) → mount_loop fresh size_junk seek_junk disk n (start + 1) vs ≡ none)
      → mount_loop fresh size_junk seek_junk disk (suc n) start vs ≡ none
  unfolding mount_loop
  mount_rest n start vs h ne rest =
      let z : (entry_length start == 0) ≡ false = ground arith in
      elim (Option-cases (fat_mount_volume fresh size_junk seek_junk disk start)) [
        | inl e ↦ rw (get_partition_entry-some start h, z, e) refl
        | inr (mounted, e) ↦ elim (Option-cases mounted) [
          | inl e' ↦ rw (get_partition_entry-some start h, z, e, e') refl
          | inr (v, e') ↦ rw (get_partition_entry-some start h, z, e, e') (rest (v ∷ vs))
        ]
      ]

  mount_here :
      (n start : ℕ) (vs : List Mounted)
      → start < 4
      → entry_length start ≢ 0
      → fat_mount_volume fresh size_junk seek_junk disk start ≡ some none
      → mount_loop fresh size_junk seek_junk disk (suc n) start vs ≡ none
  unfolding mount_loop
  mount_here n start vs h ne e =
      let z : (entry_length start == 0) ≡ false = ground arith in
      rw (get_partition_entry-some start h, z, e) refl

  mount_empty :
      (n start : ℕ) (vs : List Mounted)
      → start < 4
      → entry_length start ≡ 0
      → mount_loop fresh size_junk seek_junk disk (suc n) start vs
        ≡ mount_loop fresh size_junk seek_junk disk n (start + 1) vs
  unfolding mount_loop
  mount_empty n start vs h e =
      let z : (entry_length start == 0) ≡ true = ground arith in
      rw (get_partition_entry-some start h, z) refl

  mount_loop-fault :
      (n start k : ℕ) (vs : List Mounted)
      → start ≤ k
      → k < start + n
      → start + n ≤ 4
      → entry_length k ≢ 0
      → fat_mount_volume fresh size_junk seek_junk disk k ≡ some none
      → mount_loop fresh size_junk seek_junk disk n start vs ≡ none
  unfolding mount_loop
  mount_loop-fault zero start k vs lo hi four ne null = absurd (omega arith)
  mount_loop-fault (suc n) start k vs lo hi four ne null = elim (Bool-cases (start == k)) [
    | inl here ↦
        let e : start ≡ k = (==_iff start k).0 here in
        mount_here n start vs (omega arith) (rw e ne) (rw e null)
    | inr off ↦
        let rest = λ (ws : List Mounted).
          mount_loop-fault n (start + 1) k ws (ground arith) (omega arith) (omega arith) ne null in
        elim (Bool-cases (entry_length start == 0)) [
          | inl z ↦
              mount_empty n start vs (omega arith) ((==_iff (entry_length start) 0).0 z) ∙ rest vs
          | inr nz ↦ mount_rest n start vs (omega arith) (ground arith) rest
        ]
  ]

  -- If one of the four partitions is not empty and cannot be mounted, adding the disk follows `NULL`
  -- and faults, whatever the other partitions hold.
  pub mount_disk-fault :
      (k : ℕ) (vs : List Mounted)
      → k < 4
      → entry_length k ≢ 0
      → fat_mount_volume fresh size_junk seek_junk disk k ≡ some none
      → mount_disk fresh size_junk seek_junk disk vs ≡ none
  unfolding mount_disk
  mount_disk-fault k vs h ne null =
      mount_loop-fault 4 0 k vs (omega arith) (omega arith) (omega arith) ne null
