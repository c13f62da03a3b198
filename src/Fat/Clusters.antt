-- ===== src/Fat/Clusters.antt =====
-- The bytes of a cluster, the chain of a file's clusters, and what `Fat32ReadCluster` reads.
use vv4os.Base.{
  ℕ, zero, suc, ◌+◌, ◌*◌, ◌/◌, ◌%◌, ◌^◌, ◌<◌, ◌≡◌, refl, sym, ◌∙◌, true, false, none, some, arith,
  ap,
}
use vv4os.Strings.{Memory}
use vv4os.Disk.{Bytes, store_bytes, u64}
use vv4os.Disk.Flat.{store_bytes-empty, store_bytes-join}
use vv4os.Fat.{
  FatVolumeInternalData, Reader, first_sector, read_cluster_loop, fat32_read_cluster, next_cluster,
}

-- The bytes of a cluster, where `sectors` gives those of the sectors.
unfoldable pub cluster_bytes : (ℕ → Bytes) → FatVolumeInternalData → ℕ → Bytes
cluster_bytes sectors v cluster o = sectors (first_sector v cluster + o / 512) (o % 512)

-- A volume with sectors of 512 bytes and at least one to a cluster.
pub record IsVolume (v : FatVolumeInternalData) : Type 0 where
  pub sector_size : v.br.bytes_per_sector ≡ 512
  pub some_sectors : 0 < v.br.sectors_per_cluster
  pub few_sectors : v.br.sectors_per_cluster < 256
  pub cluster_size : v.bytes_per_cluster ≡ v.br.sectors_per_cluster * 512

module _ (read : Reader) (sectors : ℕ → Bytes) (v : FatVolumeInternalData) where
  -- The sectors of a cluster can be read.
  abbrev pub IsReadable : ℕ → Type 0
  IsReadable cluster =
      (i : ℕ)
      → i < v.br.sectors_per_cluster
      → read (first_sector v cluster + i) ≡ some (sectors (first_sector v cluster + i))

  first_sector-lt : (cluster : ℕ) → first_sector v cluster < 2 ^ 32
  unfolding first_sector
  first_sector-lt cluster = omega arith

  loop_step :
      (first n i buf : ℕ) (m : Memory) (b : Bytes)
      → read (u64 (first + i)) ≡ some b
      → read_cluster_loop read v first (suc n) i buf m
        ≡ read_cluster_loop read v first n
            (i + 1)
            buf
            (store_bytes m (buf + i * v.br.bytes_per_sector) 512 b)
  unfolding read_cluster_loop
  loop_step first n i buf m b e =
      ap
        (λ o. elim o [
          | none ↦ (false, m)
          | some c ↦
              read_cluster_loop read v first n (i + 1) buf
                (store_bytes m (buf + i * v.br.bytes_per_sector) 512 c)
        ])
        e

  module _ (vol : IsVolume v) (cluster : ℕ) (readable : IsReadable cluster) (buf : ℕ)
      (m : Memory) where
    bytes : Bytes
    bytes = cluster_bytes sectors v cluster

    sector_part : (i j : ℕ) → j < 512 → sectors (first_sector v cluster + i) j ≡ bytes (i * 512 + j)
    unfolding bytes cluster_bytes
    sector_part i j h =
        let q : (i * 512 + j) / 512 ≡ i = omega arith in
        let r : (i * 512 + j) % 512 ≡ j = omega arith in rw (q, r) refl

    read_cluster_loop-bytes :
        (n i : ℕ)
        → i + n ≡ v.br.sectors_per_cluster
        → read_cluster_loop read v
            (first_sector v cluster)
            n
            i
            buf
            (store_bytes m buf (i * 512) bytes)
          ≡ (true, store_bytes m buf ((i + n) * 512) bytes)
    unfolding read_cluster_loop
    read_cluster_loop-bytes zero i e =
        let z : i * 512 ≡ (i + 0) * 512 = omega arith in
        ap (λ k. (true, store_bytes m buf k bytes)) z
    read_cluster_loop-bytes (suc n) i e =
        let wide : u64 (first_sector v cluster + i) ≡ first_sector v cluster + i =
          omega (arith, first_sector-lt cluster, vol.few_sectors, e) in
        let next : i * 512 + 512 ≡ (i + 1) * 512 = omega arith in
        let more : (i + 1 + n) * 512 ≡ (i + suc n) * 512 = omega arith in
        let gives : read (u64 (first_sector v cluster + i))
            ≡ some (sectors (first_sector v cluster + i)) =
          ap read wide ∙ readable i (omega (arith, e)) in
        loop_step (first_sector v cluster) n i buf (store_bytes m buf (i * 512) bytes)
          (sectors (first_sector v cluster + i)) gives
        ∙ ap
            (λ z. read_cluster_loop read v (first_sector v cluster) n (i + 1) buf (
              store_bytes (store_bytes m buf (i * 512) bytes) (buf + i * z) 512
                (sectors (first_sector v cluster + i))))
            vol.sector_size
        ∙ ap (read_cluster_loop read v (first_sector v cluster) n (i + 1) buf) (
            store_bytes-join m buf (i * 512) 512 bytes (sectors (first_sector v cluster + i)) bytes
              (λ j h. refl) (λ j h. sector_part i j h)
            ∙ ap (λ k. store_bytes m buf k bytes) next)
        ∙ read_cluster_loop-bytes n (i + 1) (omega (arith, e))
        ∙ ap (λ k. (true, store_bytes m buf k bytes)) more

    -- Reading a cluster stores its bytes and nothing else.
    pub fat32_read_cluster-bytes :
        fat32_read_cluster read v cluster buf m
        ≡ (true, store_bytes m buf v.bytes_per_cluster (cluster_bytes sectors v cluster))
    unfolding fat32_read_cluster bytes
    fat32_read_cluster-bytes =
        ap (read_cluster_loop read v (first_sector v cluster) v.br.sectors_per_cluster 0 buf)
          (sym (store_bytes-empty m buf bytes))
        ∙ read_cluster_loop-bytes v.br.sectors_per_cluster 0 (omega arith)
        ∙ ap (λ k. (true, store_bytes m buf k bytes))
            (let z : (0 + v.br.sectors_per_cluster) * 512 ≡ v.bytes_per_cluster =
                omega (arith, vol.cluster_size) in
              z)

-- Cluster `k` of the file that starts at `first`.
unfoldable pub nth_cluster : Reader → (fresh : Bytes) → FatVolumeInternalData → (first k : ℕ) → ℕ
nth_cluster read fresh v first zero = first
nth_cluster read fresh v first (suc k) =
    next_cluster read fresh v (nth_cluster read fresh v first k)

-- Byte `o` of the file.
unfoldable pub file_byte :
    Reader → (fresh : Bytes) → (ℕ → Bytes) → FatVolumeInternalData → (first o : ℕ) → ℕ
file_byte read fresh sectors v first o =
    cluster_bytes sectors v (nth_cluster read fresh v first (o / v.bytes_per_cluster))
      (o % v.bytes_per_cluster)
