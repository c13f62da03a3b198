-- ===== src/Fat/Op.antt =====
-- `Fat32ReadOp` returns the bytes of a file from its position on.
use native.Mathlib.Nat.{div-add-mod', mod-lt, mod-eq_of_lt, mul-le-mul_right, div-le_self}
use vv4os.Base.{
  ℕ, zero, suc, ◌+◌, ◌-◌, ◌*◌, ◌/◌, ◌%◌, ◌^◌, ◌≤◌, ◌<◌, ◌≡◌, refl, ◌∙◌, ◌≢◌, true, false, some,
  ◌==◌, arith, ap, u32, inl, inr, Bool-cases,
}
use vv4os.Strings.{Memory}
use vv4os.File.{fd_type_file}
use vv4os.Disk.{Bytes, store_bytes, u64}
use vv4os.Disk.Flat.{store_bytes-join}
use vv4os.Fat.{
  FatVolumeInternalData, FatFile, Reader, fat32_read_cluster, next_cluster, invalid_cluster,
  leading_of, read_whole_and_tail, read_from, skip_loop, fat32_read_op, is_file,
}
use vv4os.Fat.Clusters.{IsVolume, cluster_bytes, nth_cluster, file_byte}
use vv4os.Fat.Read.{
  HasRange, at_mod, loads, loaded_block, nth-next, positive, read_whole_and_tail-all,
}

module _ (read : Reader) (fresh : Bytes) (sectors : ℕ → Bytes) (v : FatVolumeInternalData)
    (vol : IsVolume v) (first : ℕ) where
  abbrev nth : ℕ → ℕ
  nth = nth_cluster read fresh v first

  abbrev pub content : ℕ → Bytes
  content pos j = file_byte read fresh sectors v first (pos + j)

  from_start :
      (cluster seek size buf : ℕ) (m : Memory)
      → leading_of v seek ≡ 0
      → read_from read fresh v cluster seek size buf m
        ≡ read_whole_and_tail read fresh v
            (record { cluster = cluster; ret = 0; buf = buf; size = size; memory = m })
  unfolding read_from
  from_start cluster seek size buf m e = rw e refl

  from_middle :
      (cluster seek size buf lead : ℕ) (m block : Memory)
      → leading_of v seek ≡ lead
      → lead ≢ 0
      → fat32_read_cluster read v cluster 0 fresh ≡ (true, block)
      → read_from read fresh v cluster seek size buf m
        ≡ read_whole_and_tail read fresh v (record {
          cluster = next_cluster read fresh v cluster;
          ret = lead;
          buf = buf + lead;
          size = u32 (size + 2 ^ 32 - lead);
          memory = store_bytes m buf lead (λ o. block (v.bytes_per_cluster - lead + o));
        })
  unfolding read_from
  from_middle cluster seek size buf lead m block e ne loaded =
      let z : (lead == 0) ≡ false = ground arith in rw (e, z, loaded) refl

  leading-zero : (seek : ℕ) → seek % v.bytes_per_cluster ≡ 0 → leading_of v seek ≡ 0
  unfolding leading_of
  leading-zero seek e =
      let b = v.bytes_per_cluster in
      let z : b - 0 ≡ 1 * b + 0 = omega arith in
      rw (e, z) (at_mod b 1 0 (positive read fresh sectors v vol first))

  leading-some :
      (seek : ℕ)
      → seek % v.bytes_per_cluster ≢ 0
      → leading_of v seek ≡ v.bytes_per_cluster - seek % v.bytes_per_cluster
  unfolding leading_of
  leading-some seek ne =
      let b = v.bytes_per_cluster in
      let lt = mod-lt seek (positive read fresh sectors v vol first) in
      mod-eq_of_lt (omega (arith, ne, lt))

  module _ (seek size buf : ℕ) (m : Memory) (lead_fits : leading_of v seek ≤ size)
      (some_bytes : 0 < size) (small : size < 2 ^ 32)
      (has : HasRange read fresh sectors v vol first seek (seek + size)) where
    k : ℕ
    k = seek / v.bytes_per_cluster

    place : k * v.bytes_per_cluster + seek % v.bytes_per_cluster ≡ seek
    unfolding k
    place = div-add-mod' seek v.bytes_per_cluster

    read_from-start :
        seek % v.bytes_per_cluster ≡ 0
        → read_from read fresh v (nth k) seek size buf m
          ≡ (size, store_bytes m buf size (content seek))
    read_from-start e =
        let at_k : k * v.bytes_per_cluster ≡ seek = omega (arith, place, e) in
        from_start (nth k) seek size buf m (leading-zero seek e)
        ∙ read_whole_and_tail-all read fresh sectors v vol first k
            (record { cluster = nth k; ret = 0; buf = buf; size = size; memory = m }) refl
            (omega (arith, small))
            (λ j lo hi. has j (omega (arith, lo, at_k)) (omega (arith, hi, at_k)))
        ∙ (λ i. (
          (let z : 0 + size ≡ size = omega arith in z) i,
          store_bytes m buf size (content (at_k i)),
        ))

    read_from-middle :
        seek % v.bytes_per_cluster ≢ 0
        → read_from read fresh v (nth k) seek size buf m
          ≡ (size, store_bytes m buf size (content seek))
    read_from-middle ne =
        let b = v.bytes_per_cluster in
        let pad = seek % b in
        let lead = b - pad in
        let lt : pad < b = mod-lt seek (positive read fresh sectors v vol first) in
        let is_lead : leading_of v seek ≡ lead = leading-some seek ne in
        let fits : lead ≤ size = omega (arith, lead_fits, is_lead) in
        let next_place : (k + 1) * b ≡ k * b + b = omega arith in
        let (_, readable) =
          has k (omega (arith, place, lt, next_place)) (omega (arith, place, some_bytes)) in
        let block = store_bytes fresh 0 b (cluster_bytes sectors v (nth k)) in
        let m1 = store_bytes m buf lead (λ o. block (b - lead + o)) in
        let back : b - lead ≡ pad = omega (arith, lt) in
        let first_part : (j : ℕ) → j < lead → block (b - lead + j) ≡ content seek j = λ j h.
          ap block (let z : b - lead + j ≡ pad + j = omega (arith, back) in z)
          ∙ loaded_block read fresh sectors v vol first k (pad + j) (omega (arith, h))
          ∙ ap (file_byte read fresh sectors v first)
              (let z : k * b + (pad + j) ≡ seek + j = omega (arith, place) in z) in
        let rest_size : u32 (size + 2 ^ 32 - lead) ≡ size - lead = omega (arith, fits, small) in
        from_middle (nth k) seek size buf lead m block is_lead (λ z. omega (arith, z, lt))
          (loads read fresh sectors v vol first k readable)
        ∙ (λ i. read_whole_and_tail read fresh v (record {
          cluster = nth-next read fresh sectors v vol first k i;
          ret = lead;
          buf = buf + lead;
          size = rest_size i;
          memory = m1;
        }))
        ∙ read_whole_and_tail-all read fresh sectors v vol first (k + 1)
            (record {
              cluster = nth (k + 1);
              ret = lead;
              buf = buf + lead;
              size = size - lead;
              memory = m1;
            })
            refl (omega (arith, fits, small))
            (λ j lo hi.
              has j (omega (arith, lo, place, next_place))
                (omega (arith, hi, place, next_place, fits, lt)))
        ∙ (λ i. (
          (let z : lead + (size - lead) ≡ size = omega (arith, fits) in z) i,
          (store_bytes-join m buf lead (size - lead) (λ o. block (b - lead + o))
                  (content ((k + 1) * b)) (content seek) first_part
                  (λ j h. ap (file_byte read fresh sectors v first) (
                    let z : (k + 1) * b + j ≡ seek + (lead + j) =
                      omega (arith, place, next_place, lt) in
                    z))
                ∙ ap (λ n. store_bytes m buf n (content seek))
                    (let z : lead + (size - lead) ≡ size = omega (arith, fits) in z))
              i,
        ))

    read_from-all :
        read_from read fresh v (nth k) seek size buf m
        ≡ (size, store_bytes m buf size (content seek))
    read_from-all = elim (Bool-cases (seek % v.bytes_per_cluster == 0)) [
      | inl z ↦ read_from-start (ground arith)
      | inr nz ↦ read_from-middle (ground arith)
    ]

  skip_step :
      (n cluster next : ℕ)
      → next_cluster read fresh v cluster ≡ next
      → next ≢ invalid_cluster
      → skip_loop read fresh v (suc n) cluster ≡ skip_loop read fresh v n next
  unfolding skip_loop
  skip_step n cluster next e live =
      let z : (next == invalid_cluster) ≡ false = ground arith in rw (e, z) refl

  skip_loop-nth :
      (n k : ℕ)
      → ((j : ℕ) → k < j → j ≤ k + n → nth j ≢ invalid_cluster)
      → skip_loop read fresh v n (nth k) ≡ some (nth (k + n))
  unfolding skip_loop
  skip_loop-nth zero k live = ap (λ j. some (nth j)) (let z : k ≡ k + 0 = omega arith in z)
  skip_loop-nth (suc n) k live =
      skip_step n (nth k) (nth (k + 1)) (nth-next read fresh sectors v vol first k)
        (live (k + 1) (omega arith) (omega arith))
      ∙ skip_loop-nth n (k + 1) (λ j lo hi. live j (omega arith) (omega arith))
      ∙ ap (λ j. some (nth j)) (let z : k + 1 + n ≡ k + suc n = omega arith in z)

  op_steps :
      (file : FatFile) (size buf ret : ℕ) (m m' : Memory) (n cluster : ℕ)
      → is_file file.kind ≡ true
      → u32 (file.seek / v.bytes_per_cluster) ≡ n
      → skip_loop read fresh v n file.first_cluster ≡ some cluster
      → read_from read fresh v cluster file.seek size buf m ≡ (ret, m')
      → fat32_read_op read fresh v file size buf m
        ≡ (ret, record file { seek = u64 (file.seek + ret) }, m')
  unfolding fat32_read_op
  op_steps file size buf ret m m' n cluster kind en skips reads = rw (kind, en, skips, reads) refl

-- For a regular file at position `seek`, and a request of `size` bytes that reaches the end of the
-- cluster in which it starts, where every cluster of the file up to the last byte exists and can be
-- read: `Fat32ReadOp` returns `size`, moves the position by `size`, and the buffer holds the bytes
-- of the file from `seek` on, found through the chain of clusters in the table. No byte outside the
-- buffer changes.
pub fat32_read_op-file :
    (read : Reader) (fresh : Bytes) (sectors : ℕ → Bytes) (v : FatVolumeInternalData)
    (file : FatFile) (size buf : ℕ) (m : Memory) (vol : IsVolume v)
    → file.kind ≡ fd_type_file
    → file.seek < 2 ^ 32
    → 0 < size
    → size < 2 ^ 32
    → leading_of v file.seek ≤ size
    → HasRange read fresh sectors v vol file.first_cluster 0 (file.seek + size)
    → fat32_read_op read fresh v file size buf m ≡ (
      size,
      record file { seek = file.seek + size },
      store_bytes m buf size
          (λ j. file_byte read fresh sectors v file.first_cluster (file.seek + j)),
    )
unfolding nth_cluster k is_file
fat32_read_op-file read fresh sectors v file size buf m vol kind seek_small pos small fits has =
    let b = v.bytes_per_cluster in
    let first = file.first_cluster in
    let n = file.seek / b in
    let place : n * b + file.seek % b ≡ file.seek = div-add-mod' file.seek b in
    let exact : u32 n ≡ n = omega (arith, div-le_self file.seek b, seek_small) in
    let end_at : u64 (file.seek + size) ≡ file.seek + size = omega (arith, seek_small, small) in
    let positive_b = positive read fresh sectors v vol first in
    op_steps read fresh sectors v vol first file size buf size m
      (store_bytes m buf size (content read fresh sectors v vol first file.seek)) n
      (nth_cluster read fresh v first (0 + n)) (ap is_file kind) exact
      (skip_loop-nth read fresh sectors v vol first n 0 (λ j lo hi.
        (has j (omega (arith, lo, positive_b, mul-le-mul_right b lo))
          (below j n b (file.seek % b) file.seek size pos hi place)).0))
      (ap (λ j. read_from read fresh v (nth_cluster read fresh v first j) file.seek size buf m)
          (let z : 0 + n ≡ n = omega arith in z)
        ∙ read_from-all read fresh sectors v vol first file.seek size buf m fits pos small
            (λ j lo hi. has j (omega (arith, lo)) hi))
    ∙ ap
        (λ e. (
          size,
          record file { seek = e },
          store_bytes m buf size (content read fresh sectors v vol first file.seek),
        ))
        end_at
  where
    below : (j n b r seek size : ℕ) → 0 < size → j ≤ 0 + n → n * b + r ≡ seek → j * b < seek + size
    below j n b r seek size pos hi place =
        let le : j ≤ n = omega (arith, hi) in omega (arith, mul-le-mul_right b le, place, pos)
