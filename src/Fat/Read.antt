-- ===== src/Fat/Read.antt =====
-- What `Fat32ReadOp` reads of a file.
use native.Mathlib.Nat.{div-eq_of_lt-le, mod-eq-sub-div-mul, div-add-mod', mod-lt, mul-le-mul_right}
use vv4os.Base.{
  ℕ, zero, suc, ◌+◌, ◌-◌, ◌*◌, ◌/◌, ◌%◌, ◌^◌, ◌≤◌, ◌<◌, ◌≡◌, refl, sym, ◌∙◌, ◌≢◌, true, false, ◌==◌,
  ltb, leb, ◌&&◌, arith, ap, u32, inl, inr, Bool-cases,
}
use vv4os.Strings.{Memory}
use vv4os.Disk.{Bytes, store_bytes}
use vv4os.Disk.Flat.{store_bytes-empty, store_bytes-join}
use vv4os.Fat.{
  FatVolumeInternalData, Reader, Progress, fat32_read_cluster, next_cluster, invalid_cluster,
  whole_loop, read_tail, read_whole_and_tail,
}
use vv4os.Fat.Clusters.{
  IsVolume, IsReadable, fat32_read_cluster-bytes, cluster_bytes, nth_cluster, file_byte,
}

-- The quotient and the remainder of a position.
at_div : (b k j : ℕ) → j < b → (k * b + j) / b ≡ k
at_div b k j h =
    let e : (k + 1) * b ≡ k * b + b = omega arith in
    div-eq_of_lt-le b (omega arith) (omega (arith, e))

pub at_mod : (b k j : ℕ) → j < b → (k * b + j) % b ≡ j
at_mod b k j h = mod-eq-sub-div-mul (k * b + j) b ∙ rw (at_div b k j h) (omega arith)

store_bytes-same :
    (m : Memory) (buf n : ℕ) (f g : Bytes)
    → ((j : ℕ) → j < n → f j ≡ g j)
    → store_bytes m buf n f ≡ store_bytes m buf n g
store_bytes-same m buf n f g same =
    let e : n + 0 ≡ n = omega arith in
    sym (store_bytes-empty (store_bytes m buf n f) (buf + n) f)
    ∙ store_bytes-join m buf n 0 f f g same (λ j h. absurd (omega arith))
    ∙ ap (λ k. store_bytes m buf k g) e

progress-eq :
    {c c' r r' b b' s s' : ℕ} {m m' : Memory}
    → c ≡ c'
    → r ≡ r'
    → b ≡ b'
    → s ≡ s'
    → m ≡ m'
    → Path Progress
        (record { cluster = c; ret = r; buf = b; size = s; memory = m })
        (record { cluster = c'; ret = r'; buf = b'; size = s'; memory = m' })
progress-eq ec er eb es em =
    λ i. record { cluster = ec i; ret = er i; buf = eb i; size = es i; memory = em i }

module _ (read : Reader) (fresh : Bytes) (sectors : ℕ → Bytes) (v : FatVolumeInternalData)
    (vol : IsVolume v) (first : ℕ) where
  abbrev nth : ℕ → ℕ
  nth = nth_cluster read fresh v first

  abbrev content : ℕ → Bytes
  content pos j = file_byte read fresh sectors v first (pos + j)

  -- Clusters `lo` to `hi`, without `hi`, are part of the file and can be read.
  abbrev pub HasClusters : (lo hi : ℕ) → Type 0
  HasClusters lo hi =
      (k : ℕ) → lo ≤ k → k < hi → (nth k ≢ invalid_cluster) × IsReadable read sectors v (nth k)

  in_cluster :
      (k j : ℕ)
      → j < v.bytes_per_cluster
      → cluster_bytes sectors v (nth k) j ≡ content (k * v.bytes_per_cluster) j
  unfolding file_byte
  in_cluster k j h = rw (at_div v.bytes_per_cluster k j h, at_mod v.bytes_per_cluster k j h) refl

  -- Where the loop over whole clusters stands after `n` of them.
  abbrev advanced : (k n : ℕ) → Progress → Progress
  advanced k n p = record {
    cluster = nth (k + n);
    ret = p.ret + n * v.bytes_per_cluster;
    buf = p.buf + n * v.bytes_per_cluster;
    size = p.size - n * v.bytes_per_cluster;
    memory =
        store_bytes p.memory p.buf (n * v.bytes_per_cluster) (content (k * v.bytes_per_cluster));
  }

  whole_step :
      (n : ℕ) (p : Progress) (m : Memory)
      → p.cluster ≢ invalid_cluster
      → fat32_read_cluster read v p.cluster p.buf p.memory ≡ (true, m)
      → whole_loop read fresh v (suc n) p
        ≡ whole_loop read fresh v n (record {
          cluster = next_cluster read fresh v p.cluster;
          ret = u32 (p.ret + v.bytes_per_cluster);
          buf = p.buf + v.bytes_per_cluster;
          size = u32 (p.size + 2 ^ 32 - v.bytes_per_cluster);
          memory = m;
        })
  unfolding whole_loop
  whole_step n p m live e =
      let z : (p.cluster == invalid_cluster) ≡ false = ground arith in rw (z, e) refl

  pub nth-next : (k : ℕ) → next_cluster read fresh v (nth k) ≡ nth (k + 1)
  unfolding nth_cluster
  nth-next k = ap nth (let e : suc k ≡ k + 1 = omega arith in e)

  whole_loop-advanced :
      (n k : ℕ) (p : Progress)
      → p.cluster ≡ nth k
      → n * v.bytes_per_cluster ≤ p.size
      → p.ret + p.size < 2 ^ 32
      → HasClusters k (k + n)
      → whole_loop read fresh v n p ≡ (true, advanced k n p)
  unfolding whole_loop
  whole_loop-advanced zero k p e fits small has =
      ap (λ q. (true, q))
        (progress-eq (e ∙ ap nth (let z : k ≡ k + 0 = omega arith in z)) (omega arith) (omega arith)
          (omega arith)
          (sym (store_bytes-empty p.memory p.buf (content (k * v.bytes_per_cluster)))
            ∙ ap (λ n. store_bytes p.memory p.buf n (content (k * v.bytes_per_cluster)))
                (let z : 0 ≡ 0 * v.bytes_per_cluster = omega arith in z)))
  whole_loop-advanced (suc n) k p e fits small has =
      let b = v.bytes_per_cluster in
      let (live, readable) = has k (omega arith) (omega arith) in
      let size : suc n * b ≡ b + n * b = omega arith in
      let more : b + n * b ≡ suc n * b = omega arith in
      let p1 : Progress = record {
        cluster = nth (k + 1);
        ret = p.ret + b;
        buf = p.buf + b;
        size = p.size - b;
        memory = store_bytes p.memory p.buf b (content (k * b));
      } in
      whole_step n p (store_bytes p.memory p.buf b (cluster_bytes sectors v p.cluster))
        (λ z. live (sym e ∙ z))
        (fat32_read_cluster-bytes read sectors v vol p.cluster (rw e readable) p.buf p.memory)
      ∙ ap (whole_loop read fresh v n) (
          progress-eq (ap (next_cluster read fresh v) e ∙ nth-next k)
            (omega (arith, small, size, fits)) refl (omega (arith, small, size, fits))
            (ap (λ c. store_bytes p.memory p.buf b (cluster_bytes sectors v c)) e
              ∙ store_bytes-same p.memory p.buf b (cluster_bytes sectors v (nth k))
                  (content (k * b)) (in_cluster k)))
      ∙ whole_loop-advanced n (k + 1) p1 refl (omega (arith, size, fits))
          (omega (arith, small, size, fits)) (λ j lo hi. has j (omega arith) (omega arith))
      ∙ ap (λ q. (true, q))
          (progress-eq (ap nth (let z : k + 1 + n ≡ k + suc n = omega arith in z))
            (omega (arith, size)) (omega (arith, size)) (omega (arith, size))
            (store_bytes-join p.memory p.buf b (n * b) (content (k * b)) (content ((k + 1) * b))
                (content (k * b)) (λ j h. refl)
                (λ j h.
                  ap (file_byte read fresh sectors v first)
                    (let z : (k + 1) * b + j ≡ k * b + (b + j) = omega arith in z))
              ∙ ap (λ n. store_bytes p.memory p.buf n (content (k * b))) more))

  -- The clusters that hold bytes from position `pos` up to `stop` are part of the file and can be
  -- read.
  abbrev pub HasRange : (pos stop : ℕ) → Type 0
  HasRange pos stop =
      (k : ℕ)
      → pos < (k + 1) * v.bytes_per_cluster
      → k * v.bytes_per_cluster < stop
      → (nth k ≢ invalid_cluster) × IsReadable read sectors v (nth k)

  pub loaded_block :
      (k j : ℕ)
      → j < v.bytes_per_cluster
      → store_bytes fresh 0 v.bytes_per_cluster (cluster_bytes sectors v (nth k)) j
        ≡ content (k * v.bytes_per_cluster) j
  unfolding store_bytes
  loaded_block k j h =
      let within : (leb 0 j && ltb j (0 + v.bytes_per_cluster)) ≡ true = ground arith in
      rw within (
        ap (cluster_bytes sectors v (nth k)) (let z : j - 0 ≡ j = omega arith in z)
        ∙ in_cluster k j h)

  pub loads :
      (k : ℕ)
      → IsReadable read sectors v (nth k)
      → fat32_read_cluster read v (nth k) 0 fresh
        ≡ (true, store_bytes fresh 0 v.bytes_per_cluster (cluster_bytes sectors v (nth k)))
  loads k readable = fat32_read_cluster-bytes read sectors v vol (nth k) readable 0 fresh

  -- What is read of `p.size` bytes from the start of cluster `k` on.
  abbrev reads_all : (k : ℕ) → Progress → ℕ × Memory
  reads_all k p =
      (p.ret + p.size, store_bytes p.memory p.buf p.size (content (k * v.bytes_per_cluster)))

  read_tail-empty : (k : ℕ) (p : Progress) → p.size ≡ 0 → read_tail read fresh v p ≡ reads_all k p
  unfolding read_tail
  read_tail-empty k p e =
      let z : (p.size == 0) ≡ true = ground arith in
      rw (z, e)
        (λ i. (
          (let r : p.ret ≡ p.ret + 0 = omega arith in r) i,
          sym (store_bytes-empty p.memory p.buf (content (k * v.bytes_per_cluster))) i,
        ))

  read_tail-some :
      (p : Progress) (block : Memory)
      → p.size ≢ 0
      → p.cluster ≢ invalid_cluster
      → fat32_read_cluster read v p.cluster 0 fresh ≡ (true, block)
      → read_tail read fresh v p ≡ (u32 (p.ret + p.size), store_bytes p.memory p.buf p.size block)
  unfolding read_tail
  read_tail-some p block ne live e =
      let z : (p.size == 0) ≡ false = ground arith in
      let l : (p.cluster == invalid_cluster) ≡ false = ground arith in rw (z, l, e) refl

  read_tail-all :
      (k : ℕ) (p : Progress)
      → p.cluster ≡ nth k
      → p.size < v.bytes_per_cluster
      → p.ret + p.size < 2 ^ 32
      → HasRange (k * v.bytes_per_cluster) (k * v.bytes_per_cluster + p.size)
      → read_tail read fresh v p ≡ reads_all k p
  read_tail-all k p e short small has = elim (Bool-cases (p.size == 0)) [
    | inl z ↦ read_tail-empty k p (ground arith)
    | inr nz ↦
        let ne : p.size ≢ 0 = ground arith in
        let (live, readable) = has k (omega (arith, short)) (omega (arith, ne)) in
        read_tail-some p (store_bytes fresh 0 v.bytes_per_cluster (cluster_bytes sectors v (nth k)))
          ne (λ z. live (sym e ∙ z))
          (ap (λ c. fat32_read_cluster read v c 0 fresh) e ∙ loads k readable)
        ∙ (λ i. (
          (let r : u32 (p.ret + p.size) ≡ p.ret + p.size = omega (arith, small) in r) i,
          store_bytes-same p.memory p.buf p.size
              (store_bytes fresh 0 v.bytes_per_cluster (cluster_bytes sectors v (nth k)))
              (content (k * v.bytes_per_cluster))
              (λ j h. loaded_block k j (omega (arith, h, short))) i,
        ))
  ]

  whole_then_tail :
      (p q : Progress) (n : ℕ)
      → p.size / v.bytes_per_cluster ≡ n
      → whole_loop read fresh v n p ≡ (true, q)
      → read_whole_and_tail read fresh v p ≡ read_tail read fresh v q
  unfolding read_whole_and_tail
  whole_then_tail p q n en e = rw (en, e) refl

  pub positive : 0 < v.bytes_per_cluster
  positive = omega (arith, vol.cluster_size, vol.some_sectors)

  pub read_whole_and_tail-all :
      (k : ℕ) (p : Progress)
      → p.cluster ≡ nth k
      → p.ret + p.size < 2 ^ 32
      → HasRange (k * v.bytes_per_cluster) (k * v.bytes_per_cluster + p.size)
      → read_whole_and_tail read fresh v p ≡ reads_all k p
  read_whole_and_tail-all k p e small has =
      let b = v.bytes_per_cluster in
      let n = p.size / b in
      let parts : n * b + p.size % b ≡ p.size = div-add-mod' p.size b in
      let short : p.size % b < b = mod-lt p.size positive in
      let place : (k + n) * b ≡ k * b + n * b = omega arith in
      let clusters : HasClusters k (k + n) = λ j lo hi.
        has j (up k j b positive lo) (below k n j b (p.size % b) p.size positive hi parts) in
      whole_then_tail p (advanced k n p) n refl
        (whole_loop-advanced n k p e (omega (arith, parts)) small clusters)
      ∙ read_tail-all (k + n) (advanced k n p) refl (omega (arith, parts, short))
          (omega (arith, parts, small))
          (λ j lo hi. has j (omega (arith, lo, place)) (omega (arith, hi, place, parts)))
      ∙ (λ i. (
        (let r : p.ret + n * b + (p.size - n * b) ≡ p.ret + p.size = omega (arith, parts) in r) i,
        (store_bytes-join p.memory p.buf (n * b) (p.size - n * b) (content (k * b))
                (content ((k + n) * b)) (content (k * b)) (λ j h. refl)
                (λ j h.
                  ap (file_byte read fresh sectors v first)
                    (let z : (k + n) * b + j ≡ k * b + (n * b + j) = omega (arith, place) in z))
              ∙ ap (λ m. store_bytes p.memory p.buf m (content (k * b)))
                  (let z : n * b + (p.size - n * b) ≡ p.size = omega (arith, parts) in z))
            i,
      ))
    where
      up : (k j b : ℕ) → 0 < b → k ≤ j → k * b < (j + 1) * b
      up k j b pos h = omega (arith, mul-le-mul_right b h)

      below : (k n j b r size : ℕ) → 0 < b → j < k + n → n * b + r ≡ size → j * b < k * b + size
      below k n j b r size pos h e =
          let le : j + 1 ≤ k + n = omega (arith, h) in
          let z : (k + n) * b ≡ k * b + n * b = omega arith in
          let z' : (j + 1) * b ≡ j * b + b = omega arith in
          omega (arith, mul-le-mul_right b le, z, z', e, pos)
