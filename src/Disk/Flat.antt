-- ===== src/Disk/Flat.antt =====
-- A partition as one sequence of bytes, and that `PartitionRead` copies a range of it.
use vv4os.Base.{
  ℕ, zero, suc, ◌+◌, ◌-◌, ◌*◌, ◌/◌, ◌%◌, ◌^◌, ◌≤◌, ◌<◌, ◌≡◌, refl, sym, ◌∙◌, true, false, Option,
  some, ◌&&◌, leb, ltb, u32, arith, ap, inl, inr, Bool-cases,
}
use vv4os.Strings.{Memory}
use vv4os.Disk.{Bytes, store_bytes, read_sectors_loop, read_rest, read_range, u64}

-- The byte at a position of the sequence of all sectors.
abbrev pub flat : (ℕ → Bytes) → ℕ → ℕ
flat sectors pos = sectors (pos / 512) (pos % 512)

abbrev pub flat_from : (ℕ → Bytes) → ℕ → Bytes
flat_from sectors pos j = flat sectors (pos + j)

pub store_bytes-empty : (m : Memory) (buf : ℕ) (f : Bytes) → store_bytes m buf 0 f ≡ m
unfolding store_bytes
store_bytes-empty m buf f = λ k a. at_byte a k
  where
    at_byte : (a : ℕ) → store_bytes m buf 0 f a ≡ m a
    at_byte a = let out : (leb buf a && ltb a (buf + 0)) ≡ false = ground arith in rw out refl

-- Two copies side by side are one.
pub store_bytes-join :
    (m : Memory) (buf n k : ℕ) (f g h : Bytes)
    → ((j : ℕ) → j < n → f j ≡ h j)
    → ((j : ℕ) → j < k → g j ≡ h (n + j))
    → store_bytes (store_bytes m buf n f) (buf + n) k g ≡ store_bytes m buf (n + k) h
unfolding store_bytes
store_bytes-join m buf n k f g h first second = λ i a. at_byte a i
  where
    at_byte :
        (a : ℕ)
        → store_bytes (store_bytes m buf n f) (buf + n) k g a ≡ store_bytes m buf (n + k) h a
    at_byte a = elim (Bool-cases (leb (buf + n) a && ltb a (buf + n + k))) [
      | inl late ↦
          let within : (leb buf a && ltb a (buf + (n + k))) ≡ true = ground arith in
          let e : n + (a - (buf + n)) ≡ a - buf = ground arith in
          rw (late, within) (second (a - (buf + n)) (ground arith) ∙ ap h e)
      | inr not_late ↦ elim (Bool-cases (leb buf a && ltb a (buf + n))) [
        | inl early ↦
            let within : (leb buf a && ltb a (buf + (n + k))) ≡ true = ground arith in
            rw (not_late, early, within) (first (a - buf) (ground arith))
        | inr not_early ↦
            let out : (leb buf a && ltb a (buf + (n + k))) ≡ false = ground arith in
            rw (not_late, not_early, out) refl
      ]
    ]

module _ (read : ℕ → Option (Option Bytes)) (sectors : ℕ → Bytes) where
  -- The driver reads the sectors from `first` up to `last`.
  abbrev pub IsReadable : (first last : ℕ) → Type 0
  IsReadable first last = (k : ℕ) → first ≤ k → k ≤ last → read k ≡ some (some (sectors k))

  loop_end :
      (fuel i stop buf : ℕ) (m : Memory)
      → stop ≤ i
      → read_sectors_loop read (suc fuel) i stop buf m ≡ some (true, m)
  unfolding read_sectors_loop
  loop_end fuel i stop buf m h = let e : ltb i stop ≡ false = ground arith in rw e refl

  loop_step :
      (fuel i stop buf : ℕ) (m : Memory) (b : Bytes)
      → i < stop
      → read i ≡ some (some b)
      → read_sectors_loop read (suc fuel) i stop buf m
        ≡ read_sectors_loop read fuel (u32 (i + 1)) stop (buf + 512) (store_bytes m buf 512 b)
  unfolding read_sectors_loop
  loop_step fuel i stop buf m b h e = let l : ltb i stop ≡ true = ground arith in rw (l, e) refl

  read_sectors_loop-flat :
      (n fuel i stop buf : ℕ) (m : Memory)
      → i + n ≡ stop
      → stop < 2 ^ 32
      → n < fuel
      → IsReadable i stop
      → read_sectors_loop read fuel i stop buf m
        ≡ some (true, store_bytes m buf (n * 512) (flat_from sectors (i * 512)))
  read_sectors_loop-flat n zero i stop buf m e small enough reads = absurd (omega arith)
  read_sectors_loop-flat zero (suc fuel) i stop buf m e small enough reads =
      loop_end fuel i stop buf m (omega arith)
      ∙ ap (λ r. some (true, r)) (sym (store_bytes-empty m buf (flat_from sectors (i * 512))))
  read_sectors_loop-flat (suc n) (suc fuel) i stop buf m e small enough reads =
      let next : u32 (i + 1) ≡ i + 1 = omega arith in
      let size : 512 + n * 512 ≡ suc n * 512 = omega arith in
      loop_step fuel i stop buf m (sectors i) (omega arith) (reads i (omega arith) (omega arith))
      ∙ ap (λ j. read_sectors_loop read fuel j stop (buf + 512) (store_bytes m buf 512 (sectors i)))
          next
      ∙ read_sectors_loop-flat n fuel (i + 1) stop (buf + 512) (store_bytes m buf 512 (sectors i))
          (omega arith) small (omega arith) (λ k lo hi. reads k (omega arith) hi)
      ∙ ap (λ r. some (true, r))
          (store_bytes-join m buf 512 (n * 512) (sectors i) (flat_from sectors ((i + 1) * 512))
              (flat_from sectors (i * 512)) (λ j h. in_first j h) (λ j h. in_rest j)
            ∙ ap (λ k. store_bytes m buf k (flat_from sectors (i * 512))) size)
    where
      in_first : (j : ℕ) → j < 512 → sectors i j ≡ flat sectors (i * 512 + j)
      in_first j h =
          let q : (i * 512 + j) / 512 ≡ i = omega arith in
          let r : (i * 512 + j) % 512 ≡ j = omega arith in rw (q, r) refl

      in_rest : (j : ℕ) → flat sectors ((i + 1) * 512 + j) ≡ flat sectors (i * 512 + (512 + j))
      in_rest j =
          ap (flat sectors) (let e' : (i + 1) * 512 + j ≡ i * 512 + (512 + j) = omega arith in e')

  read_rest-flat :
      (sector length buf ret : ℕ) (m : Memory)
      → read sector ≡ some (some (sectors sector))
      → read_rest read sector length buf ret m
        ≡ some (ret, store_bytes m buf length (sectors sector))
  unfolding read_rest
  read_rest-flat sector length buf ret m e = rw e refl

  range_steps :
      (fuel addr length buf : ℕ) (m m1 : Memory) (b : Bytes) (base full : ℕ)
      → read (addr / 512) ≡ some (some b)
      → u64 (addr + (512 - addr % 512)) / 512 ≡ base
      → u64 (length + 2 ^ 64 - (512 - addr % 512)) / 512 ≡ full
      → read_sectors_loop read fuel
          (u32 base)
          (u64 (base + full))
          (buf + (512 - addr % 512))
          (store_bytes m buf (512 - addr % 512) (λ o. b (addr % 512 + o)))
        ≡ some (true, m1)
      → read_range read fuel addr length buf m
        ≡ read_rest read
            (u64 (base + full))
            (u64 (length + 2 ^ 64 - (512 - addr % 512)) % 512)
            (buf + (512 - addr % 512) + full * 512)
            buf
            m1
  unfolding read_range
  range_steps fuel addr length buf m m1 b base full first e e' loop = rw (first, e, e', loop) refl

  -- If the range reaches the end of the sector in which it starts, and the driver reads its sectors
  -- and the one that holds the byte after its end, then with more fuel than sectors the call returns
  -- the buffer, which then holds the bytes of the range, and no byte outside it has changed.
  pub read_range-flat :
      (fuel addr length buf : ℕ) (m : Memory)
      → 512 - addr % 512 ≤ length
      → addr + length < 2 ^ 41
      → length / 512 < fuel
      → IsReadable (addr / 512) ((addr + length) / 512)
      → read_range read fuel addr length buf m
        ≡ some (buf, store_bytes m buf length (flat_from sectors addr))
  read_range-flat fuel addr length buf m long small enough reads =
      let pad = addr % 512 in
      let lead = 512 - addr % 512 in
      let base = (addr + lead) / 512 in
      let rest = length - lead in
      let full = rest / 512 in
      let r64 : u64 (length + 2 ^ 64 - lead) ≡ rest = omega (arith, long, small) in
      let b64 : u64 (addr + lead) / 512 ≡ base = omega (arith, long, small) in
      let s64 : u64 (base + full) ≡ base + full = omega (arith, long, small) in
      let b32 : u32 base ≡ base = omega (arith, long, small) in
      let last : base + full ≡ (addr + length) / 512 = omega (arith, long) in
      let m1 = store_bytes m buf lead (λ o. sectors (addr / 512) (pad + o)) in
      let m2 = store_bytes m1 (buf + lead) (full * 512) (flat_from sectors (base * 512)) in
      let joined : m2 ≡ store_bytes m buf (lead + full * 512) (flat_from sectors addr) =
        store_bytes-join m buf lead (full * 512) (λ o. sectors (addr / 512) (pad + o))
          (flat_from sectors (base * 512)) (flat_from sectors addr) (in_first addr)
          (λ j h.
            ap (flat sectors) (let e : base * 512 + j ≡ addr + (lead + j) = omega arith in e)) in
      let size : lead + full * 512 + rest % 512 ≡ length = omega (arith, long) in
      let r512 : u64 (length + 2 ^ 64 - lead) % 512 ≡ rest % 512 = ap (λ x. x % 512) r64 in
      let end_at : buf + lead + full * 512 ≡ buf + (lead + full * 512) = omega arith in
      let ends : read (base + full) ≡ some (some (sectors (base + full))) =
        reads (base + full) (omega (arith, last, long)) (omega (arith, last)) in
      range_steps fuel addr length buf m m2 (sectors (addr / 512)) base full
        (reads (addr / 512) (omega arith) (omega (arith, long))) b64 (ap (λ x. x / 512) r64)
        (ap (λ i. read_sectors_loop read fuel i (u64 (base + full)) (buf + lead) m1) b32
          ∙ ap (λ z. read_sectors_loop read fuel base z (buf + lead) m1) s64
          ∙ read_sectors_loop-flat full fuel base (base + full) (buf + lead) m1 refl
              (omega (arith, long, small)) (omega (arith, long, enough))
              (λ k lo hi. reads k (omega (arith, lo)) (omega (arith, hi, last))))
      ∙ ap
          (λ x.
            read_rest read x (u64 (length + 2 ^ 64 - lead) % 512) (buf + lead + full * 512) buf m2)
          s64
      ∙ ap (λ x. read_rest read (base + full) x (buf + lead + full * 512) buf m2) r512
      ∙ read_rest-flat (base + full) (rest % 512) (buf + lead + full * 512) buf m2 ends
      ∙ ap (λ r. some (buf, r))
          (ap (λ r. store_bytes r (buf + lead + full * 512) (rest % 512) (sectors (base + full)))
              joined
            ∙ ap
                (λ b.
                  store_bytes (store_bytes m buf (lead + full * 512) (flat_from sectors addr)) b
                    (rest % 512) (sectors (base + full)))
                end_at
            ∙ store_bytes-join m buf (lead + full * 512) (rest % 512) (flat_from sectors addr)
                (sectors (base + full)) (flat_from sectors addr) (λ j h. refl)
                (λ j h.
                  in_last addr (lead + full * 512) (base + full) j (omega (arith, h)) (omega arith))
            ∙ ap (λ k. store_bytes m buf k (flat_from sectors addr)) size)
    where
      in_first :
          (addr j : ℕ)
          → j < 512 - addr % 512
          → sectors (addr / 512) (addr % 512 + j) ≡ flat sectors (addr + j)
      in_first addr j h =
          let q : (addr + j) / 512 ≡ addr / 512 = omega (arith, h) in
          let r : (addr + j) % 512 ≡ addr % 512 + j = omega (arith, h) in rw (q, r) refl

      in_last :
          (addr n sector j : ℕ)
          → j < 512
          → addr + n ≡ sector * 512
          → sectors sector j ≡ flat sectors (addr + (n + j))
      in_last addr n sector j h e =
          let q : (addr + (n + j)) / 512 ≡ sector = omega (arith, h, e) in
          let r : (addr + (n + j)) % 512 ≡ j = omega (arith, h, e) in rw (q, r) refl
