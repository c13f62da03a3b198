-- ===== src/VirtMem/Words.antt =====
-- The words that the loops of `X86VirtMemMgrInit` write.
use vv4os.Base.{
  ℕ, zero, suc, ◌+◌, ◌-◌, ◌*◌, ◌≤◌, ◌<◌, ◌≡◌, refl, sym, ◌∙◌, ◌≢◌, inl, inr, Bool, true, false,
  arith, ap, subst, ◌==◌, if◌then◌else◌, Bool-cases, ==_iff, u32,
}
use vv4os.Bitmap.Laws.{in_range}
use vv4os.VirtMem.Entry.{encode_pte, encode_pde}
use vv4os.VirtMem.State.{Space, Outcome, done, put, page}
use vv4os.VirtMem.Ops.{all_pages, map_frame, frame_pte}
use vv4os.VirtMem.Spaces.{map_range_loop, map_range, init_pde_loop, kernel_pde}
use vv4os.VirtMem.Pages.{page-multiple, put-at, put-other, poke}
use vv4os.VirtMem.Heap.{map_frame-kernel}

-- `ram'` is `ram` but for the `n` words from `first` on, which are given by `value`.
abbrev pub IsWritten : (ℕ → ℕ) → (first n : ℕ) → (ℕ → ℕ) → (ℕ → ℕ) → Type 0
IsWritten ram first n value ram' =
    (a : ℕ) → ram' a ≡ (if in_range first n a then value a else ram a)

-- A word written before the others.
pub IsWritten-put :
    {ram' : ℕ → ℕ} (ram : ℕ → ℕ) (first n : ℕ) (value : ℕ → ℕ)
    → IsWritten (put ram first (value first)) (first + 1) n value ram'
    → IsWritten ram first (suc n) value ram'
IsWritten-put ram first n value is a = elim (Bool-cases (a == first)) [
  | inl here ↦
      let e : a ≡ first = (==_iff a first).0 here in
      let out : in_range (first + 1) n a ≡ false = ground arith in
      let within : in_range first (suc n) a ≡ true = ground arith in
      is a ∙ rw (out, within) (rw e (put-at ram first (value first)))
  | inr off ↦
      let same : in_range (first + 1) n a ≡ in_range first (suc n) a = ground arith in
      let ne : a ≢ first = ground arith in
      is a
      ∙ rw same (
          ap (λ w. if in_range first (suc n) a then value a else w)
            (put-other ram first (value first) a ne))
]

abbrev pub Writes : Space → (first n : ℕ) → (ℕ → ℕ) → Outcome (Unit {0}) → Type 0
Writes s first n value o =
    (ram : ℕ → ℕ) × (o ≡ done tt (record s { ram = ram })) × IsWritten s.ram first n value ram

-- The entry of the kernel's table in word `a` where page `vb` has frame `pb`, and so on.
abbrev pub range_entry : (table_base vb pb : ℕ) (writable cached user : Bool) → ℕ → ℕ
range_entry tb vb pb writable cached user a =
    encode_pte (frame_pte ((pb + (a - (tb + vb))) * 4096) writable cached user)

map_range_step :
    {s1 : Space} (s : Space) (n frame virt_base phys_base : ℕ) (writable cached user : Bool)
    (dir : ℕ)
    → map_frame
        (u32 (virt_base + u32 (frame * 4096)))
        (u32 (phys_base + u32 (frame * 4096)))
        writable
        cached
        user
        dir
        s
      ≡ done tt s1
    → map_range_loop (suc n) frame virt_base phys_base writable cached user dir s
      ≡ map_range_loop n (frame + 1) virt_base phys_base writable cached user dir s1
unfolding map_range_loop
map_range_step s n frame virt_base phys_base writable cached user dir a = rw a refl

module _ (vb pb : ℕ) (writable cached user : Bool) (dir : ℕ) (pos : 0 < vb) where
  map_one :
      (s : Space) (frame : ℕ)
      → dir ≡ s.kernel_page_directory
      → vb + frame < all_pages
      → pb + frame < all_pages
      → map_frame
          (u32 (vb * 4096 + u32 (frame * 4096)))
          (u32 (pb * 4096 + u32 (frame * 4096)))
          writable
          cached
          user
          dir
          s
        ≡ done tt (
            poke s
              (s.table_base + vb + frame)
              (range_entry s.table_base vb pb writable cached user (s.table_base + vb + frame)))
  map_one s frame kernel inside inside' =
      let v : u32 (vb * 4096 + u32 (frame * 4096)) ≡ (vb + frame) * 0x1000 =
        omega (arith, inside) in
      let p : u32 (pb * 4096 + u32 (frame * 4096))
          ≡ (pb + (s.table_base + vb + frame - (s.table_base + vb))) * 4096 =
        omega (arith, inside') in
      let at_page : page ((vb + frame) * 0x1000) ≡ vb + frame = page-multiple (vb + frame) inside in
      let word : s.table_base + (vb + frame) ≡ s.table_base + vb + frame = omega arith in
      ap (λ a. map_frame a (u32 (pb * 4096 + u32 (frame * 4096))) writable cached user dir s) v
      ∙ ap (λ b. map_frame ((vb + frame) * 0x1000) b writable cached user dir s) p
      ∙ map_frame-kernel s dir ((vb + frame) * 0x1000) kernel
          ((pb + (s.table_base + vb + frame - (s.table_base + vb))) * 4096) writable cached user
          (λ z. omega (arith, at_page, z, pos))
      ∙ ap
          (λ a. done tt (
            poke s a
              (range_entry s.table_base vb pb writable cached user (s.table_base + vb + frame))))
          (ap (λ x. s.table_base + x) at_page ∙ word)

  map_range_loop-Writes :
      (n frame : ℕ) (s : Space)
      → dir ≡ s.kernel_page_directory
      → vb + frame + n ≤ all_pages
      → pb + frame + n ≤ all_pages
      → Writes s
          (s.table_base + vb + frame)
          n
          (range_entry s.table_base vb pb writable cached user)
          (map_range_loop n frame (vb * 4096) (pb * 4096) writable cached user dir s)
  unfolding map_range_loop
  map_range_loop-Writes zero frame s kernel inside inside' = (s.ram, refl, λ a. ground arith)
  map_range_loop-Writes (suc n) frame s kernel inside inside' =
      let w = s.table_base + vb + frame in
      let s1 = poke s w (range_entry s.table_base vb pb writable cached user w) in
      let (ram, runs, is) =
        map_range_loop-Writes n (frame + 1) s1 kernel (omega (arith, inside))
          (omega (arith, inside')) in
      let next : s.table_base + vb + (frame + 1) ≡ w + 1 = omega arith in
      (
        ram,
        map_range_step s n frame (vb * 4096) (pb * 4096) writable cached user dir
              (map_one s frame kernel (omega (arith, inside)) (omega (arith, inside')))
            ∙ runs,
        IsWritten-put s.ram w n (range_entry s.table_base vb pb writable cached user)
            (rw next at is),
      )

  pub map_range-Writes :
      (n : ℕ) (s : Space)
      → dir ≡ s.kernel_page_directory
      → vb + n ≤ all_pages
      → pb + n ≤ all_pages
      → Writes s
          (s.table_base + vb)
          n
          (range_entry s.table_base vb pb writable cached user)
          (map_range (vb * 4096) (pb * 4096) n writable cached user dir s)
  unfolding map_range
  map_range-Writes n s kernel inside inside' =
      let start : s.table_base + vb + 0 ≡ s.table_base + vb = omega arith in
      rw start at
        (map_range_loop-Writes n 0 s kernel (omega (arith, inside)) (omega (arith, inside')))

-- The entries of the kernel's directory.
abbrev pub directory_word : (table_base directory_base : ℕ) → ℕ → ℕ
directory_word tb db a = encode_pde (kernel_pde (tb + (a - db) * 1024))

pub init_pde_loop-IsWritten :
    (n i : ℕ) (s : Space)
    → (ram : ℕ → ℕ) × (init_pde_loop n i s ≡ record s { ram = ram })
      × IsWritten s.ram (s.directory_base + i) n (directory_word s.table_base s.directory_base) ram
unfolding init_pde_loop
init_pde_loop-IsWritten zero i s = (s.ram, refl, λ a. ground arith)
init_pde_loop-IsWritten (suc n) i s =
    let w = s.directory_base + i in
    let index : w - s.directory_base ≡ i = omega arith in
    let (ram, runs, is) =
      init_pde_loop-IsWritten n (i + 1)
        (poke s w (encode_pde (kernel_pde (s.table_base + i * 1024)))) in
    let next : s.directory_base + (i + 1) ≡ w + 1 = omega arith in
    (
      ram,
      runs,
      IsWritten-put s.ram w n (directory_word s.table_base s.directory_base) (
          subst
            (λ x.
              IsWritten (put s.ram w x) (w + 1) n (directory_word s.table_base s.directory_base)
                ram)
            (ap (λ x. encode_pde (kernel_pde (s.table_base + x * 1024))) (sym index))
            (rw next at is)),
    )
