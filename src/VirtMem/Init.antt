-- ===== src/VirtMem/Init.antt =====
-- The address space that `X86VirtMemMgrInit` makes for the kernel.
use vv4os.Base.{
  ℕ, ◌+◌, ◌-◌, ◌*◌, ◌^◌, ◌≤◌, ◌<◌, ◌≡◌, refl, sym, ◌∙◌, ◌⊎◌, inl, inr, true, false, arith, ap, ◌==◌,
  if◌then◌else◌, Bool-cases, u32,
}
use vv4os.Bitmap.Laws.{in_range}
use vv4os.PhysMem.{kernel_frames, kernel_len}
use vv4os.PhysMem.Laws.{IsFrameMap}
use vv4os.VirtMem.Entry.{
  Pte, IsPde, encode_pte, decode_pte, decode_pde, decode_pte-encode_pte, decode_pde-encode_pde,
  zero_pte, zero_pde,
}
use vv4os.VirtMem.State.{Space, done, kernel_pte}
use vv4os.VirtMem.Ops.{all_pages, frame_pte, kernel_static_mem_start}
use vv4os.VirtMem.Spaces.{
  map_range, init_pde_loop, clear_words, kernel_pde, switch_page_directory, virt_mem_mgr_init,
}
use vv4os.VirtMem.Pages.{frame_pte-IsPte, zero_pte-absent}
use vv4os.VirtMem.Walk.{IsKernel}
use vv4os.VirtMem.Words.{
  IsWritten, range_entry, map_range-Writes, directory_word, init_pde_loop-IsWritten,
}

-- The entry of page `p`, where the kernel has `n` frames: the first MiB but page 0 is mapped to
-- itself, not cached, and the kernel's half to the frames of the image from frame 1 on.
abbrev pub initial_pte : (n p : ℕ) → Pte
initial_pte n p =
    if in_range 0xC0001 n p
    then frame_pte ((1 + (p - 0xC0001)) * 4096) true true false
    else if in_range 1 255 p
    then frame_pte ((1 + (p - 1)) * 4096) true false false
    else zero_pte

abbrev image_frames : ℕ → ℕ
image_frames mem_end = kernel_frames (kernel_len kernel_static_mem_start mem_end)

-- The tables of the image do not overlap and lie below 4 GiB.
pub record IsImage (s : Space) : Type 0 where
  pub disjoint :
      (s.directory_base + 1024 ≤ s.table_base) ⊎ (s.table_base + all_pages ≤ s.directory_base)
  pub small : s.table_base + all_pages ≤ 2 ^ 30

init_steps :
    {s3 s4 s5 : Space} (s : Space) (mem_end : ℕ)
    → init_pde_loop 1024 0 (record s {
      ram = clear_words (clear_words s.ram s.directory_base 1024) s.table_base all_pages;
    })
      ≡ s3
    → map_range 0x1000 0x1000 255 true false false s3.kernel_page_directory s3 ≡ done tt s4
    → map_range 0xC0001000 0x1000 (image_frames mem_end) true true false s3.kernel_page_directory s4
      ≡ done tt s5
    → virt_mem_mgr_init mem_end s ≡ switch_page_directory s3.kernel_page_directory s5
unfolding virt_mem_mgr_init
init_steps s mem_end a b c = rw (a, b, c) refl

switch_kernel :
    (s : Space)
    → switch_page_directory s.kernel_page_directory s
      ≡ done tt (record s {
        current_page_directory = s.kernel_page_directory;
        cr3 = u32 (s.kernel_page_directory + 2 ^ 32 - kernel_static_mem_start);
      })
unfolding switch_page_directory
switch_kernel s =
    let e : (s.kernel_page_directory == s.kernel_page_directory) ≡ true = ground arith in rw e refl

clear_words-in :
    (ram : ℕ → ℕ) (first n a : ℕ) → first ≤ a → a < first + n → clear_words ram first n a ≡ 0
unfolding clear_words
clear_words-in ram first n a lo hi = ground arith

kernel_pde-IsPde : (t : ℕ) → t < 2 ^ 30 → IsPde (kernel_pde t)
unfolding kernel_pde zero_pde decode_pde
kernel_pde-IsPde t h = record {
  zero_small = omega arith;
  ignored_small = omega arith;
  available_small = omega arith;
  table_small = omega arith;
}

module _ (s : Space) (n : ℕ) (image : IsImage s) (fits : n ≤ 0x3FFFE) (r3 r4 r5 : ℕ → ℕ)
    (entries : IsWritten
      (clear_words (clear_words s.ram s.directory_base 1024) s.table_base all_pages)
      (s.directory_base + 0)
      1024
      (directory_word s.table_base s.directory_base)
      r3)
    (low : IsWritten r3 (s.table_base + 1) 255 (range_entry s.table_base 1 1 true false false) r4)
    (high : IsWritten r4
      (s.table_base + 0xC0001)
      n
      (range_entry s.table_base 0xC0001 1 true true false)
      r5) where
  outside :
      (p : ℕ) → p < all_pages → in_range (s.directory_base + 0) 1024 (s.table_base + p) ≡ false
  outside p h = elim image.disjoint [ inl a ↦ ground arith | inr a ↦ ground arith ]

  cleared_word : (p : ℕ) → p < all_pages → r3 (s.table_base + p) ≡ 0
  cleared_word p h =
      entries (s.table_base + p)
      ∙ rw (outside p h) (
          clear_words-in (clear_words s.ram s.directory_base 1024) s.table_base all_pages
            (s.table_base + p) (omega arith) (omega arith))

  initial_word :
      (p : ℕ)
      → p < all_pages
      → r5 (s.table_base + p) ≡ (
          if in_range 0xC0001 n p
          then encode_pte (frame_pte ((1 + (p - 0xC0001)) * 4096) true true false)
          else if in_range 1 255 p
          then encode_pte (frame_pte ((1 + (p - 1)) * 4096) true false false)
          else 0)
  initial_word p h =
      let i : s.table_base + p - (s.table_base + 0xC0001) ≡ p - 0xC0001 = omega arith in
      let j : s.table_base + p - (s.table_base + 1) ≡ p - 1 = omega arith in
      let a : in_range (s.table_base + 0xC0001) n (s.table_base + p) ≡ in_range 0xC0001 n p =
        ground arith in
      let b : in_range (s.table_base + 1) 255 (s.table_base + p) ≡ in_range 1 255 p =
        ground arith in
      rw (high (s.table_base + p), a, low (s.table_base + p), b, cleared_word p h, i, j) refl

  pub initial_entry : (p : ℕ) → p < all_pages → decode_pte (r5 (s.table_base + p)) ≡ initial_pte n p
  unfolding zero_pte
  initial_entry p h = ap decode_pte (initial_word p h) ∙ elim (Bool-cases (in_range 0xC0001 n p)) [
    | inl a ↦ rw a (
        decode_pte-encode_pte (frame_pte ((1 + (p - 0xC0001)) * 4096) true true false)
          (frame_pte-IsPte ((1 + (p - 0xC0001)) * 4096) true true false (omega (arith, h))))
    | inr a ↦ elim (Bool-cases (in_range 1 255 p)) [
      | inl b ↦
          rw (a, b)
            (decode_pte-encode_pte (frame_pte ((1 + (p - 1)) * 4096) true false false)
              (frame_pte-IsPte ((1 + (p - 1)) * 4096) true false false (omega (arith, h))))
      | inr b ↦ rw (a, b) refl
    ]
  ]

  -- A word of a page that is not mapped is zero.
  pub initial_clean :
      (p : ℕ) → p < all_pages → (initial_pte n p).present ≡ false → r5 (s.table_base + p) ≡ 0
  unfolding frame_pte
  initial_clean p h absent = elim (Bool-cases (in_range 0xC0001 n p)) [
    | inl a ↦ absurd (ground (arith, rw a at absent))
    | inr a ↦ elim (Bool-cases (in_range 1 255 p)) [
      | inl b ↦ absurd (ground (arith, rw (a, b) at absent))
      | inr b ↦ initial_word p h ∙ rw (a, b) refl
    ]
  ]

  initial_pde :
      (i : ℕ)
      → i < 1024
      → decode_pde (r5 (s.directory_base + i)) ≡ kernel_pde (s.table_base + i * 1024)
  initial_pde i h =
      let e : s.directory_base + i - s.directory_base ≡ i = omega arith in
      let a : in_range (s.table_base + 0xC0001) n (s.directory_base + i) ≡ false =
        elim image.disjoint [ inl a ↦ ground arith | inr a ↦ ground arith ] in
      let b : in_range (s.table_base + 1) 255 (s.directory_base + i) ≡ false = elim image.disjoint [
        | inl a ↦ ground arith
        | inr a ↦ ground arith
      ] in
      let c : in_range (s.directory_base + 0) 1024 (s.directory_base + i) ≡ true = ground arith in
      ap decode_pde (
        rw
          (
            high (s.directory_base + i),
            a,
            low (s.directory_base + i),
            b,
            entries (s.directory_base + i),
            c,
            e,
          )
          refl)
      ∙ decode_pde-encode_pde (kernel_pde (s.table_base + i * 1024))
          (kernel_pde-IsPde (s.table_base + i * 1024) (omega (arith, image.small, h)))

-- The state after the call.
pub record IsInitial (s : Space) (n : ℕ) (t : Space) : Type 0 where
  pub pages : (p : ℕ) → p < all_pages → kernel_pte t p ≡ initial_pte n p
  pub entries :
      (i : ℕ)
      → i < 1024
      → decode_pde (t.ram (s.directory_base + i)) ≡ kernel_pde (s.table_base + i * 1024)
  pub current : t.current_page_directory ≡ t.kernel_page_directory
  pub kernel : IsKernel t
  pub same_kernel : t.kernel_page_directory ≡ s.kernel_page_directory

initial-HasScratch : (n p : ℕ) → n ≤ 0x3FFFE → p ≡ 0xFFFFF → (initial_pte n p).present ≡ false
initial-HasScratch n p fits e =
    let a : in_range 0xC0001 n p ≡ false = ground arith in
    let b : in_range 1 255 p ≡ false = ground arith in rw (a, b) zero_pte-absent

-- If the image ends with at least one page left in the address space and lies in the dead zone of
-- the frame map, initialisation ends without a fault. It maps the first MiB but page 0 to itself,
-- and the kernel's half to the frames from frame 1 on, up to the end of the image; every other page
-- is not mapped. The directory lists all the tables, it is the current one, and the state is the
-- well-formed one that the other operations rely on.
pub virt_mem_mgr_init-IsInitial :
    (s : Space) (mem_end : ℕ)
    → IsImage s
    → image_frames mem_end ≤ 0x3FFFE
    → IsFrameMap s.frames
    → s.table_base + all_pages ≤ s.frames.dead_zone * 1024
    → (t : Space) × (virt_mem_mgr_init mem_end s ≡ done tt t) × IsInitial s (image_frames mem_end) t
unfolding kernel_pte
virt_mem_mgr_init-IsInitial s mem_end image fits map dead =
    let n = image_frames mem_end in
    let s2 = record s {
      ram = clear_words (clear_words s.ram s.directory_base 1024) s.table_base all_pages;
    } in
    let (r3, runs3, is3) = init_pde_loop-IsWritten 1024 0 s2 in
    let (r4, runs4, is4) =
      map_range-Writes 1 1 true false false s.kernel_page_directory (omega arith) 255
        (record s { ram = r3 }) refl (omega arith) (omega arith) in
    let (r5, runs5, is5) =
      map_range-Writes 0xC0001 1 true true false s.kernel_page_directory (omega arith) n
        (record s { ram = r4 }) refl (omega (arith, fits)) (omega (arith, fits)) in
    let page_at = initial_entry s n image fits r3 r4 r5 is3 is4 is5 in
    let t = record s {
      ram = r5;
      current_page_directory = s.kernel_page_directory;
      cr3 = u32 (s.kernel_page_directory + 2 ^ 32 - kernel_static_mem_start);
    } in
    (
      t,
      init_steps s mem_end runs3 runs4 runs5 ∙ switch_kernel (record s { ram = r5 }),
      record {
        pages = page_at;
        entries = initial_pde s n image fits r3 r4 r5 is3 is4 is5;
        current = refl;
        kernel = record {
          frame_map = map;
          image = dead;
          clean = λ p h free.
              initial_clean s n image fits r3 r4 r5 is3 is4 is5 p h
                (ap (λ e. e.present) (sym (page_at p h)) ∙ free);
          scratch = (
            0xFFFFF,
            omega arith,
            omega arith,
            ap (λ e. e.present) (page_at 0xFFFFF (omega arith))
                ∙ initial-HasScratch n 0xFFFFF fits refl,
          );
        };
        same_kernel = refl;
      },
    )
