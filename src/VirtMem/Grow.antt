-- ===== src/VirtMem/Grow.antt =====
-- `CreatePageTable`: a process gets an empty table in a frame that was free, and its address space
-- stays as it is.
use vv4os.Base.{
  ℕ, ◌+◌, ◌*◌, ◌/◌, ◌^◌, ◌≤◌, ◌<◌, ◌≡◌, refl, sym, ◌∙◌, ◌≢◌, true, false, arith, ap, ◌==◌, inl, inr,
  Bool-cases, ==_iff, some, u32,
}
use vv4os.Bitmap.{Bitmap}
use vv4os.PhysMem.Laws.{in_use}
use vv4os.PhysMem.{phys_allocate_frame}
use vv4os.VirtMem.Entry.{
  IsPde, virtual_addr, encode_pde, decode_pte, decode_pde, decode_pde-encode_pde, zero_pte,
  zero_pde,
}
use vv4os.VirtMem.State.{Space, done, kernel_pte, clear_frame, write_word}
use vv4os.VirtMem.Ops.{
  all_pages, phys_allocate, allocate_map, clear_page, unmap_kernel_frame, create_page_table,
  table_pde,
}
use vv4os.VirtMem.Pages.{put-at, put-other, poke}
use vv4os.VirtMem.Scratch.{allocate_map-maps}
use vv4os.VirtMem.Through.{store-translate}
use vv4os.VirtMem.Walk.{
  IsKernel, IsProcess, IsOwned, IsUser, frame_of, pde_of, entry_word, walk, directory_entry-lt,
  table_entry-lt, pde-translate,
}
use vv4os.VirtMem.Frame.{
  with_memory, frame_of-same, memory-IsKernel, same-IsProcess, grown-IsProcess, kernel_pte-same,
}
use vv4os.VirtMem.Fresh.{IsFresh, IsFresh-kept, IsFresh-taken, phys_allocate-done}
use vv4os.VirtMem.Supply.{IsOneTaken, IsFresh-IsOneTaken}
use vv4os.VirtMem.Clear.{
  clear_frame-in, clear_frame-off, clear_frame-below, clear-with_map, unmap-cleared,
}

-- `s'` is `s` with a table for the address, and the process sees the same pages.
pub record IsGrown (s : Space) (dir v : ℕ) (s' : Space) : Type 0 where
  pub kernel : IsKernel s'
  pub process : IsProcess s' dir
  pub present : (pde_of s' dir (virtual_addr v).directory_entry).present ≡ true
  pub entries : (u : ℕ) → IsUser u → walk s' dir u ≡ walk s dir u
  pub kernel_same : (p : ℕ) → p < all_pages → kernel_pte s' p ≡ kernel_pte s p
  pub kept : (f : ℕ) → s.frames.dead_zone ≤ f → in_use s.frames f ≡ true → in_use s'.frames f ≡ true
  pub same_dead : s'.frames.dead_zone ≡ s.frames.dead_zone
  pub one : IsOneTaken s.frames s'.frames
  pub reserved : (a : ℕ) → a < s.frames.dead_zone * 1024 → s'.ram a ≡ s.ram a
  pub same_directory : s'.directory_base ≡ s.directory_base

table_pde-IsPde : (phys : ℕ) → phys < 2 ^ 32 → IsPde (table_pde phys)
unfolding table_pde zero_pde decode_pde
table_pde-IsPde phys h = record {
  zero_small = omega arith;
  ignored_small = omega arith;
  available_small = omega arith;
  table_small = omega arith;
}

create_steps :
    {s1 s2 s3 s4 s5 : Space} (s : Space) (v dir phys virt : ℕ)
    → phys_allocate s ≡ done phys s1
    → allocate_map phys s1 ≡ done virt s2
    → clear_page virt s2 ≡ done tt s3
    → unmap_kernel_frame virt s3 ≡ done tt s4
    → write_word (u32 (dir + 4 * (virtual_addr v).directory_entry)) (encode_pde (table_pde phys)) s4
      ≡ done tt s5
    → create_page_table v dir s ≡ done tt s5
unfolding create_page_table
create_steps s v dir phys virt a b c d e = rw (a, b, c, d) e

module _ (s : Space) (dir v f : ℕ) (b : Bitmap) (k : IsKernel s) (p : IsProcess s dir)
    (user : IsUser v) (absent : (pde_of s dir (virtual_addr v).directory_entry).present ≡ false)
    (fresh : IsFresh s.frames f b) where
  -- The memory with the frame cleared, and then with the entry of the directory.
  empty : Space
  empty = with_memory s (clear_frame s.ram f) b

  slot : ℕ
  slot = frame_of s dir * 1024 + (virtual_addr v).directory_entry

  pub grown : Space
  grown = poke empty slot (encode_pde (table_pde (f * 4096)))

  not_fresh : (g : ℕ) → IsOwned s g → g ≢ f
  not_fresh g o e =
      let contra : true ≡ false = sym o.taken ∙ ap (in_use s.frames) e ∙ fresh.free in
      absurd (ground arith)

  empty-words : (q : ℕ) → q < all_pages → empty.ram (s.table_base + q) ≡ s.ram (s.table_base + q)
  unfolding empty
  empty-words q h =
      clear_frame-below s.ram f (s.table_base + q) (omega (arith, k.image, fresh.above))

  grown-words : (q : ℕ) → q < all_pages → grown.ram (s.table_base + q) ≡ s.ram (s.table_base + q)
  unfolding grown slot empty
  grown-words q h =
      put-other (clear_frame s.ram f) slot (encode_pde (table_pde (f * 4096))) (s.table_base + q)
        (λ e. omega (arith, k.image, p.owned.above, h, e))
      ∙ clear_frame-below s.ram f (s.table_base + q) (omega (arith, k.image, fresh.above))

  empty-pde : (i : ℕ) → i < 1024 → pde_of empty dir i ≡ pde_of s dir i
  unfolding empty pde_of
  empty-pde i h = rw (frame_of-same s (clear_frame s.ram f) b empty-words dir) (
      ap decode_pde
        (clear_frame-off s.ram f (frame_of s dir) i h (not_fresh (frame_of s dir) p.owned)))

  empty-IsProcess : IsProcess empty dir
  unfolding empty
  empty-IsProcess =
      same-IsProcess s (clear_frame s.ram f) b empty-words dir fresh.same_dead (IsFresh-kept fresh)
        p (λ i h. empty-pde i (omega arith))

  grown-frame_of : frame_of grown dir ≡ frame_of s dir
  unfolding grown empty
  grown-frame_of = frame_of-same s grown.ram b grown-words dir

  grown-slot : grown.ram slot ≡ encode_pde (table_pde (f * 4096))
  unfolding grown empty
  grown-slot = put-at (clear_frame s.ram f) slot (encode_pde (table_pde (f * 4096)))

  grown-pde_at : pde_of grown dir (virtual_addr v).directory_entry ≡ table_pde (f * 4096)
  unfolding pde_of slot
  grown-pde_at = rw grown-frame_of (
      ap decode_pde grown-slot
      ∙ decode_pde-encode_pde (table_pde (f * 4096))
          (table_pde-IsPde (f * 4096) (omega (arith, fresh.below))))

  grown-pde_off :
      (i : ℕ)
      → i < 1024
      → i ≢ (virtual_addr v).directory_entry
      → pde_of grown dir i ≡ pde_of s dir i
  unfolding pde_of grown slot empty
  grown-pde_off i h ne = rw grown-frame_of (
      ap decode_pde (
        put-other (clear_frame s.ram f) slot (encode_pde (table_pde (f * 4096)))
          (frame_of s dir * 1024 + i) (λ e. ne (omega (arith, e)))
        ∙ clear_frame-off s.ram f (frame_of s dir) i h (not_fresh (frame_of s dir) p.owned)))

  table_at : (pde_of grown dir (virtual_addr v).directory_entry).page_table_addr ≡ f
  unfolding table_pde
  table_at = ap (λ e. e.page_table_addr) grown-pde_at ∙ omega arith

  present_at : (pde_of grown dir (virtual_addr v).directory_entry).present ≡ true
  unfolding table_pde
  present_at = ap (λ e. e.present) grown-pde_at

  grown-IsKernel : IsKernel grown
  unfolding grown empty
  grown-IsKernel = memory-IsKernel s grown.ram b grown-words fresh.frame_map fresh.same_dead k

  grown_dir-IsProcess : IsProcess grown dir
  unfolding grown empty
  grown_dir-IsProcess =
      grown-IsProcess s grown.ram b grown-words dir fresh.same_dead (IsFresh-kept fresh) p
        (virtual_addr v).directory_entry f
        (record {
          above = omega (arith, fresh.same_dead, fresh.above);
          taken = IsFresh-taken fresh;
        })
        fresh.free absent table_at (λ i h ne. grown-pde_off i (omega arith) ne)

  -- A word of a frame other than the directory's and the new table's is the same.
  word_off :
      (g i : ℕ)
      → i < 1024
      → g ≢ f
      → g ≢ frame_of s dir
      → grown.ram (g * 1024 + i) ≡ s.ram (g * 1024 + i)
  unfolding grown slot empty
  word_off g i h ne nd =
      put-other (clear_frame s.ram f) slot (encode_pde (table_pde (f * 4096))) (g * 1024 + i)
        (λ e. nd (omega (arith, e, directory_entry-lt v)))
      ∙ clear_frame-off s.ram f g i h ne

  word_in : (i : ℕ) → i < 1024 → grown.ram (f * 1024 + i) ≡ 0
  unfolding grown slot empty
  word_in i h =
      put-other (clear_frame s.ram f) slot (encode_pde (table_pde (f * 4096))) (f * 1024 + i)
        (λ e. not_fresh (frame_of s dir) p.owned (omega (arith, e, directory_entry-lt v)))
      ∙ clear_frame-in s.ram f i h

  walk_at :
      (u : ℕ)
      → (virtual_addr u).directory_entry ≡ (virtual_addr v).directory_entry
      → walk grown dir u ≡ walk s dir u
  unfolding walk entry_word zero_pte
  walk_at u e =
      rw (e, absent, present_at, table_at, word_in (virtual_addr u).table_entry (table_entry-lt u))
        refl

  walk_off :
      (u : ℕ)
      → IsUser u
      → (virtual_addr u).directory_entry ≢ (virtual_addr v).directory_entry
      → walk grown dir u ≡ walk s dir u
  unfolding walk entry_word
  walk_off u hu ne =
      let pde = grown-pde_off (virtual_addr u).directory_entry (directory_entry-lt u) ne in
      elim (Bool-cases (pde_of s dir (virtual_addr u).directory_entry).present) [
        | inl there ↦
            rw (pde, there)
              (ap decode_pte (
                word_off (pde_of s dir (virtual_addr u).directory_entry).page_table_addr
                  (virtual_addr u).table_entry (table_entry-lt u)
                  (not_fresh (pde_of s dir (virtual_addr u).directory_entry).page_table_addr
                    (p.tables (virtual_addr u).directory_entry hu there))
                  (p.apart (virtual_addr u).directory_entry hu there)))
        | inr none ↦ rw (pde, none) refl
      ]

  reserved_same : (a : ℕ) → a < s.frames.dead_zone * 1024 → grown.ram a ≡ s.ram a
  unfolding grown slot empty
  reserved_same a h =
      put-other (clear_frame s.ram f) slot (encode_pde (table_pde (f * 4096))) a
        (λ e. omega (arith, p.owned.above, h, e))
      ∙ clear_frame-below s.ram f a (omega (arith, fresh.above, h))

  pub grown-IsGrown : IsGrown s dir v grown
  unfolding grown empty
  grown-IsGrown = record {
    kernel = grown-IsKernel;
    process = grown_dir-IsProcess;
    present = present_at;
    entries = λ u hu.
        elim (Bool-cases ((virtual_addr u).directory_entry == (virtual_addr v).directory_entry)) [
          | inl here ↦
              walk_at u
                ((==_iff (virtual_addr u).directory_entry (virtual_addr v).directory_entry).0 here)
          | inr off ↦ walk_off u hu (ground arith)
        ];
    kernel_same = kernel_pte-same s grown.ram b grown-words;
    kept = IsFresh-kept fresh;
    same_dead = fresh.same_dead;
    one = IsFresh-IsOneTaken fresh;
    reserved = reserved_same;
    same_directory = refl;
  }

  -- The call makes that space.
  pub create_page_table-grown :
      phys_allocate_frame s.frames ≡ some (f * 4096, b) → create_page_table v dir s ≡ done tt grown
  unfolding grown empty slot
  create_page_table-grown e =
      let s1 = record s { frames = b } in
      let k1 : IsKernel s1 =
        memory-IsKernel s s.ram b (λ q h. refl) fresh.frame_map fresh.same_dead k in
      let (q, is, maps) = allocate_map-maps s1 (f * 4096) k1.scratch in
      let clean : s1.ram (s1.table_base + q) ≡ 0 = k1.clean q is.below is.free in
      let small : f * 4096 < 2 ^ 32 = omega (arith, fresh.below) in
      let back : f * 4096 / 4096 ≡ f = omega arith in
      create_steps s v dir (f * 4096) (q * 0x1000) (phys_allocate-done s (f * 4096) b e) maps
        (clear-with_map s1 q (f * 4096) is small clean)
        (unmap-cleared s1 q (f * 4096) is small clean
          ∙ ap (λ g. done tt (with_memory s (clear_frame s.ram g) b)) back)
        (store-translate empty (u32 (dir + 4 * (virtual_addr v).directory_entry))
            (encode_pde (table_pde (f * 4096)))
            (frame_of empty dir * 1024 + (virtual_addr v).directory_entry)
            (pde-translate empty dir empty-IsProcess (virtual_addr v).directory_entry
              (directory_entry-lt v))
          ∙ ap
              (λ g. done tt (
                poke empty (g * 1024 + (virtual_addr v).directory_entry)
                  (encode_pde (table_pde (f * 4096)))))
              (frame_of-same s (clear_frame s.ram f) b empty-words dir))
