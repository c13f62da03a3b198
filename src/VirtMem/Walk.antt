-- ===== src/VirtMem/Walk.antt =====
-- An address space as the processor walks it, and that `GetPte` reads the same entry and leaves the
-- memory as it was.
use vv4os.Base.{
  ℕ, ◌+◌, ◌*◌, ◌/◌, ◌%◌, ◌^◌, ◌≤◌, ◌<◌, ◌≡◌, refl, ◌≢◌, inl, inr, true, false, arith, u32,
  Bool-cases, ◌==◌, if◌then◌else◌, ◌∙◌, some,
}
use vv4os.PhysMem.Laws.{IsFrameMap, in_use}
use vv4os.VirtMem.Entry.{Pte, Pde, virtual_addr, decode_pte, decode_pde, zero_pte}
use vv4os.VirtMem.State.{Space, done, page, kernel_pte, translate}
use vv4os.VirtMem.Ops.{all_pages, load_pde, get_pte, read_entry}
use vv4os.VirtMem.Pages.{page_lem, translate-present}
use vv4os.VirtMem.Scratch.{kernel_used, HasScratch, IsClean}
use vv4os.VirtMem.Through.{load-translate, read_entry_lem}

unfoldable pub frame_of : Space → ℕ → ℕ
frame_of s dir = (kernel_pte s (page dir)).page_frame_addr

-- Entry `i` of the directory at `dir`, and the entry of the table below it for an address.
unfoldable pub pde_of : Space → ℕ → ℕ → Pde
pde_of s dir i = decode_pde (s.ram (frame_of s dir * 1024 + i))

unfoldable pub entry_word : Space → (dir v : ℕ) → ℕ
entry_word s dir v =
    (pde_of s dir (virtual_addr v).directory_entry).page_table_addr * 1024
    + (virtual_addr v).table_entry

unfoldable pub walk : Space → (dir v : ℕ) → Pte
walk s dir v =
    if (pde_of s dir (virtual_addr v).directory_entry).present
    then decode_pte (s.ram (entry_word s dir v))
    else zero_pte

-- The kernel's own tables: they lie in the dead zone of the frame map, some page of the kernel's
-- half is free, and the entry of a free page is zero.
pub record IsKernel (s : Space) : Type 0 where
  pub frame_map : IsFrameMap s.frames
  pub image : s.table_base + all_pages ≤ s.frames.dead_zone * 1024
  pub clean : IsClean s
  pub scratch : HasScratch s

abbrev pub user_pdes : ℕ
user_pdes = 768

-- A frame that the allocator gave away.
pub record IsOwned (s : Space) (f : ℕ) : Type 0 where
  pub above : s.frames.dead_zone ≤ f
  pub taken : in_use s.frames f ≡ true

-- The directory of a process: a page of the kernel, whose frame and whose tables for the lower part
-- of memory are frames that the allocator gave away, all different.
pub record IsProcess (s : Space) (dir : ℕ) : Type 0 where
  pub other : dir ≢ s.kernel_page_directory
  pub small : dir < 2 ^ 32
  pub aligned : dir % 4096 ≡ 0
  pub mapped : kernel_used s (page dir) ≡ true
  pub owned : IsOwned s (frame_of s dir)
  pub tables :
      (i : ℕ)
      → i < user_pdes
      → (pde_of s dir i).present ≡ true
      → IsOwned s (pde_of s dir i).page_table_addr
  pub apart :
      (i : ℕ)
      → i < user_pdes
      → (pde_of s dir i).present ≡ true
      → (pde_of s dir i).page_table_addr ≢ frame_of s dir
  pub distinct :
      (i j : ℕ)
      → i < user_pdes
      → j < user_pdes
      → (pde_of s dir i).present ≡ true
      → (pde_of s dir j).present ≡ true
      → (pde_of s dir i).page_table_addr ≡ (pde_of s dir j).page_table_addr
      → i ≡ j

abbrev pub IsUser : ℕ → Type 0
IsUser v = (virtual_addr v).directory_entry < user_pdes

pub table-lt : (s : Space) (dir i : ℕ) → (pde_of s dir i).page_table_addr < 2 ^ 20
unfolding decode_pde pde_of
table-lt s dir i = omega arith

pub directory_entry-lt : (v : ℕ) → (virtual_addr v).directory_entry < 1024
unfolding virtual_addr
directory_entry-lt v = omega arith

pub table_entry-lt : (v : ℕ) → (virtual_addr v).table_entry < 1024
unfolding virtual_addr
table_entry-lt v = omega arith

module _ (s : Space) (dir : ℕ) (p : IsProcess s dir) where
  pub pde-translate :
      (i : ℕ) → i < 1024 → translate s (u32 (dir + 4 * i)) ≡ some (frame_of s dir * 1024 + i)
  unfolding frame_of
  pde-translate i h =
      let exact : u32 (dir + 4 * i) ≡ dir + 4 * i = omega (arith, p.small, p.aligned) in
      let offset : (dir + 4 * i) % 4096 / 4 ≡ i = omega (arith, p.aligned) in
      let same : page (dir + 4 * i) ≡ page dir =
        omega (arith, page_lem (dir + 4 * i), page_lem dir, p.aligned) in
      rw exact (translate-present s (dir + 4 * i) (rw same p.mapped) ∙ rw (same, offset) refl)

  pub load_pde-walk :
      (v : ℕ) → load_pde dir v s ≡ done (pde_of s dir (virtual_addr v).directory_entry) s
  unfolding load_pde pde_of
  load_pde-walk v =
      rw
        (load-translate s (u32 (dir + 4 * (virtual_addr v).directory_entry))
          (frame_of s dir * 1024 + (virtual_addr v).directory_entry)
          (pde-translate (virtual_addr v).directory_entry (directory_entry-lt v)))
        refl

-- The words of an owned frame are outside the table of the kernel.
pub owned-apart :
    {s : Space} (f i q : ℕ)
    → IsKernel s
    → s.frames.dead_zone ≤ f
    → q < all_pages
    → f * 1024 + i ≢ s.table_base + q
owned-apart f i q k above below e = omega (arith, k.image, above, below, e)

module _ (s : Space) (dir v : ℕ) (p : IsProcess s dir) where
  not_kernel : (dir == s.kernel_page_directory) ≡ false
  not_kernel = ground (arith, p.other)

  get_pte-absent :
      (pde : Pde)
      → load_pde dir v s ≡ done pde s
      → pde.present ≡ false
      → get_pte v dir s ≡ done zero_pte s
  unfolding get_pte
  get_pte-absent pde loads absent = rw (not_kernel, loads, absent) refl

  pub get_pte-present :
      (pde : Pde)
      → load_pde dir v s ≡ done pde s
      → pde.present ≡ true
      → get_pte v dir s
        ≡ read_entry (u32 (pde.page_table_addr * 2 ^ 12)) (virtual_addr v).table_entry s
  unfolding get_pte
  get_pte-present pde loads present = rw (not_kernel, loads, present) refl

module _ (s : Space) (dir v : ℕ) (k : IsKernel s) (p : IsProcess s dir) (user : IsUser v) where
  read_entry-entry_word :
      (pde_of s dir (virtual_addr v).directory_entry).present ≡ true
      → read_entry
          (u32 ((pde_of s dir (virtual_addr v).directory_entry).page_table_addr * 2 ^ 12))
          (virtual_addr v).table_entry
          s
        ≡ done (decode_pte (s.ram (entry_word s dir v))) s
  unfolding entry_word
  read_entry-entry_word present =
      read_entry_lem s (pde_of s dir (virtual_addr v).directory_entry).page_table_addr
        (virtual_addr v).table_entry k.scratch k.clean
        (table-lt s dir (virtual_addr v).directory_entry) (table_entry-lt v)
        (λ q _ below.
          owned-apart (pde_of s dir (virtual_addr v).directory_entry).page_table_addr
            (virtual_addr v).table_entry q k
            (p.tables (virtual_addr v).directory_entry user present).above below)

  -- In the directory of a process, `GetPte` returns the entry that the processor finds for the
  -- address, and leaves the memory, the frame map and the kernel's page table as they were, although
  -- it maps the table to a page of the kernel and unmaps it again.
  pub get_pte-walk : get_pte v dir s ≡ done (walk s dir v) s
  unfolding walk
  get_pte-walk = elim (Bool-cases (pde_of s dir (virtual_addr v).directory_entry).present) [
    | inl present ↦ rw present (
        get_pte-present s dir v p (pde_of s dir (virtual_addr v).directory_entry)
          (load_pde-walk s dir p v) present
        ∙ read_entry-entry_word present)
    | inr absent ↦ rw absent (
        get_pte-absent s dir v p (pde_of s dir (virtual_addr v).directory_entry)
          (load_pde-walk s dir p v) absent)
  ]
