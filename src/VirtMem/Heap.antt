-- ===== src/VirtMem/Heap.antt =====
-- `X86AllocateContiguousVirtualFrames` while the directory of the kernel is current, as the kernel's
-- heap calls it.
use vv4os.Base.{
  ℕ, zero, suc, ◌+◌, ◌*◌, ◌≤◌, ◌<◌, ◌≡◌, refl, sym, ◌∙◌, ◌≢◌, Bool, true, false, arith, ap, subst,
  ◌==◌, u32,
}
use vv4os.Bitmap.{Bitmap}
use vv4os.VirtMem.Entry.{Pte, encode_pte}
use vv4os.VirtMem.State.{Space, Outcome, done, page, kernel_pte}
use vv4os.VirtMem.Ops.{
  all_pages, get_pte, set_pte, get_kernel_pte, set_kernel_pte, map_frame, frame_pte, phys_allocate,
}
use vv4os.VirtMem.Spaces.{allocate_loop}
use vv4os.VirtMem.Pages.{poke, page-multiple}
use vv4os.VirtMem.Scratch.{map_frame_by-set}
use vv4os.VirtMem.Fresh.{phys_allocate-done}
use vv4os.VirtMem.Backed.{IsBacked, allocate-IsTake, backing}
use vv4os.VirtMem.Range.{extended, extended-IsBacked}

module _ (s : Space) (dir v : ℕ) (kernel : dir ≡ s.kernel_page_directory) where
  is_kernel : (dir == s.kernel_page_directory) ≡ true
  is_kernel = ground arith

  pub get_pte-kernel : get_pte v dir s ≡ done (kernel_pte s (page v)) s
  unfolding get_pte get_kernel_pte
  get_pte-kernel = rw is_kernel refl

  pub set_pte-kernel :
      (pte : Pte) → set_pte v dir pte s ≡ done tt (poke s (s.table_base + page v) (encode_pte pte))
  unfolding set_pte set_kernel_pte
  set_pte-kernel pte = rw is_kernel refl

  pub map_frame-kernel :
      (phys : ℕ) (writable cached user : Bool)
      → page v ≢ 0
      → map_frame v phys writable cached user dir s
        ≡ done tt
            (poke s (s.table_base + page v) (encode_pte (frame_pte phys writable cached user)))
  unfolding map_frame
  map_frame-kernel phys writable cached user ne =
      ap (λ m. m s) (map_frame_by-set (λ w e. set_pte w dir e) v phys writable cached user ne)
      ∙ set_pte-kernel (frame_pte phys writable cached user)

allocate_step :
    {s1 s2 : Space} (s : Space) (n k base phys : ℕ)
    → phys_allocate s ≡ done phys s1
    → map_frame (u32 (base + u32 (k * 0x1000))) phys true true false s1.current_page_directory s1
      ≡ done tt s2
    → allocate_loop (suc n) k base s ≡ allocate_loop n (k + 1) base s2
unfolding allocate_loop
allocate_step s n k base phys a b = rw (a, b) refl

pub page_in_range :
    (q k : ℕ) → q + k < all_pages → u32 (q * 0x1000 + u32 (k * 0x1000)) ≡ (q + k) * 0x1000
page_in_range q k h = omega (arith, h)

abbrev pub IsKernelCurrent : Space → Type 0
IsKernelCurrent s = s.current_page_directory ≡ s.kernel_page_directory

abbrev Backs : Space → (q n : ℕ) → Outcome (Unit {0}) → Type 0
Backs s q n o = (t : Space) × (o ≡ done tt t) × IsBacked s q n t

module _ (s : Space) (q : ℕ) (pos : 0 < q) (current : IsKernelCurrent s) where
  allocate_page :
      (n k f : ℕ) (b : Bitmap) (t : Space)
      → (bk : IsBacked s q k t) → q + k < all_pages
      → phys_allocate t ≡ done (f * 4096) (record t { frames = b })
      → allocate_loop (suc n) k (q * 0x1000) t
        ≡ allocate_loop n
            (k + 1)
            (q * 0x1000)
            (poke (record t { frames = b }) (t.table_base + (q + k)) (encode_pte (backing f)))
  allocate_page n k f b t bk inside takes =
      let addr = page_in_range q k inside in
      let at_page : page (u32 (q * 0x1000 + u32 (k * 0x1000))) ≡ q + k =
        ap page addr ∙ page-multiple (q + k) inside in
      allocate_step t n k (q * 0x1000) (f * 4096) takes (
        map_frame-kernel (record t { frames = b }) t.current_page_directory
          (u32 (q * 0x1000 + u32 (k * 0x1000))) (bk.same_current ∙ current ∙ sym bk.same_kernel)
          (f * 4096) true true false (λ z. omega (arith, at_page, z, pos))
        ∙ ap
            (λ p.
              done tt (poke (record t { frames = b }) (t.table_base + p) (encode_pte (backing f))))
            at_page)

  pub allocate_loop-IsBacked :
      (n k : ℕ) (t : Space)
      → IsBacked s q k t
      → q + (k + n) ≤ all_pages
      → Backs s q (k + n) (allocate_loop n k (q * 0x1000) t)
  unfolding allocate_loop extended
  allocate_loop-IsBacked zero k t bk fits =
      let e : k ≡ k + 0 = omega arith in (t, refl, subst (λ m. IsBacked s q m t) e bk)
  allocate_loop-IsBacked (suc n) k t bk fits =
      let (f, b, takes, small, take, map) = allocate-IsTake t.frames bk.frame_map in
      let inside : q + k < all_pages = omega (arith, fits) in
      let bk' = extended-IsBacked s t q k f b bk small take map inside in
      let (t', runs, is) =
        allocate_loop-IsBacked n (k + 1) (extended s t q k f b bk small take map inside) bk'
          (omega (arith, fits)) in
      let e : k + 1 + n ≡ k + suc n = omega arith in
      (
        t',
        allocate_page n k f b t bk inside (phys_allocate-done t (f * 4096) b takes) ∙ runs,
        subst (λ m. IsBacked s q m t') e is,
      )
