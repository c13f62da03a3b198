-- ===== src/VirtMem/HeapFree.antt =====
-- `X86FreeContiguousVirtualFrames` while the directory of the kernel is current.
use vv4os.VirtMem.Heap.{IsKernelCurrent, get_pte-kernel, set_pte-kernel, page_in_range}
use vv4os.Base.{
  ℕ, zero, suc, ◌+◌, ◌*◌, ◌^◌, ◌≤◌, ◌<◌, ◌≡◌, refl, sym, ◌∙◌, ◌≢◌, inl, inr, true, false, arith, ap,
  subst, ◌==◌, if◌then◌else◌, Bool-cases, ==_iff, u32, some, none,
}
use vv4os.Bitmap.{Bitmap}
use vv4os.Bitmap.Laws.{in_range}
use vv4os.PhysMem.{phys_free_frame}
use vv4os.PhysMem.Laws.{IsFrameMap, free-IsFrameMap}
use vv4os.VirtMem.Entry.{Pte, encode_pte, zero_pte}
use vv4os.VirtMem.State.{Space, Outcome, done, fault, page, kernel_pte, and_then}
use vv4os.VirtMem.Ops.{all_pages, get_pte, frame_pte, phys_free, unmap_frame}
use vv4os.VirtMem.Spaces.{free_page, free_loop}
use vv4os.VirtMem.Pages.{poke, page-multiple}
use vv4os.VirtMem.Backed.{IsBacked, backing, marks-one}
use vv4os.VirtMem.Release.{IsGive, nothing, given, released, released-IsBacked}

free_step :
    {s1 : Space} (s : Space) (n k base : ℕ)
    → free_page (u32 (base + u32 (k * 0x1000))) s ≡ done tt s1
    → free_loop (suc n) k base s ≡ free_loop n (k + 1) base s1
unfolding free_loop
free_step s n k base a = rw a refl

free_page-steps :
    {s1 s2 : Space} (s : Space) (v : ℕ) (pte : Pte)
    → get_pte v s.current_page_directory s ≡ done pte s
    → pte.present ≡ true
    → (if u32 (pte.page_frame_addr * 2 ^ 12) == 0
        then done tt s
        else phys_free (u32 (pte.page_frame_addr * 2 ^ 12)) s)
      ≡ done tt s1
    → unmap_frame v s.current_page_directory s1 ≡ done tt s2
    → free_page v s ≡ done tt s2
unfolding free_page
free_page-steps s v pte a present b c =
    elim (Bool-cases (u32 (pte.page_frame_addr * 2 ^ 12) == 0)) [
      | inl z ↦
          rw (a, present, z)
            (ap (λ o. and_then o (λ _. unmap_frame v s.current_page_directory)) (rw z at b) ∙ c)
      | inr nz ↦
          rw (a, present, nz)
            (ap (λ o. and_then o (λ _. unmap_frame v s.current_page_directory)) (rw nz at b) ∙ c)
    ]

-- The frame of a page is given back, unless it is frame 0.
abbrev Gives : Space → ℕ → Outcome (Unit {0}) → Type 0
Gives t f o =
    (b : Bitmap) × (o ≡ done tt (record t { frames = b })) × IsGive t.frames f b × IsFrameMap b

phys_free-done :
    (t : Space) (ptr : ℕ) (b : Bitmap)
    → phys_free_frame t.frames ptr ≡ some b
    → phys_free ptr t ≡ done tt (record t { frames = b })
unfolding phys_free
phys_free-done t ptr b e =
    ap (λ o. elim o [ none ↦ fault | some b ↦ done tt (record t { frames = b }) ]) e

give_back :
    (t : Space) (f : ℕ)
    → IsFrameMap t.frames
    → f < 2 ^ 20
    → (f ≢ 0 → (t.frames.dead_zone ≤ f) × (f < t.frames.len))
    → Gives t f (if u32 (f * 2 ^ 12) == 0 then done tt t else phys_free (u32 (f * 2 ^ 12)) t)
give_back t f m small inside =
    let exact : u32 (f * 2 ^ 12) ≡ f * 4096 = omega (arith, small) in
    rw exact (elim (Bool-cases (f == 0)) [
      | inl z ↦
          let e : (f * 4096 == 0) ≡ true = ground arith in
          rw e (t.frames, refl, nothing ((==_iff f 0).0 z) refl, m)
      | inr nz ↦
          let e : (f * 4096 == 0) ≡ false = ground arith in
          let ne : f ≢ 0 = ground arith in
          let (above, below) = inside ne in
          let (b, frees, marking, map) = free-IsFrameMap f m above below in
          rw e (
            b,
            phys_free-done t (f * 4096) b frees,
            given ne marking.same_dead marking.same_len (marks-one f false marking),
            map,
          )
    ])

abbrev Releases : Space → (q : ℕ) → Outcome (Unit {0}) → Type 0
Releases s q o = (t : Space) × (o ≡ done tt t) × IsBacked s q 0 t

pub backing-frame : (f : ℕ) → (backing f).page_frame_addr ≡ f
unfolding frame_pte
backing-frame f = omega arith

pub backing-present : (f : ℕ) → (backing f).present ≡ true
unfolding frame_pte
backing-present f = refl

-- No page from `q` to `q + n` is mapped, and their entries are zero.
abbrev pub IsUnmapped : Space → (q n : ℕ) → Type 0
IsUnmapped s q n = (p : ℕ) → q ≤ p → p < q + n → kernel_pte s p ≡ zero_pte

module _ (s : Space) (current : IsKernelCurrent s) (q n : ℕ) (t : Space)
    (bk : IsBacked s q (suc n) t) (inside : q < all_pages) (clean : kernel_pte s q ≡ zero_pte) where
  owner_small : bk.owner q < 2 ^ 20
  owner_small = elim (Bool-cases (bk.owner q == 0)) [
    | inl z ↦ ground arith
    | inr nz ↦
        let (_, below, _, _) = bk.fresh q (omega arith) (omega arith) (ground arith) in
        omega (arith, below, bk.same_len, bk.frame_map.frames)
  ]

  first_page : kernel_pte t q ≡ backing (bk.owner q)
  first_page =
      let within : in_range q (suc n) q ≡ true = ground arith in bk.pages q inside ∙ rw within refl

  gives : Gives t (bk.owner q) (
      if u32 ((backing (bk.owner q)).page_frame_addr * 2 ^ 12) == 0
      then done tt t
      else phys_free (u32 ((backing (bk.owner q)).page_frame_addr * 2 ^ 12)) t)
  gives = rw (backing-frame (bk.owner q)) (
      give_back t (bk.owner q) bk.frame_map owner_small (λ ne.
        let (above, below, _, _) = bk.fresh q (omega arith) (omega arith) ne in
        (omega (arith, bk.same_dead, above), omega (arith, bk.same_len, below))))

  free_first : (t' : Space) × (free_page (q * 0x1000) t ≡ done tt t') × IsBacked s (q + 1) n t'
  unfolding released unmap_frame
  free_first =
      let (b, frees, give, map) = gives in
      let at_page : page (q * 0x1000) ≡ q = page-multiple q inside in
      let is_current : t.current_page_directory ≡ t.kernel_page_directory =
        bk.same_current ∙ current ∙ sym bk.same_kernel in
      (
        released s t q n b bk give map inside clean,
        free_page-steps t (q * 0x1000) (backing (bk.owner q))
            (get_pte-kernel t t.current_page_directory (q * 0x1000) is_current
              ∙ ap (λ e. done e t) (ap (kernel_pte t) at_page ∙ first_page))
            (backing-present (bk.owner q)) frees
            (set_pte-kernel (record t { frames = b }) t.current_page_directory (q * 0x1000)
                is_current zero_pte
              ∙ ap
                  (λ p.
                    done tt
                      (poke (record t { frames = b }) (t.table_base + p) (encode_pte zero_pte)))
                  at_page),
        released-IsBacked s t q n b bk give map inside clean,
      )

module _ (s : Space) (q : ℕ) (current : IsKernelCurrent s) where
  pub free_loop-Releases :
      (n k : ℕ) (t : Space)
      → IsBacked s (q + k) n t
      → q + (k + n) ≤ all_pages
      → IsUnmapped s (q + k) n
      → Releases s (q + (k + n)) (free_loop n k (q * 0x1000) t)
  unfolding free_loop
  free_loop-Releases zero k t bk fits clean =
      let e : q + k ≡ q + (k + 0) = omega arith in (t, refl, subst (λ m. IsBacked s m 0 t) e bk)
  free_loop-Releases (suc n) k t bk fits clean =
      let inside : q + k < all_pages = omega (arith, fits) in
      let (t1, frees, bk1) =
        free_first s current (q + k) n t bk inside (clean (q + k) (omega arith) (omega arith)) in
      let e : q + k + 1 ≡ q + (k + 1) = omega arith in
      let (t2, runs, bk2) =
        free_loop-Releases n (k + 1) t1 (subst (λ m. IsBacked s m n t1) e bk1) (omega (arith, fits))
          (λ p lo hi. clean p (omega arith) (omega arith)) in
      let e2 : q + (k + 1 + n) ≡ q + (k + suc n) = omega arith in
      (
        t2,
        free_step t n k (q * 0x1000) (ap (λ v. free_page v t) (page_in_range q k inside) ∙ frees)
            ∙ runs,
        subst (λ m. IsBacked s m 0 t2) e2 bk2,
      )
