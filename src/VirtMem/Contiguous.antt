-- ===== src/VirtMem/Contiguous.antt =====
-- What the kernel's heap gets from `X86AllocateContiguousVirtualFrames`, and that
-- `X86FreeContiguousVirtualFrames` takes it back.
use vv4os.Base.{
  ℕ, ◌+◌, ◌*◌, ◌≤◌, ◌<◌, ◌≡◌, refl, sym, ◌∙◌, inl, inr, Bool, true, false, arith, ap, subst,
  if◌then◌else◌, Bool-cases,
}
use vv4os.Bitmap.Laws.{in_range}
use vv4os.PhysMem.Laws.{IsFrameMap, in_use}
use vv4os.VirtMem.Entry.{decode_pte, zero_pte}
use vv4os.VirtMem.State.{Space, done, kernel_pte}
use vv4os.VirtMem.Ops.{
  all_pages, search_start, find_contiguous_loop, is_mapped, find_contiguous_free_frames,
}
use vv4os.VirtMem.Spaces.{
  allocate_loop, allocate_contiguous_virtual_frames, free_loop, free_contiguous_virtual_frames,
}
use vv4os.VirtMem.Pages.{page-multiple}
use vv4os.VirtMem.Search.{
  IsFreeRun, StartsFrom, IsSearch, found_run, no_run, Searches, search-IsSearch,
}
use vv4os.VirtMem.Scratch.{kernel_used, IsClean}
use vv4os.VirtMem.Backed.{IsBacked, empty-IsBacked}
use vv4os.VirtMem.Heap.{IsKernelCurrent, get_pte-kernel, allocate_loop-IsBacked}
use vv4os.VirtMem.HeapFree.{free_loop-Releases}

-- The first page that is searched.
abbrev pub first_page : Bool → ℕ
first_page kernel = if kernel then 0xC0001 else 1

mapped :
    (s : Space) (p : ℕ)
    → p < all_pages
    → is_mapped (p * 0x1000) s.kernel_page_directory s ≡ done (kernel_used s p) s
unfolding is_mapped
mapped s p h =
    rw (get_pte-kernel s s.kernel_page_directory (p * 0x1000) refl, page-multiple p h) refl

-- In the directory of the kernel the search ends within as many rounds as there are pages and
-- changes nothing. Its result is the address of the lowest run of `n` pages that are not mapped,
-- from page 1 or from the first page of the kernel's half on, or `NULL` if there is none.
pub find-IsSearch :
    (s : Space) (n : ℕ) (kernel : Bool)
    → 0 < n
    → Searches
        (kernel_used s)
        n
        (first_page kernel)
        s
        (find_contiguous_free_frames n s.kernel_page_directory kernel s)
unfolding find_contiguous_free_frames
find-IsSearch s n kernel pos = from_page kernel
  where
    test :
        (p : ℕ)
        → p < all_pages
        → is_mapped (p * 0x1000) s.kernel_page_directory s ≡ done (kernel_used s p) s
    test p h = mapped s p h

    from_page :
        (kernel : Bool)
        → Searches (kernel_used s) n (first_page kernel) s (
            find_contiguous_loop
              (λ frame. is_mapped frame s.kernel_page_directory)
              all_pages
              n
              (search_start kernel)
              0
              s)
    from_page true =
        search-IsSearch (λ frame. is_mapped frame s.kernel_page_directory) (kernel_used s) s n
          0xC0001 pos (omega arith) (λ p lo hi. test p hi) (omega arith)
    from_page false =
        search-IsSearch (λ frame. is_mapped frame s.kernel_page_directory) (kernel_used s) s n 1 pos
          (omega arith) (λ p lo hi. test p hi) (omega arith)

-- A range without pages has changed nothing.
empty_range-pages :
    {s u : Space} {q : ℕ}
    → IsBacked s q 0 u
    → (p : ℕ) → p < all_pages
    → kernel_pte u p ≡ kernel_pte s p
empty_range-pages {q = q} bk p h =
    let out : in_range q 0 p ≡ false = ground arith in bk.pages p h ∙ rw out refl

empty_range-marks :
    {s u : Space} {q : ℕ}
    → IsBacked s q 0 u
    → (g : ℕ) → s.frames.dead_zone ≤ g
    → in_use u.frames g ≡ in_use s.frames g
empty_range-marks {s} {u} bk g h = elim (Bool-cases (in_use s.frames g)) [
  | inl used ↦ bk.kept g h used ∙ sym used
  | inr free ↦ elim (Bool-cases (in_use u.frames g)) [
    | inr still ↦ still ∙ sym free
    | inl used ↦ elim (bk.only g h used) [
      | inl before ↦ used ∙ sym before
      | inr (p, lo, hi, e) ↦ absurd (omega (arith, lo, hi))
    ]
  ]
]

-- The call returns the address `base` of page `q`, and the pages from there on have frames.
pub record IsGranted (s : Space) (n : ℕ) (kernel : Bool) (base : ℕ) (t : Space) : Type 0 where
  pub first : ℕ
  pub address : base ≡ first * 0x1000
  pub above : first_page kernel ≤ first
  pub inside : first + n ≤ all_pages
  pub free : IsFreeRun (kernel_used s) first n
  pub lowest : StartsFrom (kernel_used s) n (first_page kernel) first
  pub backed : IsBacked s first n t

abbrev pub Grants : Space → (n : ℕ) → (kernel : Bool) → Type 0
Grants s n kernel =
    (base : ℕ) × (t : Space) × (allocate_contiguous_virtual_frames n kernel s ≡ done base t)
    × IsGranted s n kernel base t

allocate_contiguous-steps :
    {t : Space} (s : Space) (n : ℕ) (kernel : Bool) (base : ℕ)
    → find_contiguous_free_frames n s.current_page_directory kernel s ≡ done base s
    → allocate_loop n 0 base s ≡ done tt t
    → allocate_contiguous_virtual_frames n kernel s ≡ done base t
unfolding allocate_contiguous_virtual_frames
allocate_contiguous-steps s n kernel base a b = rw (a, b) refl

first_page-positive : (kernel : Bool) → 0 < first_page kernel
first_page-positive true = omega arith
first_page-positive false = omega arith

module _ (s : Space) (n : ℕ) (kernel : Bool) (map : IsFrameMap s.frames)
    (current : IsKernelCurrent s) where
  grant_found :
      (base : ℕ)
      → find_contiguous_free_frames n s.kernel_page_directory kernel s ≡ done base s
      → (q : ℕ) → base ≡ q * 0x1000
      → first_page kernel ≤ q
      → q + n ≤ all_pages
      → IsFreeRun (kernel_used s) q n
      → StartsFrom (kernel_used s) n (first_page kernel) q
      → Grants s n kernel
  grant_found base finds q at_q above inside free lowest =
      let (t, runs, backed) =
        allocate_loop-IsBacked s q (omega (arith, above, first_page-positive kernel)) current n 0 s
          (empty-IsBacked s q map) (omega (arith, inside)) in
      (
        base,
        t,
        allocate_contiguous-steps s n kernel base
            (ap (λ d. find_contiguous_free_frames n d kernel s) current ∙ finds)
            (ap (λ b. allocate_loop n 0 b s) at_q ∙ runs),
        record {
          first = q;
          address = at_q;
          above = above;
          inside = inside;
          free = free;
          lowest = lowest;
          backed = subst (λ m. IsBacked s q m t) (omega arith) backed;
        },
      )

  -- While the kernel's directory is current and some run of `n` pages is free, the call ends
  -- without a fault and returns the address of the lowest such run. Each of its pages is then
  -- mapped, writable and for the kernel only, to a frame that was free, no two to the same, or to
  -- frame 0 where no frame was left; no other page changes, and the map of the frames changes by
  -- these frames only.
  pub allocate_contiguous-Grants :
      (first : ℕ)
      → 0 < n
      → first_page kernel ≤ first
      → first + n ≤ all_pages
      → IsFreeRun (kernel_used s) first n
      → Grants s n kernel
  allocate_contiguous-Grants first pos above inside free =
      let (base, finds, is) = find-IsSearch s n kernel pos in from_search base finds is
    where
      from_search :
          (base : ℕ)
          → find_contiguous_free_frames n s.kernel_page_directory kernel s ≡ done base s
          → IsSearch (kernel_used s) n (first_page kernel) base
          → Grants s n kernel
      from_search base finds (found_run q at_q above' inside' free' lowest) =
          grant_found base finds q at_q above' inside' free' lowest
      from_search base finds (no_run _ nowhere) = absurd (nowhere first above inside free)

  clean-zero_pte :
      IsClean s → (p : ℕ) → p < all_pages → kernel_used s p ≡ false → kernel_pte s p ≡ zero_pte
  unfolding kernel_pte zero_pte
  clean-zero_pte clean p h free = ap decode_pte (clean p h free)

  -- What was allocated can be freed, without a fault: then every page of the kernel is mapped as it
  -- was before, and the same frames are in use.
  pub free_contiguous-allocate :
      (first : ℕ)
      → 0 < n
      → first_page kernel ≤ first
      → first + n ≤ all_pages
      → IsFreeRun (kernel_used s) first n
      → IsClean s
      → (base : ℕ) × (t : Space) × (u : Space) × (allocate_contiguous_virtual_frames n kernel s
          ≡ done base t)
        × (free_contiguous_virtual_frames base n t ≡ done tt u)
        × ((p : ℕ) → p < all_pages → kernel_pte u p ≡ kernel_pte s p)
        × ((g : ℕ) → s.frames.dead_zone ≤ g → in_use u.frames g ≡ in_use s.frames g)
        × IsFrameMap u.frames
  unfolding free_contiguous_virtual_frames
  free_contiguous-allocate first pos above inside free clean =
      let (base, t, allocates, gr) = allocate_contiguous-Grants first pos above inside free in
      let e : gr.first + 0 ≡ gr.first = omega arith in
      let (u, frees, back) =
        free_loop-Releases s gr.first current n 0 t
          (subst (λ m. IsBacked s m n t) (sym e) gr.backed) (omega (arith, gr.inside))
          (λ p lo hi.
            clean-zero_pte clean p (omega (arith, gr.inside, hi))
              (gr.free p (omega arith) (omega arith))) in
      (
        base,
        t,
        u,
        allocates,
        ap (λ b. free_loop n 0 b t) gr.address ∙ frees,
        empty_range-pages back,
        empty_range-marks back,
        back.frame_map,
      )
