-- ===== src/VirtMem/Scratch.antt =====
-- The free page of the kernel under which a page table is reached: mapping it, using it and
-- unmapping it leaves the memory as it was, but for what was stored through it.
use vv4os.Base.{
  ℕ, ◌+◌, ◌*◌, ◌≤◌, ◌<◌, ◌≡◌, refl, ◌≢◌, inl, inr, Bool, true, false, arith, Bool-cases, ◌==◌,
}
use vv4os.VirtMem.Entry.{Pte, virtual_addr, encode_pte}
use vv4os.VirtMem.State.{Space, Vm, done, page, kernel_pte}
use vv4os.VirtMem.Ops.{
  all_pages, frame_pte, allocate_map, is_kernel_mapped, get_kernel_pte, map_frame_by,
  set_kernel_pte,
}
use vv4os.VirtMem.Search.{IsSearch, found_run, no_run, search-IsSearch}
use vv4os.VirtMem.Pages.{page-multiple, poke}

abbrev pub kernel_used : Space → ℕ → Bool
kernel_used s p = (kernel_pte s p).present

-- Some page of the kernel's half is free.
abbrev pub HasScratch : Space → Type 0
HasScratch s = (q : ℕ) × (0xC0001 ≤ q) × (q < all_pages) × (kernel_used s q ≡ false)

-- The entry of a page that is not mapped is zero.
abbrev pub IsClean : Space → Type 0
IsClean s = (p : ℕ) → p < all_pages → kernel_used s p ≡ false → s.ram (s.table_base + p) ≡ 0

-- The space with the kernel's page `q` mapped to a frame.
abbrev pub with_map : Space → ℕ → ℕ → Space
with_map s q phys = poke s (s.table_base + q) (encode_pte (frame_pte phys true true false))

pub record IsScratch (s : Space) (q : ℕ) : Type 0 where
  pub above : 0xC0001 ≤ q
  pub below : q < all_pages
  pub free : kernel_used s q ≡ false

kernel_test :
    (s : Space) (p : ℕ) → p < all_pages → is_kernel_mapped (p * 0x1000) s ≡ done (kernel_used s p) s
unfolding is_kernel_mapped get_kernel_pte kernel_pte
kernel_test s p h = rw (page-multiple p h) refl

IsSearch-IsScratch :
    (s : Space) (r : ℕ)
    → HasScratch s
    → IsSearch (kernel_used s) 1 0xC0001 r
    → (q : ℕ) × (r ≡ q * 0x1000) × IsScratch s q
IsSearch-IsScratch s r has (found_run q e lo hi free _) =
    (q, e, record { above = lo; below = omega arith; free = free q (omega arith) (omega arith) })
IsSearch-IsScratch s r (q, lo, hi, free) (no_run e none_free) =
    absurd (none_free q lo (omega arith) (λ j a b. let same : j ≡ q = omega arith in rw same free))

pub map_frame_by-set :
    (set : ℕ → Pte → Vm (Unit {0})) (v phys : ℕ) (writable cached user : Bool)
    → page v ≢ 0
    → map_frame_by set v phys writable cached user ≡ set v (frame_pte phys writable cached user)
unfolding map_frame_by page
map_frame_by-set set v phys writable cached user h =
    elim (Bool-cases ((virtual_addr v).directory_entry == 0)) [
      | inl d ↦ let t : ((virtual_addr v).table_entry == 0) ≡ false = ground arith in rw (d, t) refl
      | inr d ↦ rw d refl
    ]

set_kernel_pte-poke :
    (s : Space) (q : ℕ) (pte : Pte)
    → q < all_pages
    → set_kernel_pte (q * 0x1000) pte s ≡ done tt (poke s (s.table_base + q) (encode_pte pte))
unfolding set_kernel_pte
set_kernel_pte-poke s q pte h = rw (page-multiple q h) refl

nonzero : {s : Space} (q : ℕ) → IsScratch s q → page (q * 0x1000) ≢ 0
nonzero q is e = omega (arith, page-multiple q is.below, is.above, is.below)

-- `AllocateMap` maps a free page of the kernel's half to the frame, and does nothing else.
pub allocate_map-maps :
    (s : Space) (phys : ℕ)
    → HasScratch s
    → (q : ℕ) × IsScratch s q × (allocate_map phys s ≡ done (q * 0x1000) (with_map s q phys))
unfolding allocate_map
allocate_map-maps s phys has =
    let (r, runs, is) =
      search-IsSearch is_kernel_mapped (kernel_used s) s 1 0xC0001 (omega arith) (omega arith)
        (λ p lo hi. kernel_test s p hi) (omega arith) in
    let (q, e, scratch) = IsSearch-IsScratch s r has is in
    (
      q,
      scratch,
      rw (runs, e)
          (rw
            (map_frame_by-set set_kernel_pte (q * 0x1000) phys true true false (nonzero q scratch))
            (rw (set_kernel_pte-poke s q (frame_pte phys true true false) scratch.below) refl)),
    )
