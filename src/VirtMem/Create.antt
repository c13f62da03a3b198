-- ===== src/VirtMem/Create.antt =====
-- `MapProcess`: the address space of a new process.
use vv4os.Base.{
  ℕ, suc, ◌+◌, ◌-◌, ◌*◌, ◌^◌, ◌≤◌, ◌<◌, ◌≡◌, refl, sym, ◌∙◌, ◌≢◌, inl, inr, true, false, arith, ap,
  if◌then◌else◌, Bool-cases,
}
use vv4os.Bitmap.{Bitmap}
use vv4os.Bitmap.Laws.{in_range}
use vv4os.VirtMem.Entry.{zero_pte}
use vv4os.VirtMem.State.{Space, Outcome, done, page, kernel_pte}
use vv4os.VirtMem.Ops.{all_pages, phys_allocate, allocate_map, clear_page}
use vv4os.VirtMem.Spaces.{share_loop, copy_pde_loop, map_process}
use vv4os.VirtMem.Scratch.{kernel_used, allocate_map-maps, IsScratch}
use vv4os.VirtMem.Walk.{IsKernel, IsProcess, IsUser, frame_of, walk}
use vv4os.VirtMem.Frame.{with_memory, memory-IsKernel, kernel_pte-same}
use vv4os.VirtMem.Fresh.{IsFresh, allocate-IsFresh, phys_allocate-done}
use vv4os.VirtMem.Supply.{HasFrames, HasFrames-HasFrame}
use vv4os.VirtMem.Init.{IsImage}
use vv4os.VirtMem.Words.{IsWritten}
use vv4os.VirtMem.Share.{base_page, shared_pte, IsShared, share_loop-IsShared}
use vv4os.VirtMem.Copy.{
  IsUpperOnly, copied_word, copy_pde_loop-Writes, upper-IsKernel, upper-IsProcess, upper-walk,
  upper-frame_of,
}
use vv4os.VirtMem.Directory.{
  HasTwoPages, started, started-IsKernel, started-IsProcess, started-walk, started-kernel_pte,
  started-reserved, used-other, started-supply, started-dead, started-directory, clear-started,
}

map_steps :
    {s1 s2 s3 s4 s5 : Space} (s : Space) (k_base n phys dir : ℕ)
    → phys_allocate s ≡ done phys s1
    → allocate_map phys s1 ≡ done dir s2
    → clear_page dir s2 ≡ done tt s3
    → share_loop n 0 k_base dir s3 ≡ done tt s4
    → copy_pde_loop 256 768 dir s4 ≡ done tt s5
    → map_process k_base n s ≡ done dir s5
unfolding map_process
map_steps s k_base n phys dir a b c d e = rw (a, b, c, d, e) refl

-- The address space at `dir`: the process sees `n` pages of the kernel from page `kp` on at its base,
-- writable and for the user, and no other page of its own; above, it has the kernel's entries.
pub record IsCreated (s : Space) (dir kp n : ℕ) (t : Space) : Type 0 where
  pub kernel : IsKernel t
  pub process : IsProcess t dir
  pub entries :
      (u : ℕ)
      → IsUser u
      → walk t dir u ≡ (
          if in_range base_page n (page u)
          then shared_pte (kernel_pte s (kp + (page u - base_page)))
          else zero_pte)
  pub upper :
      (i : ℕ)
      → 768 ≤ i
      → i < 1024
      → t.ram (frame_of t dir * 1024 + i) ≡ s.ram (s.directory_base + i)

abbrev pub Creates : Space → (kp n : ℕ) → Outcome ℕ → Type 0
Creates s kp n o = (dir : ℕ) × (t : Space) × (o ≡ done dir t) × IsCreated s dir kp n t

IsWritten-IsUpperOnly :
    (s : Space) (dir : ℕ) (value ram : ℕ → ℕ)
    → IsWritten s.ram (frame_of s dir * 1024 + 768) 256 value ram
    → IsUpperOnly s dir ram
IsWritten-IsUpperOnly s dir value ram is a out =
    let off : in_range (frame_of s dir * 1024 + 768) 256 a ≡ false = elim out [
      | inl below ↦ ground arith
      | inr above ↦ ground arith
    ] in
    is a ∙ rw off refl

module _ (s : Space) (f q : ℕ) (b : Bitmap) (k : IsKernel s) (fresh : IsFresh s.frames f b)
    (is : IsScratch s q) (two : HasTwoPages s)
    (kernel_mapped : kernel_used s (page s.kernel_page_directory) ≡ true) (image : IsImage s)
    (dead : s.directory_base + 1024 ≤ s.frames.dead_zone * 1024) where
  directory_other : (i : ℕ) → i < 1024 → s.directory_base + i ≢ s.table_base + q
  directory_other i h e = elim image.disjoint [
    | inl below ↦ omega (arith, e, below, h)
    | inr above ↦ omega (arith, e, above, is.below)
  ]

  -- The state after both loops.
  created :
      {t : Space} {ram : ℕ → ℕ} (kp n : ℕ)
      → IsShared (started s f q b k fresh is two kernel_mapped) (q * 0x1000) kp 0 n t
      → ((j : ℕ) → j < n → kernel_used s (kp + j) ≡ true)
      → kp + n ≤ all_pages
      → IsWritten t.ram
          (frame_of t (q * 0x1000) * 1024 + 768)
          256
          (copied_word t (frame_of t (q * 0x1000)))
          ram
      → IsCreated s (q * 0x1000) kp n (with_memory t ram t.frames)
  created {t} {ram} kp n sh used room written =
      let dir = q * 0x1000 in
      let s3 = started s f q b k fresh is two kernel_mapped in
      let up = IsWritten-IsUpperOnly t dir (copied_word t (frame_of t dir)) ram written in
      record {
        kernel = upper-IsKernel t dir sh.kernel sh.process ram up;
        process = upper-IsProcess t dir sh.kernel sh.process ram up;
        entries = λ u hu.
            upper-walk t dir sh.kernel sh.process ram up u hu
            ∙ sh.entries u hu
            ∙ elim (Bool-cases (in_range base_page n (page u))) [
              | inl here ↦
                  let inside : page u - base_page < n = ground arith in
                  let e : kernel_pte s3 (kp + (page u - base_page))
                      ≡ kernel_pte s (kp + (page u - base_page)) =
                    started-kernel_pte s f q b k fresh is two kernel_mapped
                      (kp + (page u - base_page)) (omega (arith, inside, room))
                      (used-other s f q b k fresh is two kernel_mapped (kp + (page u - base_page))
                        (used (page u - base_page) inside)) in
                  rw (here, e) refl
              | inr out ↦ rw (out, started-walk s f q b k fresh is two kernel_mapped u hu) refl
            ];
        upper = λ i lo hi.
            let f' = frame_of t dir in
            let inside : in_range (f' * 1024 + 768) 256 (f' * 1024 + i) ≡ true = ground arith in
            let offset : f' * 1024 + i - f' * 1024 ≡ i = omega arith in
            let base : t.directory_base ≡ s.directory_base =
              sh.same_directory ∙ started-directory s f q b k fresh is two kernel_mapped in
            let dead3 = started-dead s f q b k fresh is two kernel_mapped in
            ap (λ g. ram (g * 1024 + i)) (upper-frame_of t dir sh.kernel sh.process ram up)
            ∙ written (f' * 1024 + i)
            ∙ rw inside (ap (λ j. t.ram (t.directory_base + j)) offset)
            ∙ ap (λ d. t.ram (d + i)) base
            ∙ sh.reserved (s.directory_base + i) (omega (arith, dead, dead3, hi))
            ∙ started-reserved s f q b k fresh is two kernel_mapped (s.directory_base + i)
                (omega (arith, dead, hi)) (directory_other i hi);
      }

-- Where the directory and the tables of the kernel do not overlap and lie in the dead zone, the
-- page of that directory and the pages to share are mapped, two pages of the kernel are free,
-- more frames are free than the process gets pages, and its pages end below 0xC0000000,
-- MapProcess ends without a fault and makes a well-formed directory. The process then sees these
-- pages of the kernel, and no others, at consecutive addresses from its base on, writable and
-- for the user; the upper quarter has the words of the directory of the kernel, whose own tables
-- stay well formed.
pub map_process-Creates :
    (s : Space) (kp n : ℕ)
    → IsKernel s
    → IsImage s
    → s.directory_base + 1024 ≤ s.frames.dead_zone * 1024
    → HasTwoPages s
    → kernel_used s (page s.kernel_page_directory) ≡ true
    → HasFrames s.frames (suc n)
    → ((j : ℕ) → j < n → kernel_used s (kp + j) ≡ true)
    → kp + n ≤ all_pages
    → base_page + n ≤ 0xC0000
    → Creates s kp n (map_process (kp * 4096) n s)
map_process-Creates s kp n k image dead two kernel_mapped supply used room room' =
    let (f, b, gives, fresh) = allocate-IsFresh s.frames k.frame_map (HasFrames-HasFrame supply) in
    let s1 = record s { frames = b } in
    let k1 : IsKernel s1 =
      memory-IsKernel s s.ram b (λ q h. refl) fresh.frame_map fresh.same_dead k in
    let (q, is1, maps) = allocate_map-maps s1 (f * 4096) k1.scratch in
    let is : IsScratch s q = back is1 in
    let small : f * 4096 < 2 ^ 32 = omega (arith, fresh.below) in
    let dir = q * 0x1000 in
    let s3 = started s f q b k fresh is two kernel_mapped in
    let dead3 = started-dead s f q b k fresh is two kernel_mapped in
    let (t, shares, sh) =
      share_loop-IsShared dir kp n 0 s3 (started-IsKernel s f q b k fresh is two kernel_mapped)
        (started-IsProcess s f q b k fresh is two kernel_mapped)
        (started-supply s f q b k fresh is two kernel_mapped supply) (omega (arith, room))
        (omega (arith, room')) in
    let fr = frame_of t dir in
    let base : t.directory_base ≡ s.directory_base =
      sh.same_directory ∙ started-directory s f q b k fresh is two kernel_mapped in
    let (ram, copies, written) =
      copy_pde_loop-Writes dir (copied_word t fr) 256 768 t sh.kernel sh.process (omega arith)
        (omega arith) (omega (arith, dead, dead3, sh.same_dead, base))
        (λ j h.
          let offset : fr * 1024 + j - fr * 1024 ≡ j = omega arith in
          ap (λ x. t.ram (t.directory_base + x)) (sym offset)) in
    (
      dir,
      with_memory t ram t.frames,
      map_steps {s5 = with_memory t ram t.frames} s (kp * 4096) n (f * 4096) dir
          (phys_allocate-done s (f * 4096) b gives) maps
          (clear-started s f q b k fresh is two kernel_mapped) shares copies,
      created s f q b k fresh is two kernel_mapped image dead {ram = ram} kp n sh used room written,
    )
  where
    back : {b : Bitmap} {q : ℕ} → IsScratch (record s { frames = b }) q → IsScratch s q
    back {b} {q} is = record {
      above = is.above;
      below = is.below;
      free =
          ap (λ e. e.present) (sym (kernel_pte-same s s.ram b (λ p h. refl) q is.below)) ∙ is.free;
    }
