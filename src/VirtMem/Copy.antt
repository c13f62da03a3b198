-- ===== src/VirtMem/Copy.antt =====
-- The loop of `MapProcess` that copies the kernel's entries to the upper part of a directory.
use vv4os.Base.{
  ℕ, zero, suc, ◌+◌, ◌-◌, ◌*◌, ◌≤◌, ◌<◌, ◌≡◌, refl, sym, ◌∙◌, ◌≢◌, ◌⊎◌, inl, inr, arith, ap, subst,
  Bool-cases, ltb, u32,
}
use vv4os.VirtMem.Entry.{decode_pte, decode_pde, virtual_addr}
use vv4os.VirtMem.State.{Space, done, kernel_pte, write_word, put}
use vv4os.VirtMem.Ops.{all_pages}
use vv4os.VirtMem.Spaces.{copy_pde_loop}
use vv4os.VirtMem.Pages.{put-other, poke}
use vv4os.VirtMem.Through.{store-translate}
use vv4os.VirtMem.Walk.{
  IsKernel, IsProcess, IsUser, frame_of, pde_of, entry_word, walk, user_pdes, table_entry-lt,
  pde-translate,
}
use vv4os.VirtMem.Frame.{
  with_memory, frame_of-same, kernel_pte-same, memory-IsKernel, same-IsProcess,
}
use vv4os.VirtMem.Words.{IsWritten, IsWritten-put, Writes}

-- `ram` is the memory of `s` but for the upper part of the directory.
abbrev pub IsUpperOnly : Space → (dir : ℕ) → (ℕ → ℕ) → Type 0
IsUpperOnly s dir ram =
    (a : ℕ)
    → (a < frame_of s dir * 1024 + 768) ⊎ (frame_of s dir * 1024 + 1024 ≤ a)
    → ram a ≡ s.ram a

module _ (s : Space) (dir : ℕ) (k : IsKernel s) (p : IsProcess s dir) (ram : ℕ → ℕ)
    (upper : IsUpperOnly s dir ram) where
  t : Space
  t = with_memory s ram s.frames

  words : (q : ℕ) → q < all_pages → ram (s.table_base + q) ≡ s.ram (s.table_base + q)
  words q h = upper (s.table_base + q) (inl (omega (arith, k.image, p.owned.above, h)))

  pub upper-kernel_pte :
      (q : ℕ) → q < all_pages → kernel_pte (with_memory s ram s.frames) q ≡ kernel_pte s q
  upper-kernel_pte = kernel_pte-same s ram s.frames words

  pub upper-frame_of : frame_of (with_memory s ram s.frames) dir ≡ frame_of s dir
  upper-frame_of = frame_of-same s ram s.frames words dir

  pde-upper : (i : ℕ) → i < user_pdes → pde_of (with_memory s ram s.frames) dir i ≡ pde_of s dir i
  unfolding pde_of
  pde-upper i h =
      rw upper-frame_of (ap decode_pde (upper (frame_of s dir * 1024 + i) (inl (omega (arith, h)))))

  pub upper-IsKernel : IsKernel (with_memory s ram s.frames)
  upper-IsKernel = memory-IsKernel s ram s.frames words k.frame_map refl k

  pub upper-IsProcess : IsProcess (with_memory s ram s.frames) dir
  upper-IsProcess = same-IsProcess s ram s.frames words dir refl (λ f a t. t) p pde-upper

  pub upper-walk : (u : ℕ) → IsUser u → walk (with_memory s ram s.frames) dir u ≡ walk s dir u
  unfolding walk entry_word
  upper-walk u hu =
      let pde = pde-upper (virtual_addr u).directory_entry hu in
      elim (Bool-cases (pde_of s dir (virtual_addr u).directory_entry).present) [
        | inl there ↦
            rw (pde, there)
              (ap decode_pte (
                upper
                  ((pde_of s dir (virtual_addr u).directory_entry).page_table_addr * 1024
                    + (virtual_addr u).table_entry)
                  (other_frame (pde_of s dir (virtual_addr u).directory_entry).page_table_addr
                    (frame_of s dir) (virtual_addr u).table_entry (table_entry-lt u)
                    (p.apart (virtual_addr u).directory_entry hu there))))
        | inr none ↦ rw (pde, none) refl
      ]
    where
      other_frame :
          (g f i : ℕ)
          → i < 1024
          → g ≢ f
          → (g * 1024 + i < f * 1024 + 768) ⊎ (f * 1024 + 1024 ≤ g * 1024 + i)
      other_frame g f i h ne = elim (Bool-cases (ltb g f)) [
        | inl below ↦ inl (ground arith)
        | inr above ↦ inr (ground arith)
      ]

copy_step :
    {s1 : Space} (s : Space) (n i dir : ℕ)
    → write_word (u32 (dir + 4 * i)) (s.ram (s.directory_base + i)) s ≡ done tt s1
    → copy_pde_loop (suc n) i dir s ≡ copy_pde_loop n (i + 1) dir s1
unfolding copy_pde_loop
copy_step s n i dir a = rw a refl

-- What the copy puts into the word `a` of the directory in frame `f`.
abbrev pub copied_word : Space → (f : ℕ) → ℕ → ℕ
copied_word s f a = s.ram (s.directory_base + (a - f * 1024))

poke-upper :
    (s : Space) (dir i w : ℕ)
    → 768 ≤ i
    → i < 1024
    → IsUpperOnly s dir (put s.ram (frame_of s dir * 1024 + i) w)
poke-upper s dir i w lo hi a out = elim out [
  | inl below ↦ put-other s.ram (frame_of s dir * 1024 + i) w a (λ e. omega (arith, e, below, lo))
  | inr above ↦ put-other s.ram (frame_of s dir * 1024 + i) w a (λ e. omega (arith, e, above, hi))
]

module _ (dir : ℕ) (value : ℕ → ℕ) where
  pub copy_pde_loop-Writes :
      (n i : ℕ) (s : Space)
      → IsKernel s
      → IsProcess s dir
      → 768 ≤ i
      → i + n ≤ 1024
      → s.directory_base + 1024 ≤ s.frames.dead_zone * 1024
      → ((j : ℕ) → j < 1024 → s.ram (s.directory_base + j) ≡ value (frame_of s dir * 1024 + j))
      → Writes s (frame_of s dir * 1024 + i) n value (copy_pde_loop n i dir s)
  unfolding copy_pde_loop
  copy_pde_loop-Writes zero i s k p lo hi dead agree = (s.ram, refl, λ a. ground arith)
  copy_pde_loop-Writes (suc n) i s k p lo hi dead agree =
      let f = frame_of s dir in
      let w = f * 1024 + i in
      let s1 = poke s w (value w) in
      let up = poke-upper s dir i (value w) lo (omega (arith, hi)) in
      let same_frame : frame_of s1 dir ≡ f = upper-frame_of s dir k p (put s.ram w (value w)) up in
      let (ram, runs, is) =
        copy_pde_loop-Writes n (i + 1) s1 (upper-IsKernel s dir k p (put s.ram w (value w)) up)
          (upper-IsProcess s dir k p (put s.ram w (value w)) up) (omega (arith, lo))
          (omega (arith, hi)) dead
          (λ j h.
            up (s.directory_base + j) (inl (omega (arith, dead, p.owned.above, h)))
            ∙ agree j h
            ∙ ap (λ g. value (g * 1024 + j)) (sym same_frame)) in
      let next : frame_of s1 dir * 1024 + (i + 1) ≡ w + 1 = omega (arith, same_frame) in
      (
        ram,
        copy_step s n i dir (
              store-translate s (u32 (dir + 4 * i)) (s.ram (s.directory_base + i)) w
                (pde-translate s dir p i (omega (arith, hi)))
              ∙ ap (λ x. done tt (poke s w x)) (agree i (omega (arith, hi))))
            ∙ runs,
        IsWritten-put s.ram w n value (subst (λ x. IsWritten s1.ram x n value ram) next is),
      )
