-- ===== src/VirtMem/Clear.antt =====
-- Clearing a frame through a free page of the kernel.
use vv4os.Base.{
  ℕ, ◌+◌, ◌*◌, ◌/◌, ◌^◌, ◌<◌, ◌≡◌, refl, sym, ◌∙◌, ◌≢◌, true, false, arith, ap, ◌==◌, inl, inr,
  Bool-cases, ==_iff, ◌&&◌, leb, ltb,
}
use vv4os.VirtMem.Entry.{encode_pte}
use vv4os.VirtMem.State.{Space, done, put, clear_frame}
use vv4os.VirtMem.Ops.{frame_pte, clear_page, unmap_kernel_frame}
use vv4os.VirtMem.Pages.{page-multiple}
use vv4os.VirtMem.Scratch.{IsScratch, with_map}
use vv4os.VirtMem.Through.{frame_of_q, unmap-poke}

pub clear_frame-in : (ram : ℕ → ℕ) (f i : ℕ) → i < 1024 → clear_frame ram f (f * 1024 + i) ≡ 0
unfolding clear_frame
clear_frame-in ram f i h = ground arith

pub clear_frame-off :
    (ram : ℕ → ℕ) (f g i : ℕ)
    → i < 1024
    → g ≢ f
    → clear_frame ram f (g * 1024 + i) ≡ ram (g * 1024 + i)
unfolding clear_frame
clear_frame-off ram f g i h ne = ground arith

pub clear_frame-below : (ram : ℕ → ℕ) (f a : ℕ) → a < f * 1024 → clear_frame ram f a ≡ ram a
unfolding clear_frame
clear_frame-below ram f a h = ground arith

unclear :
    (ram : ℕ → ℕ) (c x f : ℕ)
    → ram c ≡ 0
    → put (clear_frame (put ram c x) f) c 0 ≡ clear_frame ram f
unfolding put clear_frame
unclear ram c x f e = λ k b. at_word b k
  where
    at_word : (b : ℕ) → put (clear_frame (put ram c x) f) c 0 b ≡ clear_frame ram f b
    at_word b = elim (Bool-cases (b == c)) [
      | inl here ↦
          let z : ram b ≡ 0 = ap ram ((==_iff b c).0 here) ∙ e in
          elim (Bool-cases (leb (f * 1024) b && ltb b (f * 1024 + 1024))) [
            | inl within ↦ rw (here, within) refl
            | inr out ↦ rw (here, out) (sym z)
          ]
      | inr off ↦ rw off refl
    ]

module _ (s : Space) (q phys : ℕ) (is : IsScratch s q) (small : phys < 2 ^ 32)
    (clean : s.ram (s.table_base + q) ≡ 0) where
  abbrev pub cleared : Space
  cleared = record (with_map s q phys) { ram = clear_frame (with_map s q phys).ram (phys / 4096) }

  pub clear-with_map : clear_page (q * 0x1000) (with_map s q phys) ≡ done tt cleared
  unfolding clear_page frame_pte
  clear-with_map = rw (page-multiple q is.below, frame_of_q s q phys is small clean) refl

  pub unmap-cleared :
      unmap_kernel_frame (q * 0x1000) cleared
      ≡ done tt (record s { ram = clear_frame s.ram (phys / 4096) })
  unmap-cleared =
      unmap-poke cleared q is.below
      ∙ ap (λ r. done tt (record s { ram = r }))
          (unclear s.ram (s.table_base + q) (encode_pte (frame_pte phys true true false))
            (phys / 4096) clean)
