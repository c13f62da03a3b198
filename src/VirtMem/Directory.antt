-- ===== src/VirtMem/Directory.antt =====
-- The empty directory that `MapProcess` starts with: a frame that was free, cleared, under a page of
-- the kernel that was free.
use vv4os.Base.{
  ℕ, suc, ◌+◌, ◌*◌, ◌/◌, ◌≤◌, ◌<◌, ◌≡◌, refl, sym, ◌∙◌, ◌≢◌, inl, inr, true, false, arith, ap, ◌==◌,
  Bool-cases, ==_iff,
}
use vv4os.Bitmap.{Bitmap}
use vv4os.VirtMem.Entry.{
  decode_pte, decode_pde, encode_pte, decode_pte-encode_pte, flag, virtual_addr, zero_pte,
}
use vv4os.VirtMem.State.{Space, done, page, kernel_pte, put, clear_frame}
use vv4os.VirtMem.Ops.{all_pages, clear_page}
use vv4os.VirtMem.Pages.{put-at, put-other, page-multiple, frame_pte-IsPte}
use vv4os.VirtMem.Scratch.{kernel_used, IsScratch, with_map}
use vv4os.VirtMem.Walk.{IsKernel, IsProcess, frame_of, pde_of, walk, IsUser, user_pdes}
use vv4os.VirtMem.Frame.{with_memory, kernel_pte-same}
use vv4os.VirtMem.Fresh.{IsFresh, IsFresh-taken}
use vv4os.VirtMem.Clear.{clear_frame-in, clear_frame-below, clear-with_map}
use vv4os.VirtMem.Supply.{HasFrames, taken-HasFrames, IsFresh-IsOneTaken}
use vv4os.VirtMem.Backed.{backing}
use vv4os.VirtMem.HeapFree.{backing-frame, backing-present}

-- Two pages of the kernel's half are free.
pub record HasTwoPages (s : Space) : Type 0 where
  pub first : ℕ
  pub second : ℕ
  pub different : first ≢ second
  pub first_free : IsScratch s first
  pub second_free : IsScratch s second

module _ (s : Space) (f q : ℕ) (b : Bitmap) (k : IsKernel s) (fresh : IsFresh s.frames f b)
    (is : IsScratch s q) (two : HasTwoPages s)
    (kernel_mapped : kernel_used s (page s.kernel_page_directory) ≡ true) where
  memory : ℕ → ℕ
  memory = clear_frame (put s.ram (s.table_base + q) (encode_pte (backing f))) f

  -- The state with the directory.
  pub started : Space
  started = with_memory s memory b

  word_at : memory (s.table_base + q) ≡ encode_pte (backing f)
  unfolding memory
  word_at =
      clear_frame-below (put s.ram (s.table_base + q) (encode_pte (backing f))) f (s.table_base + q)
        (omega (arith, k.image, fresh.above, is.below))
      ∙ put-at s.ram (s.table_base + q) (encode_pte (backing f))

  word_other :
      (p : ℕ) → p < all_pages → p ≢ q → memory (s.table_base + p) ≡ s.ram (s.table_base + p)
  unfolding memory
  word_other p h ne =
      clear_frame-below (put s.ram (s.table_base + q) (encode_pte (backing f))) f (s.table_base + p)
        (omega (arith, k.image, fresh.above, h))
      ∙ put-other s.ram (s.table_base + q) (encode_pte (backing f)) (s.table_base + p)
          (λ e. ne (omega (arith, e)))

  pte_at : kernel_pte started q ≡ backing f
  unfolding started kernel_pte
  pte_at = ap decode_pte word_at ∙ decode_backing
    where
      decode_backing : decode_pte (encode_pte (backing f)) ≡ backing f
      decode_backing =
          decode_pte-encode_pte (backing f)
            (frame_pte-IsPte (f * 4096) true true false (omega (arith, fresh.below)))

  pub started-kernel_pte : (p : ℕ) → p < all_pages → p ≢ q → kernel_pte started p ≡ kernel_pte s p
  unfolding started kernel_pte
  started-kernel_pte p h ne = ap decode_pte (word_other p h ne)

  pub used-other : (p : ℕ) → kernel_used s p ≡ true → p ≢ q
  used-other p used e =
      let contra : true ≡ false = sym used ∙ ap (kernel_used s) e ∙ is.free in absurd (ground arith)

  pub started-IsKernel : IsKernel started
  unfolding started
  started-IsKernel = record {
    frame_map = fresh.frame_map;
    image = omega (arith, k.image, fresh.same_dead);
    clean = λ p h free. elim (Bool-cases (p == q)) [
      | inl here ↦
          let e : p ≡ q = (==_iff p q).0 here in
          let contra : true ≡ false =
            sym (ap (λ e. e.present) pte_at ∙ backing-present f)
            ∙ ap (kernel_used started) (sym e)
            ∙ free in
          absurd (ground arith)
      | inr off ↦
          let ne : p ≢ q = ground arith in
          word_other p h ne
          ∙ k.clean p h (ap (λ e. e.present) (sym (started-kernel_pte p h ne)) ∙ free)
    ];
    scratch = elim (Bool-cases (two.first == q)) [
      | inl here ↦
          left two.second two.second_free (λ e. two.different ((==_iff two.first q).0 here ∙ sym e))
      | inr off ↦ left two.first two.first_free (ground arith)
    ];
  }
    where
      left :
          (a : ℕ)
          → IsScratch s a
          → a ≢ q
          → (c : ℕ) × (0xC0001 ≤ c) × (c < all_pages) × (kernel_used started c ≡ false)
      left a free ne = (
        a,
        free.above,
        free.below,
        ap (λ e. e.present) (started-kernel_pte a free.below ne) ∙ free.free,
      )

  at_page : page (q * 0x1000) ≡ q
  at_page = page-multiple q is.below

  started-frame_of : frame_of started (q * 0x1000) ≡ f
  unfolding frame_of
  started-frame_of =
      ap (λ p. (kernel_pte started p).page_frame_addr) at_page
      ∙ ap (λ e. e.page_frame_addr) pte_at
      ∙ backing-frame f

  absent : (i : ℕ) → i < 1024 → (pde_of started (q * 0x1000) i).present ≡ false
  unfolding pde_of memory started decode_pde flag
  absent i h =
      ap (λ g. (decode_pde (memory (g * 1024 + i))).present) started-frame_of
      ∙ ap (λ w. (decode_pde w).present)
          (clear_frame-in (put s.ram (s.table_base + q) (encode_pte (backing f))) f i h)

  no_table : (i : ℕ) → i < user_pdes → (pde_of started (q * 0x1000) i).present ≡ true → true ≡ false
  no_table i h there = sym there ∙ absent i (omega (arith, h))

  pub started-IsProcess : IsProcess started (q * 0x1000)
  unfolding started
  started-IsProcess = record {
    other =
        λ e. used-other (page s.kernel_page_directory) kernel_mapped (ap page (sym e) ∙ at_page);
    small = omega (arith, is.below);
    aligned = omega arith;
    mapped = ap (kernel_used started) at_page ∙ ap (λ e. e.present) pte_at ∙ backing-present f;
    owned = rw started-frame_of (record {
      above = omega (arith, fresh.same_dead, fresh.above);
      taken = IsFresh-taken fresh;
    });
    tables = λ i h there. let c = no_table i h there in absurd (ground arith);
    apart = λ i h there e. let c = no_table i h there in absurd (ground arith);
    distinct = λ i j hi hj there there' e. let c = no_table i hi there in absurd (ground arith);
  }

  -- The process sees no page.
  pub started-walk : (u : ℕ) → IsUser u → walk started (q * 0x1000) u ≡ zero_pte
  unfolding walk
  started-walk u hu = rw (absent (virtual_addr u).directory_entry (omega (arith, hu))) refl

  -- Words of the dead zone outside the kernel's table are the same.
  pub started-reserved :
      (a : ℕ) → a < s.frames.dead_zone * 1024 → a ≢ s.table_base + q → started.ram a ≡ s.ram a
  unfolding started memory
  started-reserved a h ne =
      clear_frame-below (put s.ram (s.table_base + q) (encode_pte (backing f))) f a
        (omega (arith, h, fresh.above))
      ∙ put-other s.ram (s.table_base + q) (encode_pte (backing f)) a ne

  pub started-dead : started.frames.dead_zone ≡ s.frames.dead_zone
  unfolding started
  started-dead = fresh.same_dead

  pub started-supply : {m : ℕ} → HasFrames s.frames (suc m) → HasFrames started.frames m
  unfolding started
  started-supply supply = taken-HasFrames supply (IsFresh-IsOneTaken fresh)

  pub started-directory : started.directory_base ≡ s.directory_base
  unfolding started
  started-directory = refl

  -- The call that clears the frame makes that state.
  pub clear-started :
      clear_page (q * 0x1000) (with_map (record s { frames = b }) q (f * 4096)) ≡ done tt started
  unfolding started memory
  clear-started =
      let back : f * 4096 / 4096 ≡ f = omega arith in
      clear-with_map (record s { frames = b }) q (f * 4096)
        (record {
          above = is.above;
          below = is.below;
          free = ap (λ e. e.present) (kernel_pte-same s s.ram b (λ p h. refl) q is.below) ∙ is.free;
        })
        (omega (arith, fresh.below)) (k.clean q is.below is.free)
      ∙ ap
          (λ g. done tt (
            with_memory s (clear_frame (put s.ram (s.table_base + q) (encode_pte (backing f))) g)
              b))
          back
