-- ===== src/VirtMem/Frame.antt =====
-- What a change of memory outside the kernel's page table leaves in place.
use vv4os.Base.{
  ℕ, ◌+◌, ◌≤◌, ◌<◌, ◌≡◌, sym, ◌∙◌, ◌≢◌, true, false, arith, ap, ◌==◌, inl, inr, Bool-cases, ==_iff,
}
use vv4os.Bitmap.{Bitmap}
use vv4os.PhysMem.Laws.{IsFrameMap, in_use}
use vv4os.VirtMem.Entry.{decode_pte}
use vv4os.VirtMem.State.{Space, page, kernel_pte}
use vv4os.VirtMem.Ops.{all_pages}
use vv4os.VirtMem.Pages.{page-lt}
use vv4os.VirtMem.Scratch.{kernel_used}
use vv4os.VirtMem.Walk.{IsKernel, IsProcess, IsOwned, frame_of, pde_of, user_pdes}

-- The space with other memory and another frame map.
abbrev pub with_memory : Space → (ℕ → ℕ) → Bitmap → Space
with_memory s ram frames = record s { ram = ram; frames = frames }

module _ (s : Space) (ram : ℕ → ℕ) (b : Bitmap)
    (same : (p : ℕ) → p < all_pages → ram (s.table_base + p) ≡ s.ram (s.table_base + p)) where
  pub kernel_pte-same :
      (p : ℕ) → p < all_pages → kernel_pte (with_memory s ram b) p ≡ kernel_pte s p
  unfolding kernel_pte
  kernel_pte-same p h = ap decode_pte (same p h)

  pub frame_of-same : (dir : ℕ) → frame_of (with_memory s ram b) dir ≡ frame_of s dir
  unfolding frame_of
  frame_of-same dir = ap (λ e. e.page_frame_addr) (kernel_pte-same (page dir) (page-lt dir))

  module _ (map : IsFrameMap b) (dead : b.dead_zone ≡ s.frames.dead_zone) (k : IsKernel s) where
    pub memory-IsKernel : IsKernel (with_memory s ram b)
    memory-IsKernel =
        let (q, lo, hi, free) = k.scratch in
        record {
          frame_map = map;
          image = omega (arith, k.image, dead);
          clean = λ p h free.
              same p h ∙ k.clean p h (ap (λ e. e.present) (sym (kernel_pte-same p h)) ∙ free);
          scratch = (q, lo, hi, ap (λ e. e.present) (kernel_pte-same q hi) ∙ free);
        }

  module _ (dir : ℕ) (dead : b.dead_zone ≡ s.frames.dead_zone)
      (kept : (f : ℕ) → s.frames.dead_zone ≤ f → in_use s.frames f ≡ true → in_use b f ≡ true)
      (p : IsProcess s dir) where
    pub kept-IsOwned : (f : ℕ) → IsOwned s f → IsOwned (with_memory s ram b) f
    kept-IsOwned f o = record {
      above = omega (arith, dead, o.above);
      taken = kept f o.above o.taken;
    }

    mapped-same : kernel_used (with_memory s ram b) (page dir) ≡ true
    mapped-same = ap (λ e. e.present) (kernel_pte-same (page dir) (page-lt dir)) ∙ p.mapped

    -- A directory whose entries are the same stays the directory of a process.
    pub same-IsProcess :
        ((i : ℕ) → i < user_pdes → pde_of (with_memory s ram b) dir i ≡ pde_of s dir i)
        → IsProcess (with_memory s ram b) dir
    same-IsProcess entries = record {
      other = p.other;
      small = p.small;
      aligned = p.aligned;
      mapped = mapped-same;
      owned = rw (frame_of-same dir) (kept-IsOwned (frame_of s dir) p.owned);
      tables = λ i h e.
          rw (entries i h)
            (kept-IsOwned (pde_of s dir i).page_table_addr (p.tables i h (rw (entries i h) at e)));
      apart = λ i h e. rw (entries i h, frame_of-same dir) (p.apart i h (rw (entries i h) at e));
      distinct = λ i j hi hj ei ej same'.
          p.distinct i j hi hj (rw (entries i hi) at ei) (rw (entries j hj) at ej)
            (rw (entries i hi, entries j hj) at same');
    }

    -- A new table in a frame that was free makes the directory of a process again.
    pub grown-IsProcess :
        (d f : ℕ)
        → IsOwned (with_memory s ram b) f
        → in_use s.frames f ≡ false
        → (pde_of s dir d).present ≡ false
        → (pde_of (with_memory s ram b) dir d).page_table_addr ≡ f
        → ((i : ℕ) → i < user_pdes → i ≢ d → pde_of (with_memory s ram b) dir i ≡ pde_of s dir i)
        → IsProcess (with_memory s ram b) dir
    grown-IsProcess d f own fresh absent new entries = record {
      other = p.other;
      small = p.small;
      aligned = p.aligned;
      mapped = mapped-same;
      owned = rw (frame_of-same dir) (kept-IsOwned (frame_of s dir) p.owned);
      tables = λ i h e. elim (Bool-cases (i == d)) [
        | inl at_d ↦ rw ((==_iff i d).0 at_d, new) own
        | inr off ↦
            let en = entries i h (ne i d off) in
            rw en (kept-IsOwned (pde_of s dir i).page_table_addr (p.tables i h (rw en at e)))
      ];
      apart = λ i h e. elim (Bool-cases (i == d)) [
        | inl at_d ↦ rw ((==_iff i d).0 at_d, new, frame_of-same dir) (not_used f fresh p.owned)
        | inr off ↦
            let en = entries i h (ne i d off) in
            rw (en, frame_of-same dir) (p.apart i h (rw en at e))
      ];
      distinct = λ i j hi hj ei ej same'. elim (Bool-cases (i == d)) [
        | inl di ↦ elim (Bool-cases (j == d)) [
          | inl dj ↦ (==_iff i d).0 di ∙ sym ((==_iff j d).0 dj)
          | inr oj ↦
              let en = entries j hj (ne j d oj) in
              absurd (
                not_used f fresh (p.tables j hj (rw en at ej))
                  (sym new ∙ (rw ((==_iff i d).0 di, en) at same')))
        ]
        | inr oi ↦
            let en = entries i hi (ne i d oi) in
            elim (Bool-cases (j == d)) [
              | inl dj ↦ absurd (
                  not_used f fresh (p.tables i hi (rw en at ei))
                    (sym new ∙ sym (rw ((==_iff j d).0 dj, en) at same')))
              | inr oj ↦
                  let en' = entries j hj (ne j d oj) in
                  p.distinct i j hi hj (rw en at ei) (rw en' at ej) (rw (en, en') at same')
            ]
      ];
    }
      where
        ne : (i d : ℕ) → (i == d) ≡ false → i ≢ d
        ne i d off = ground arith

        not_used : (f : ℕ) → in_use s.frames f ≡ false → {g : ℕ} → IsOwned s g → f ≢ g
        not_used f free own' e =
            let contra : true ≡ false = sym own'.taken ∙ sym (ap (in_use s.frames) e) ∙ free in
            absurd (ground arith)
