-- ===== src/VirtMem/Release.antt =====
-- A range of pages with frames shrinks by its first page, whose frame becomes free again.
use vv4os.Base.{
  ℕ, suc, ◌+◌, ◌≤◌, ◌<◌, ◌≡◌, refl, sym, ◌∙◌, ◌≢◌, ◌⊎◌, inl, inr, true, false, arith, ap, ◌==◌,
  if◌then◌else◌, Bool-cases, ==_iff,
}
use vv4os.Bitmap.{Bitmap}
use vv4os.Bitmap.Laws.{in_range}
use vv4os.PhysMem.Laws.{IsFrameMap, in_use}
use vv4os.VirtMem.Entry.{IsPte, encode_pte, zero_pte, decode_pte}
use vv4os.VirtMem.State.{Space, kernel_pte}
use vv4os.VirtMem.Ops.{all_pages}
use vv4os.VirtMem.Pages.{poke, kernel_pte-poke_at, kernel_pte-poke_other}
use vv4os.VirtMem.Frame.{kernel_pte-same}
use vv4os.VirtMem.Backed.{IsBacked, backing}

pub zero_pte-IsPte : IsPte zero_pte
unfolding zero_pte decode_pte
zero_pte-IsPte = record {
  zero_small = omega arith;
  ignored_small = omega arith;
  available_small = omega arith;
  frame_small = omega arith;
}

-- The map after frame `f` was given back; frame 0 is not.
pub data IsGive (b : Bitmap) (f : ℕ) (b' : Bitmap) : Type 0 where
  nothing : f ≡ 0 → b' ≡ b → IsGive b f b'
  given :
      f ≢ 0
      → b'.dead_zone ≡ b.dead_zone
      → b'.len ≡ b.len
      → ((g : ℕ) → b.dead_zone ≤ g → in_use b' g ≡ (if g == f then false else in_use b g))
      → IsGive b f b'

give-keeps :
    {b b' : Bitmap} {f : ℕ}
    → IsGive b f b'
    → (g : ℕ) → b.dead_zone ≤ g
    → g ≢ f
    → in_use b' g ≡ in_use b g
give-keeps (nothing _ same) g h ne = rw same refl
give-keeps (given _ _ _ marks) g h ne = ground (arith, marks g h)

give-frees : {b b' : Bitmap} {f : ℕ} → IsGive b f b' → b.dead_zone ≤ f → f ≢ 0 → in_use b' f ≡ false
give-frees (nothing zero _) h ne = absurd (ne zero)
give-frees {f = f} (given _ _ _ marks) h ne = ground (arith, marks f h)

give-same_dead : {b b' : Bitmap} {f : ℕ} → IsGive b f b' → b'.dead_zone ≡ b.dead_zone
give-same_dead (nothing _ same) = ap (λ b. b.dead_zone) same
give-same_dead (given _ dead _ _) = dead

give-same_len : {b b' : Bitmap} {f : ℕ} → IsGive b f b' → b'.len ≡ b.len
give-same_len (nothing _ same) = ap (λ b. b.len) same
give-same_len (given _ _ len _) = len

module _ (s t : Space) (q n : ℕ) (b : Bitmap) (bk : IsBacked s q (suc n) t)
    (give : IsGive t.frames (bk.owner q) b) (map : IsFrameMap b) (inside : q < all_pages)
    (clean : kernel_pte s q ≡ zero_pte) where
  -- The space in which page `q` is not mapped.
  unfoldable pub released : Space
  released = poke (record t { frames = b }) (t.table_base + q) (encode_pte zero_pte)

  taken_above : (g : ℕ) → s.frames.dead_zone ≤ g → t.frames.dead_zone ≤ g
  taken_above g h = omega (arith, bk.same_dead, h)

  released-page :
      (p : ℕ)
      → p < all_pages
      → kernel_pte released p
        ≡ (if in_range (q + 1) n p then backing (bk.owner p) else kernel_pte s p)
  unfolding released
  released-page p h = elim (Bool-cases (p == q)) [
    | inl here ↦
        let e : p ≡ q = (==_iff p q).0 here in
        let out : in_range (q + 1) n p ≡ false = ground arith in
        rw (out, e)
          (kernel_pte-poke_at (record t { frames = b }) q zero_pte zero_pte-IsPte ∙ sym clean)
    | inr off ↦
        let ne : p ≢ q = ground arith in
        let range : in_range (q + 1) n p ≡ in_range q (suc n) p = ground arith in
        kernel_pte-poke_other (record t { frames = b }) (t.table_base + q) (encode_pte zero_pte) p
          (λ e. ne (omega (arith, e)))
        ∙ kernel_pte-same t t.ram b (λ p h. refl) p h
        ∙ rw range (bk.pages p h)
  ]

  -- Frames in use that page `q` did not have are still in use.
  still :
      (g : ℕ)
      → s.frames.dead_zone ≤ g
      → g ≢ bk.owner q
      → in_use t.frames g ≡ true
      → in_use b g ≡ true
  still g h ne used = give-keeps give g (taken_above g h) ne ∙ used

  old : (g : ℕ) → s.frames.dead_zone ≤ g → in_use s.frames g ≡ true → g ≢ bk.owner q
  old g h used e = elim (Bool-cases (bk.owner q == 0)) [
    | inl zero ↦
        let z : bk.owner q ≡ 0 = (==_iff (bk.owner q) 0).0 zero in
        absurd (omega (arith, h, e, z, bk.same_dead, bk.frame_map.reserved))
    | inr ne ↦
        let (_, _, free, _) = bk.fresh q (omega arith) (omega arith) (ground arith) in
        let contra : true ≡ false = sym used ∙ ap (in_use s.frames) e ∙ free in
        absurd (ground arith)
  ]

  released-only :
      (g : ℕ)
      → s.frames.dead_zone ≤ g
      → in_use b g ≡ true
      → (in_use s.frames g ≡ true) ⊎ ((p : ℕ) × (q + 1 ≤ p) × (p < q + 1 + n) × (bk.owner p ≡ g))
  released-only g h used = elim (Bool-cases (g == bk.owner q)) [
    | inl here ↦
        let e : g ≡ bk.owner q = (==_iff g (bk.owner q)).0 here in
        let ne : bk.owner q ≢ 0 =
          λ z. omega (arith, h, e, z, bk.same_dead, bk.frame_map.reserved) in
        let contra : true ≡ false =
          sym used
          ∙ ap (in_use b) e
          ∙ give-frees give (taken_above (bk.owner q) (omega (arith, h, e))) ne in
        absurd (ground arith)
    | inr off ↦
        let ne : g ≢ bk.owner q = ground arith in
        elim (bk.only g h (sym (give-keeps give g (taken_above g h) ne) ∙ used)) [
          | inl first ↦ inl first
          | inr (p, lo, hi, e) ↦
              let np : p ≢ q = λ same. ne (sym e ∙ ap bk.owner same) in
              inr (p, omega (arith, lo, np), omega (arith, hi), e)
        ]
  ]

  released-fresh :
      (p : ℕ)
      → q + 1 ≤ p
      → p < q + 1 + n
      → bk.owner p ≢ 0
      → (s.frames.dead_zone ≤ bk.owner p)
        × (bk.owner p < s.frames.len)
        × (in_use s.frames (bk.owner p) ≡ false)
        × (in_use b (bk.owner p) ≡ true)
  released-fresh p lo hi ne =
      let (above, below, free, used) = bk.fresh p (omega arith) (omega arith) ne in
      let other : bk.owner p ≢ bk.owner q = λ e.
        omega (
          arith,
          bk.distinct p q (omega arith) (omega arith) (omega arith) (omega arith) ne e,
          lo,
        ) in
      (above, below, free, still (bk.owner p) above other used)

  pub released-IsBacked : IsBacked s (q + 1) n released
  unfolding released
  released-IsBacked = record {
    owner = bk.owner;
    pages = released-page;
    fresh = released-fresh;
    kept = λ g h used. still g h (old g h used) (bk.kept g h used);
    only = released-only;
    distinct = λ p p' lo hi lo' hi' ne e.
        bk.distinct p p' (omega arith) (omega arith) (omega arith) (omega arith) ne e;
    frame_map = map;
    same_dead = give-same_dead give ∙ bk.same_dead;
    same_len = give-same_len give ∙ bk.same_len;
    same_current = bk.same_current;
    same_kernel = bk.same_kernel;
  }
