-- ===== src/VirtMem/Range.antt =====
-- A range of pages with frames grows by a page at its end and shrinks by a page at its start.
use vv4os.Base.{
  ℕ, ◌+◌, ◌*◌, ◌^◌, ◌≤◌, ◌<◌, ◌≡◌, refl, sym, ◌∙◌, ◌≢◌, ◌⊎◌, inl, inr, true, false, arith, ap, ◌==◌,
  if◌then◌else◌, Bool-cases, ==_iff,
}
use vv4os.Bitmap.{Bitmap}
use vv4os.Bitmap.Laws.{in_range}
use vv4os.PhysMem.Laws.{IsFrameMap, in_use}
use vv4os.VirtMem.Entry.{encode_pte}
use vv4os.VirtMem.State.{Space, kernel_pte}
use vv4os.VirtMem.Ops.{all_pages}
use vv4os.VirtMem.Pages.{poke, kernel_pte-poke_at, kernel_pte-poke_other, frame_pte-IsPte}
use vv4os.VirtMem.Frame.{kernel_pte-same}
use vv4os.VirtMem.Backed.{IsBacked, IsTake, none_left, taken_frame, backing}

-- The marks of the frames after a call that takes frame `f`.
take-kept :
    {b b' : Bitmap} {f : ℕ}
    → IsTake b f b'
    → (g : ℕ) → b.dead_zone ≤ g
    → in_use b g ≡ true
    → in_use b' g ≡ true
take-kept (none_left _ same) g h taken = rw same taken
take-kept (taken_frame _ _ _ _ _ _ marks) g h taken = ground (arith, marks g h)

take-only :
    {b b' : Bitmap} {f : ℕ}
    → IsTake b f b'
    → (g : ℕ) → b.dead_zone ≤ g
    → in_use b' g ≡ true
    → (in_use b g ≡ true) ⊎ (f ≡ g)
take-only (none_left _ same) g h taken = inl (rw same at taken)
take-only {f = f} (taken_frame _ _ _ _ _ _ marks) g h taken = elim (Bool-cases (g == f)) [
  | inl here ↦ inr (sym ((==_iff g f).0 here))
  | inr off ↦ inl (rw off at (sym (marks g h) ∙ taken))
]

take-fresh :
    {b b' : Bitmap} {f : ℕ}
    → IsTake b f b'
    → f ≢ 0
    → (b.dead_zone ≤ f) × (f < b.len) × (in_use b f ≡ false) × (in_use b' f ≡ true)
take-fresh (none_left zero _) ne = absurd (ne zero)
take-fresh {f = f} (taken_frame above inside _ free _ _ marks) ne =
    (above, inside, free, ground (arith, marks f above))

take-same_dead : {b b' : Bitmap} {f : ℕ} → IsTake b f b' → b'.dead_zone ≡ b.dead_zone
take-same_dead (none_left _ same) = ap (λ b. b.dead_zone) same
take-same_dead (taken_frame _ _ _ _ dead _ _) = dead

take-same_len : {b b' : Bitmap} {f : ℕ} → IsTake b f b' → b'.len ≡ b.len
take-same_len (none_left _ same) = ap (λ b. b.len) same
take-same_len (taken_frame _ _ _ _ _ len _) = len

module _ (s t : Space) (q n f : ℕ) (b : Bitmap) (bk : IsBacked s q n t) (small : f < 2 ^ 20)
    (take : IsTake t.frames f b) (map : IsFrameMap b) (inside : q + n < all_pages) where
  -- The space in which the next page has frame `f`.
  unfoldable pub extended : Space
  extended = poke (record t { frames = b }) (t.table_base + (q + n)) (encode_pte (backing f))

  owner' : ℕ → ℕ
  owner' p = if p == q + n then f else bk.owner p

  owner-last : (p : ℕ) → p ≡ q + n → owner' p ≡ f
  unfolding owner'
  owner-last p e = ground arith

  owner-before : (p : ℕ) → p < q + n → owner' p ≡ bk.owner p
  unfolding owner'
  owner-before p h = ground arith

  page-last : (p : ℕ) → p ≡ q + n → kernel_pte extended p ≡ backing f
  unfolding extended
  page-last p e = rw e (
      kernel_pte-poke_at (record t { frames = b }) (q + n) (backing f)
        (frame_pte-IsPte (f * 4096) true true false (omega (arith, small))))

  page-other : (p : ℕ) → p < all_pages → p ≢ q + n → kernel_pte extended p ≡ kernel_pte t p
  unfolding extended
  page-other p h ne =
      kernel_pte-poke_other (record t { frames = b }) (t.table_base + (q + n))
        (encode_pte (backing f)) p (λ e. ne (omega (arith, e)))
      ∙ kernel_pte-same t t.ram b (λ p h. refl) p h

  -- The frames of the earlier pages were in use before the call.
  older : (p : ℕ) → q ≤ p → p < q + n → f ≢ 0 → bk.owner p ≢ f
  older p lo hi ne e =
      let (above, _, free, _) = take-fresh take ne in
      let (_, _, _, used) = bk.fresh p lo hi (λ z. ne (sym e ∙ z)) in
      let contra : true ≡ false = sym used ∙ ap (in_use t.frames) e ∙ free in absurd (ground arith)

  range_last : (p : ℕ) → q ≤ p → p < q + (n + 1) → (p ≡ q + n) ⊎ (p < q + n)
  range_last p lo hi = elim (Bool-cases (p == q + n)) [
    | inl here ↦ inl ((==_iff p (q + n)).0 here)
    | inr off ↦ inr (ground arith)
  ]

  extended-page :
      (p : ℕ)
      → p < all_pages
      → kernel_pte extended p
        ≡ (if in_range q (n + 1) p then backing (owner' p) else kernel_pte s p)
  extended-page p h = elim (Bool-cases (p == q + n)) [
    | inl here ↦
        let e : p ≡ q + n = (==_iff p (q + n)).0 here in
        let within : in_range q (n + 1) p ≡ true = ground arith in
        rw (within, owner-last p e) (page-last p e)
    | inr off ↦
        let ne : p ≢ q + n = ground arith in
        let range : in_range q (n + 1) p ≡ in_range q n p = ground arith in
        page-other p h ne
        ∙ bk.pages p h
        ∙ rw range (elim (Bool-cases (in_range q n p)) [
          | inl within ↦ rw (within, owner-before p (ground arith)) refl
          | inr out ↦ rw out refl
        ])
  ]

  taken_above : (g : ℕ) → s.frames.dead_zone ≤ g → t.frames.dead_zone ≤ g
  taken_above g h = omega (arith, bk.same_dead, h)

  extended-fresh :
      (p : ℕ)
      → q ≤ p
      → p < q + (n + 1)
      → owner' p ≢ 0
      → (s.frames.dead_zone ≤ owner' p)
        × (owner' p < s.frames.len)
        × (in_use s.frames (owner' p) ≡ false)
        × (in_use b (owner' p) ≡ true)
  extended-fresh p lo hi ne = elim (range_last p lo hi) [
    | inl e ↦
        let (above, below, free, used) = take-fresh take (λ z. ne (owner-last p e ∙ z)) in
        let above' : s.frames.dead_zone ≤ f = omega (arith, bk.same_dead, above) in
        rw (owner-last p e)
          (above', omega (arith, bk.same_len, below), free_before f above' free, used)
    | inr lt ↦
        let (above, below, free, used) = bk.fresh p lo lt (λ z. ne (owner-before p lt ∙ z)) in
        rw (owner-before p lt)
          (above, below, free, take-kept take (bk.owner p) (taken_above (bk.owner p) above) used)
  ]
    where
      free_before :
          (g : ℕ) → s.frames.dead_zone ≤ g → in_use t.frames g ≡ false → in_use s.frames g ≡ false
      free_before g h free = elim (Bool-cases (in_use s.frames g)) [
        | inl used ↦
            let contra : true ≡ false = sym (bk.kept g h used) ∙ free in absurd (ground arith)
        | inr f ↦ f
      ]

  extended-only :
      (g : ℕ)
      → s.frames.dead_zone ≤ g
      → in_use b g ≡ true
      → (in_use s.frames g ≡ true) ⊎ ((p : ℕ) × (q ≤ p) × (p < q + (n + 1)) × (owner' p ≡ g))
  extended-only g h used = elim (take-only take g (taken_above g h) used) [
    | inl before ↦ elim (bk.only g h before) [
      | inl first ↦ inl first
      | inr (p, lo, hi, e) ↦ inr (p, lo, omega (arith, hi), owner-before p hi ∙ e)
    ]
    | inr here ↦ inr (q + n, omega arith, omega arith, owner-last (q + n) refl ∙ here)
  ]

  extended-distinct :
      (p p' : ℕ)
      → q ≤ p
      → p < q + (n + 1)
      → q ≤ p'
      → p' < q + (n + 1)
      → owner' p ≢ 0
      → owner' p ≡ owner' p'
      → p ≡ p'
  extended-distinct p p' lo hi lo' hi' ne e = elim (range_last p lo hi) [
    | inl l ↦ elim (range_last p' lo' hi') [
      | inl l' ↦ l ∙ sym l'
      | inr b' ↦ absurd (
          older p' lo' b' (λ z. ne (owner-last p l ∙ z))
            (sym (owner-before p' b') ∙ sym e ∙ owner-last p l))
    ]
    | inr b ↦ elim (range_last p' lo' hi') [
      | inl l' ↦ absurd (
          older p lo b (λ z. ne (e ∙ owner-last p' l' ∙ z))
            (sym (owner-before p b) ∙ e ∙ owner-last p' l'))
      | inr b' ↦
          bk.distinct p p' lo b lo' b' (λ z. ne (owner-before p b ∙ z))
            (sym (owner-before p b) ∙ e ∙ owner-before p' b')
    ]
  ]

  pub extended-IsBacked : IsBacked s q (n + 1) extended
  unfolding extended
  extended-IsBacked = record {
    owner = owner';
    pages = extended-page;
    fresh = extended-fresh;
    kept = λ g h used. take-kept take g (taken_above g h) (bk.kept g h used);
    only = extended-only;
    distinct = extended-distinct;
    frame_map = map;
    same_dead = take-same_dead take ∙ bk.same_dead;
    same_len = take-same_len take ∙ bk.same_len;
    same_current = bk.same_current;
    same_kernel = bk.same_kernel;
  }
