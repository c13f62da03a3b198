-- ===== src/VirtMem/Supply.antt =====
-- A supply of free frames, of which an operation takes one at most.
use vv4os.Base.{
  ℕ, zero, suc, ◌≤◌, ◌<◌, ◌≡◌, refl, sym, ◌∙◌, ◌≢◌, ◌⊎◌, inl, inr, false, arith, ap, ◌==◌,
  if◌then◌else◌, Bool-cases, ==_iff,
}
use vv4os.Bitmap.{Bitmap}
use vv4os.PhysMem.Laws.{in_use}
use vv4os.VirtMem.Fresh.{HasFrame, IsFresh}

-- `m` different frames are free.
pub record HasFrames (b : Bitmap) (m : ℕ) : Type 0 where
  pub frame : ℕ → ℕ
  pub inside : (i : ℕ) → i < m → (b.dead_zone ≤ frame i) × (frame i < b.len)
  pub free : (i : ℕ) → i < m → in_use b (frame i) ≡ false
  pub distinct : (i j : ℕ) → i < m → j < m → frame i ≡ frame j → i ≡ j

-- `b'` is `b` but for one frame.
pub record IsOneTaken (b b' : Bitmap) : Type 0 where
  pub newest : ℕ
  pub same_dead : b'.dead_zone ≡ b.dead_zone
  pub same_len : b'.len ≡ b.len
  pub others : (g : ℕ) → b.dead_zone ≤ g → g ≢ newest → in_use b' g ≡ in_use b g

pub HasFrames-HasFrame : {b : Bitmap} {m : ℕ} → HasFrames b (suc m) → HasFrame b
HasFrames-HasFrame h =
    let (above, below) = h.inside 0 (omega arith) in
    (h.frame 0, above, below, h.free 0 (omega arith))

pub IsFresh-IsOneTaken : {b b' : Bitmap} {f : ℕ} → IsFresh b f b' → IsOneTaken b b'
IsFresh-IsOneTaken {f = f} is = record {
  newest = f;
  same_dead = is.same_dead;
  same_len = is.same_len;
  others = λ g h ne. ground (arith, is.marks g h);
}

-- Where a frame stands in the supply, if it does.
position_of :
    (frame : ℕ → ℕ) (m f : ℕ)
    → ((i : ℕ) × (i < m) × (frame i ≡ f)) ⊎ ((i : ℕ) → i < m → frame i ≢ f)
position_of frame zero f = inr (λ i h. absurd (omega arith))
position_of frame (suc m) f = elim (Bool-cases (frame m == f)) [
  | inl here ↦ inl (m, omega arith, (==_iff (frame m) f).0 here)
  | inr off ↦ elim (position_of frame m f) [
    | inl (i, h, e) ↦ inl (i, omega (arith, h), e)
    | inr nowhere ↦ inr (λ i h. elim (Bool-cases (i == m)) [
      | inl at_m ↦
          λ e. let same : frame m ≡ f = sym (ap frame ((==_iff i m).0 at_m)) ∙ e in ground arith
      | inr before ↦ nowhere i (ground arith)
    ])
  ]
]

-- The supply without the frame at position `k`, whose place the last one takes.
without : (ℕ → ℕ) → (m k : ℕ) → ℕ → ℕ
without frame m k i = if i == k then frame m else frame i

module _ {b b' : Bitmap} {m : ℕ} (h : HasFrames b (suc m)) (one : IsOneTaken b b') where
  shrink :
      (frame : ℕ → ℕ)
      → ((i : ℕ) → i < m → (j : ℕ) × (j < suc m) × (frame i ≡ h.frame j) × (h.frame j ≢ one.newest))
      → ((i j : ℕ) → i < m → j < m → frame i ≡ frame j → i ≡ j)
      → HasFrames b' m
  shrink frame from inj = record {
    frame = frame;
    inside = λ i lt.
        let (j, hj, e, _) = from i lt in
        let (above, below) = h.inside j hj in
        (omega (arith, e, above, one.same_dead), omega (arith, e, below, one.same_len));
    free = λ i lt.
        let (j, hj, e, ne) = from i lt in
        let (above, _) = h.inside j hj in
        ap (in_use b') e ∙ one.others (h.frame j) above ne ∙ h.free j hj;
    distinct = inj;
  }

  -- After one frame was taken, the supply is smaller by one at most.
  pub taken-HasFrames : HasFrames b' m
  unfolding without
  taken-HasFrames = elim (position_of h.frame (suc m) one.newest) [
    | inr nowhere ↦
        shrink h.frame (λ i lt. (i, omega arith, refl, nowhere i (omega arith)))
          (λ i j hi hj e. h.distinct i j (omega arith) (omega arith) e)
    | inl (k, hk, e) ↦
        let off : (j : ℕ) → j < suc m → j ≢ k → h.frame j ≢ one.newest =
          λ j hj ne same. ne (h.distinct j k hj hk (same ∙ sym e)) in
        shrink (without h.frame m k)
          (λ i lt. elim (Bool-cases (i == k)) [
            | inl here ↦
                let at_k : i ≡ k = (==_iff i k).0 here in
                (m, omega arith, rw here refl, off m (omega arith) (omega (arith, at_k, lt)))
            | inr away ↦ (i, omega arith, rw away refl, off i (omega arith) (ground arith))
          ])
          (λ i j hi hj e'. elim (Bool-cases (i == k)) [
            | inl ik ↦ elim (Bool-cases (j == k)) [
              | inl jk ↦ (==_iff i k).0 ik ∙ sym ((==_iff j k).0 jk)
              | inr jn ↦ absurd (
                  omega (arith, h.distinct m j (omega arith) (omega arith) (rw (ik, jn) at e'), hj))
            ]
            | inr in' ↦ elim (Bool-cases (j == k)) [
              | inl jk ↦ absurd (
                  omega
                    (arith, h.distinct i m (omega arith) (omega arith) (rw (in', jk) at e'), hi))
              | inr jn ↦ h.distinct i j (omega arith) (omega arith) (rw (in', jn) at e')
            ]
          ])
  ]
