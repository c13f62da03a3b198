-- ===== src/VirtMem/Fresh.antt =====
-- A frame that `PhysAllocateFrame` gives while some frame is free.
use vv4os.Base.{
  ℕ, ◌*◌, ◌/◌, ◌^◌, ◌≤◌, ◌<◌, ◌≡◌, sym, ◌∙◌, true, false, arith, ap, ◌==◌, if◌then◌else◌, none,
  some,
}
use vv4os.Bitmap.{Bitmap}
use vv4os.Bitmap.Marks.{marked}
use vv4os.PhysMem.{phys_allocate_frame}
use vv4os.PhysMem.Laws.{IsFrameMap, IsFrame, exhausted, frame, in_use, allocate-IsFrame}
use vv4os.VirtMem.State.{Space, done, fault}
use vv4os.VirtMem.Ops.{phys_allocate}

-- Some frame is free.
abbrev pub HasFrame : Bitmap → Type 0
HasFrame b = (k : ℕ) × (b.dead_zone ≤ k) × (k < b.len) × (in_use b k ≡ false)

-- Frame `f` was free in `b` and is in use in `b'`, and nothing else changed.
pub record IsFresh (b : Bitmap) (f : ℕ) (b' : Bitmap) : Type 0 where
  pub above : b.dead_zone ≤ f
  pub below : f < 2 ^ 20
  pub free : in_use b f ≡ false
  pub frame_map : IsFrameMap b'
  pub same_dead : b'.dead_zone ≡ b.dead_zone
  pub same_len : b'.len ≡ b.len
  pub marks : (g : ℕ) → b.dead_zone ≤ g → in_use b' g ≡ (if g == f then true else in_use b g)

abbrev pub Allocates : Bitmap → Type 0
Allocates b =
    (f : ℕ) × (b' : Bitmap) × (phys_allocate_frame b ≡ some (f * 4096, b')) × IsFresh b f b'

IsFrame-Allocates :
    {b b' : Bitmap} (ptr : ℕ)
    → IsFrameMap b
    → HasFrame b
    → phys_allocate_frame b ≡ some (ptr, b')
    → IsFrame b ptr b'
    → IsFrameMap b'
    → Allocates b
IsFrame-Allocates {b} {b'} ptr m (k, lo, hi, free) e (exhausted _ _ full) m' =
    let contra : true ≡ false = sym (full k lo hi) ∙ free in absurd (ground arith)
IsFrame-Allocates {b} {b'} ptr m has e (frame aligned above fits free marking) m' =
    let back : ptr / 4096 * 4096 ≡ ptr = omega (arith, aligned) in
    (
      ptr / 4096,
      b',
      rw back e,
      record {
        above = omega arith;
        below = omega (arith, m.frames);
        free = free;
        frame_map = m';
        same_dead = marking.same_dead;
        same_len = marking.same_len;
        marks = λ g h.
            ap (λ d. marked b'.words d g) marking.same_dead ∙ marking.marks g h ∙ ground arith;
      },
    )

pub allocate-IsFresh : (b : Bitmap) → IsFrameMap b → HasFrame b → Allocates b
allocate-IsFresh b m has =
    let (ptr, b', e, is, m') = allocate-IsFrame m in IsFrame-Allocates ptr m has e is m'

pub phys_allocate-done :
    (s : Space) (ptr : ℕ) (b' : Bitmap)
    → phys_allocate_frame s.frames ≡ some (ptr, b')
    → phys_allocate s ≡ done ptr (record s { frames = b' })
unfolding phys_allocate
phys_allocate-done s ptr b' e =
    ap (λ o. elim o [ none ↦ fault | some (p, b) ↦ done p (record s { frames = b }) ]) e

-- What was in use is in use afterwards, and the frame is.
pub IsFresh-kept :
    {b b' : Bitmap} {f : ℕ}
    → IsFresh b f b'
    → (g : ℕ) → b.dead_zone ≤ g
    → in_use b g ≡ true
    → in_use b' g ≡ true
IsFresh-kept {f = f} is g h taken = ground (arith, is.marks g h)

pub IsFresh-taken : {b b' : Bitmap} {f : ℕ} → IsFresh b f b' → in_use b' f ≡ true
IsFresh-taken {f = f} is = ground (arith, is.marks f is.above)
