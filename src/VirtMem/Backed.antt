-- ===== src/VirtMem/Backed.antt =====
-- A range of pages of the kernel that `X86AllocateContiguousVirtualFrames` gave frames: how the
-- range grows by a page and how `X86FreeContiguousVirtualFrames` takes a page from it.
use vv4os.Base.{
  ℕ, ◌+◌, ◌*◌, ◌/◌, ◌^◌, ◌≤◌, ◌<◌, ◌≡◌, refl, ◌∙◌, ◌≢◌, ◌⊎◌, inl, Bool, true, false, arith, ap,
  ◌==◌, if◌then◌else◌, some,
}
use vv4os.Bitmap.{Bitmap}
use vv4os.Bitmap.Laws.{in_range, IsMarking}
use vv4os.Bitmap.Marks.{marked}
use vv4os.PhysMem.{phys_allocate_frame}
use vv4os.PhysMem.Laws.{IsFrameMap, IsFrame, exhausted, frame, in_use, allocate-IsFrame}
use vv4os.VirtMem.Entry.{Pte}
use vv4os.VirtMem.State.{Space, kernel_pte}
use vv4os.VirtMem.Ops.{all_pages, frame_pte}

abbrev pub backing : ℕ → Pte
backing f = frame_pte (f * 4096) true true false

-- `t` is `s` with frames under the `n` pages from `q` on: page `p` has the frame `owner p`, which
-- was free in `s`, or frame 0 if none was left; no two pages have the same.
pub record IsBacked (s : Space) (q n : ℕ) (t : Space) : Type 0 where
  pub owner : ℕ → ℕ
  pub pages :
      (p : ℕ)
      → p < all_pages
      → kernel_pte t p ≡ (if in_range q n p then backing (owner p) else kernel_pte s p)
  pub fresh :
      (p : ℕ)
      → q ≤ p
      → p < q + n
      → owner p ≢ 0
      → (s.frames.dead_zone ≤ owner p)
        × (owner p < s.frames.len)
        × (in_use s.frames (owner p) ≡ false)
        × (in_use t.frames (owner p) ≡ true)
  pub kept : (g : ℕ) → s.frames.dead_zone ≤ g → in_use s.frames g ≡ true → in_use t.frames g ≡ true
  pub only :
      (g : ℕ)
      → s.frames.dead_zone ≤ g
      → in_use t.frames g ≡ true
      → (in_use s.frames g ≡ true) ⊎ ((p : ℕ) × (q ≤ p) × (p < q + n) × (owner p ≡ g))
  pub distinct :
      (p p' : ℕ)
      → q ≤ p
      → p < q + n
      → q ≤ p'
      → p' < q + n
      → owner p ≢ 0
      → owner p ≡ owner p'
      → p ≡ p'
  pub frame_map : IsFrameMap t.frames
  pub same_dead : t.frames.dead_zone ≡ s.frames.dead_zone
  pub same_len : t.frames.len ≡ s.frames.len
  pub same_current : t.current_page_directory ≡ s.current_page_directory
  pub same_kernel : t.kernel_page_directory ≡ s.kernel_page_directory

pub empty-IsBacked : (s : Space) (q : ℕ) → IsFrameMap s.frames → IsBacked s q 0 s
empty-IsBacked s q m = record {
  owner = λ p. 0;
  pages = λ p h. ground arith;
  fresh = λ p a b ne. absurd (omega arith);
  kept = λ g a t. t;
  only = λ g a t. inl t;
  distinct = λ p p' a b a' b' ne e. absurd (omega arith);
  frame_map = m;
  same_dead = refl;
  same_len = refl;
  same_current = refl;
  same_kernel = refl;
}

-- What a call of `PhysAllocateFrame` does to the map: it takes frame `f`, or `f` is 0 and it takes
-- none.
pub data IsTake (b : Bitmap) (f : ℕ) (b' : Bitmap) : Type 0 where
  none_left : f ≡ 0 → b' ≡ b → IsTake b f b'
  taken_frame :
      b.dead_zone ≤ f
      → f < b.len
      → f < 2 ^ 20
      → in_use b f ≡ false
      → b'.dead_zone ≡ b.dead_zone
      → b'.len ≡ b.len
      → ((g : ℕ) → b.dead_zone ≤ g → in_use b' g ≡ (if g == f then true else in_use b g))
      → IsTake b f b'

-- The marks of a map in which one frame was marked.
pub marks-one :
    {b b' : Bitmap} (f : ℕ) (v : Bool)
    → IsMarking b f 1 v b'
    → (g : ℕ) → b.dead_zone ≤ g
    → in_use b' g ≡ (if g == f then v else in_use b g)
marks-one {b} {b'} f v is g h =
    ap (λ d. marked b'.words d g) is.same_dead ∙ is.marks g h ∙ ground arith

IsFrame-IsTake :
    {b b' : Bitmap} (ptr : ℕ)
    → IsFrameMap b
    → IsFrame b ptr b'
    → (f : ℕ) × (ptr ≡ f * 4096) × (f < 2 ^ 20) × IsTake b f b'
IsFrame-IsTake ptr m (exhausted e same _) = (0, e, omega arith, none_left refl same)
IsFrame-IsTake ptr m (frame aligned above fits free marking) = (
  ptr / 4096,
  omega (arith, aligned),
  omega (arith, m.frames),
  taken_frame (omega arith) (omega arith) (omega (arith, m.frames)) free marking.same_dead
      marking.same_len (marks-one (ptr / 4096) true marking),
)

pub allocate-IsTake :
    (b : Bitmap)
    → IsFrameMap b
    → (f : ℕ) × (b' : Bitmap) × (phys_allocate_frame b ≡ some (f * 4096, b'))
      × (f < 2 ^ 20)
      × IsTake b f b'
      × IsFrameMap b'
allocate-IsTake b m =
    let (ptr, b', e, is, m') = allocate-IsFrame m in
    let (f, at_f, small, take) = IsFrame-IsTake ptr m is in (f, b', rw (← at_f) e, small, take, m')
