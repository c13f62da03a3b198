-- ===== src/PhysMem/Laws.antt =====
-- Frames are aligned, lie outside the kernel's image and inside memory, and are not handed out twice.
use vv4os.Base.{
  ℕ, ◌+◌, ◌*◌, ◌/◌, ◌%◌, ◌^◌, ◌≤◌, ◌<◌, ◌≡◌, refl, ◌≢◌, inl, inr, Bool, true, false, none, some,
  arith, ◌==◌, Bool-cases, ◌∙◌, ap, subst, sym, some_inj, u32,
}
use vv4os.Bitmap.{init_bitmap, free_in_bitmap, mark_in_bitmap}
use vv4os.PhysMem.{frame_address}
use vv4os.Bitmap.{Bitmap, Words, invalid_word_ix, allocate_in_bitmap}
use vv4os.Bitmap.Marks.{marked}
use vv4os.Bitmap.Search.{IsFreeRun}
use vv4os.Bitmap.Laws.{IsValid, IsMarking}
use vv4os.Bitmap.Alloc.{
  IsAllocation, IsAllocation-granted, refused, granted, allocate-IsAllocation, free-IsMarking,
  free-allocate,
}
use vv4os.Bitmap.Footprint.{init-IsInitial, IsInitial}
use vv4os.PhysMem.{
  frame_size, kernel_len, kernel_frames, phys_mem_mgr_init, phys_allocate_frame, phys_free_frame,
}

-- A well-formed frame map: at most 4 GiB of frames, the first of which is never handed out.
pub record IsFrameMap (b : Bitmap) : Type 0 where
  pub valid : IsValid b
  pub frames : b.len ≤ 2 ^ 20
  pub reserved : 0 < b.dead_zone

abbrev pub in_use : Bitmap → ℕ → Bool
in_use b k = marked b.words b.dead_zone k

-- The kernel's image, rounded up to frames, and one frame more.
dead-ge-kernel : (n : ℕ) → n ≤ kernel_frames n * frame_size
unfolding kernel_frames
dead-ge-kernel n = ground arith

-- If memory holds the kernel's image and a frame more, initialisation makes a well-formed frame map
-- in which every frame above the image is free, and the dead zone covers the image.
pub init-IsFrameMap :
    (array : Words) (mem_start mem_end ram_size : ℕ)
    → ram_size < 2 ^ 32
    → kernel_frames (kernel_len mem_start mem_end) + 1 ≤ ram_size / frame_size
    → (b : Bitmap) × (phys_mem_mgr_init array mem_start mem_end ram_size ≡ some b)
      × IsFrameMap b
      × (b.len ≡ ram_size / frame_size)
      × (kernel_len mem_start mem_end < b.dead_zone * frame_size)
      × ((k : ℕ) → b.dead_zone ≤ k → k < b.len → in_use b k ≡ false)
init-IsFrameMap array mem_start mem_end ram_size small room =
    from_initial (init-IsInitial b₀ false room (omega arith))
  where
    b₀ : Bitmap
    b₀ = record {
      words = array;
      len = ram_size / frame_size;
      dead_zone = kernel_frames (kernel_len mem_start mem_end) + 1;
      first_free = 0;
    }

    from_initial :
        (b : Bitmap) × (init_bitmap b₀ false ≡ some b) × IsInitial b₀ false b
        → (b : Bitmap) × (phys_mem_mgr_init array mem_start mem_end ram_size ≡ some b)
          × IsFrameMap b
          × (b.len ≡ ram_size / frame_size)
          × (kernel_len mem_start mem_end < b.dead_zone * frame_size)
          × ((k : ℕ) → b.dead_zone ≤ k → k < b.len → in_use b k ≡ false)
    from_initial (b, done, is) = (
      b,
      unfold phys_mem_mgr_init in done,
      record {
        valid = is.valid;
        frames = omega (arith, is.same_len);
        reserved = omega (arith, is.same_dead);
      },
      is.same_len,
      omega (arith, is.same_dead, dead-ge-kernel (kernel_len mem_start mem_end)),
      λ k p q.
          subst (λ d. marked b.words d k ≡ false) (sym is.same_dead)
            (is.all k (rw (← is.same_dead) p) (rw (← is.same_len) q)),
    )

-- What `X86PhysAllocateFrame` gives: `NULL` when no frame is free, and else the address of a frame.
pub data IsFrame (b : Bitmap) (ptr : ℕ) (b' : Bitmap) : Type 0 where
  exhausted :
      ptr ≡ 0
      → b' ≡ b
      → ((k : ℕ) → b.dead_zone ≤ k → k < b.len → in_use b k ≡ true)
      → IsFrame b ptr b'
  frame :
      ptr % frame_size ≡ 0
      → b.dead_zone * frame_size ≤ ptr
      → ptr + frame_size ≤ b.len * frame_size
      → in_use b (ptr / frame_size) ≡ false
      → IsMarking b (ptr / frame_size) 1 true b'
      → IsFrame b ptr b'

taken_of_no_run : (b : Bitmap) (k : ℕ) → ¬ IsFreeRun b k 1 → in_use b k ≡ true
taken_of_no_run b k not_free = elim (Bool-cases (in_use b k)) [
  | inl busy ↦ busy
  | inr free ↦ absurd (not_free (λ j p q. let e : j ≡ k = omega arith in rw e free))
]

IsMarking-IsFrameMap :
    {b b' : Bitmap} {k : ℕ} {v : Bool}
    → IsFrameMap b
    → IsMarking b k 1 v b'
    → IsValid b'
    → IsFrameMap b'
IsMarking-IsFrameMap m marks valid = record {
  valid = valid;
  frames = omega (arith, marks.same_len, m.frames);
  reserved = omega (arith, marks.same_dead, m.reserved);
}

allocation-IsFrame :
    {b b' : Bitmap} {k : ℕ}
    → IsFrameMap b
    → IsAllocation b 1 k b'
    → IsFrame b (frame_address (k, b')).0 (frame_address (k, b')).1
unfolding frame_address
allocation-IsFrame {b} {b'} m (refused e same no_run) =
    rw e (exhausted refl same (λ k p q. taken_of_no_run b k (no_run k p (omega arith))))
allocation-IsFrame {b} {b'} {k} m (granted above fits free marks _) =
    let ne : (k == invalid_word_ix) ≡ false = ground arith in
    let addr : k * 4096 % 2 ^ 32 ≡ k * 4096 = omega arith in
    let back : k * 4096 / 4096 ≡ k = omega arith in
    rw (ne, addr)
      (frame (omega arith) (omega arith) (omega arith)
        (rw back (free k (omega arith) (omega arith))) (rw back marks))

allocation-IsFrameMap :
    {b b' : Bitmap} {k : ℕ} → IsFrameMap b → IsAllocation b 1 k b' → IsValid b' → IsFrameMap b'
allocation-IsFrameMap m (refused e same no_run) valid = rw same m
allocation-IsFrameMap m (granted _ _ _ marks _) valid = IsMarking-IsFrameMap m marks valid

phys_allocate_frame-eq :
    (b : Bitmap) (r : ℕ × Bitmap)
    → allocate_in_bitmap b 1 ≡ some r
    → phys_allocate_frame b ≡ some (frame_address r)
unfolding phys_allocate_frame
phys_allocate_frame-eq b r e = ap (λ o. elim o [ none ↦ none | some r ↦ some (frame_address r) ]) e

frame_address-keeps : (r : ℕ × Bitmap) → (frame_address r).1 ≡ r.1
unfolding frame_address
frame_address-keeps (k, b) = ground arith

-- Allocation from a well-formed frame map keeps it well formed. It returns `NULL` exactly when no
-- frame is free; otherwise the address is frame-aligned, outside the dead zone and inside memory,
-- and that frame, free before, is the only one whose mark changes.
pub allocate-IsFrame :
    {b : Bitmap}
    → IsFrameMap b
    → (ptr : ℕ) × (b' : Bitmap) × (phys_allocate_frame b ≡ some (ptr, b'))
      × IsFrame b ptr b'
      × IsFrameMap b'
allocate-IsFrame {b} m =
    let (k, b', done, alloc, valid) = allocate-IsAllocation 1 m.valid (omega arith) in
    (
      (frame_address (k, b')).0,
      (frame_address (k, b')).1,
      phys_allocate_frame-eq b (k, b') done,
      allocation-IsFrame m alloc,
      rw (frame_address-keeps (k, b')) (allocation-IsFrameMap m alloc valid),
    )

-- Freeing the address of a frame that `X86PhysAllocateFrame` may return succeeds, keeps the frame
-- map well formed, and frees that frame and no other.
pub free-IsFrameMap :
    {b : Bitmap} (k : ℕ)
    → IsFrameMap b
    → b.dead_zone ≤ k
    → k < b.len
    → (b' : Bitmap) × (phys_free_frame b (k * frame_size) ≡ some b')
      × IsMarking b k 1 false b'
      × IsFrameMap b'
free-IsFrameMap {b} k m above inside =
    let (b', done, marks, valid) = free-IsMarking k 1 m.valid above (omega arith) in
    let back : k * 4096 / 4096 ≡ k = omega arith in
    (b', unfold phys_free_frame in rw back done, marks, IsMarking-IsFrameMap m marks valid)

frame_address-inv :
    (k : ℕ) (b : Bitmap) (ptr : ℕ) (b' : Bitmap)
    → frame_address (k, b) ≡ (ptr, b')
    → ptr ≢ 0
    → (k ≢ invalid_word_ix) × (u32 (k * frame_size) ≡ ptr) × (b ≡ b')
unfolding frame_address
frame_address-inv k b ptr b' e ok = elim (Bool-cases (k == invalid_word_ix)) [
  | inl none_left ↦ absurd (ok (sym (ap (λ t. t.0) (rw none_left at e))))
  | inr found ↦ let e' = rw found at e in (ground arith, ap (λ t. t.0) e', ap (λ t. t.1) e')
]

-- A frame that was just allocated can be freed, and the map is then as it was.
pub free-allocate_frame :
    {b b' : Bitmap} (ptr : ℕ)
    → IsFrameMap b
    → ptr ≢ 0
    → phys_allocate_frame b ≡ some (ptr, b')
    → (c : Bitmap) × (phys_free_frame b' ptr ≡ some c)
      × IsFrameMap c
      × ((k : ℕ) → b.dead_zone ≤ k → in_use c k ≡ in_use b k)
free-allocate_frame {b} {b'} ptr m ok e =
    let (k, b₁, done, alloc, _) = allocate-IsAllocation 1 m.valid (omega arith) in
    let (ok', addr, same) =
      frame_address-inv k b₁ ptr b' (some_inj (sym (phys_allocate_frame-eq b (k, b₁) done) ∙ e))
        ok in
    let (above, fits, _, marks) = IsAllocation-granted alloc ok' in
    let (c, freed, valid, back) =
      free-allocate 1 k m.valid (omega arith) ok' (done ∙ ap (λ t. some (k, t)) same) in
    let at_k : ptr / 4096 ≡ k = omega arith in
    (
      c,
      unfold phys_free_frame in rw at_k freed,
      record {
        valid = valid;
        frames = omega (arith, back.same_len);
        reserved = omega (arith, back.same_dead);
      },
      λ j p. subst (λ d. marked c.words d j ≡ in_use b j) (sym back.same_dead) (back.marks j p),
    )

-- Freeing `NULL`, or any address inside the dead zone, fails the assertion of the bitmap.
pub free_dead :
    (b : Bitmap) (ptr : ℕ) → ptr / frame_size < b.dead_zone → phys_free_frame b ptr ≡ none
unfolding phys_free_frame free_in_bitmap mark_in_bitmap
free_dead b ptr low = ground arith
