-- ===== src/PhysMem/Tests.antt =====
-- The theorems on the frame map at concrete inputs: 64 MiB of memory and a kernel of 3 MiB.
use vv4os.Base.{ℕ, ◌+◌, ◌*◌, ◌/◌, ◌≤◌, ◌<◌, ◌≡◌, refl, false, none, some, arith}
use vv4os.Bitmap.{Bitmap, allocate_in_bitmap, find_in_bitmap, mark_in_bitmap}
use vv4os.PhysMem.{
  kernel_len, kernel_frames, phys_mem_mgr_init, phys_allocate_frame, phys_free_frame,
}
use vv4os.PhysMem.Laws.{
  IsFrameMap, IsFrame, in_use, init-IsFrameMap, allocate-IsFrame, free-allocate_frame,
}

image : (kernel_len 0xC0100000 0xC0300000 ≡ 0x300000) × (kernel_frames 0x300001 ≡ 769)
unfolding kernel_len kernel_frames
image = (refl, refl)

image_fits : kernel_frames (kernel_len 0xC0100000 0xC0300000) + 1 ≤ 0x4000000 / 4096
unfolding kernel_len kernel_frames
image_fits = omega arith

init-IsFrameMap_example :
    (b : Bitmap) × (phys_mem_mgr_init (λ k. 7) 0xC0100000 0xC0300000 0x4000000 ≡ some b)
    × IsFrameMap b
    × (b.len ≡ 0x4000000 / 4096)
    × (kernel_len 0xC0100000 0xC0300000 < b.dead_zone * 4096)
    × ((k : ℕ) → b.dead_zone ≤ k → k < b.len → in_use b k ≡ false)
init-IsFrameMap_example =
    init-IsFrameMap (λ k. 7) 0xC0100000 0xC0300000 0x4000000 (omega arith) image_fits

abbrev frames : Bitmap
frames = record { words = λ k. 0; len = 16384; dead_zone = 769; first_free = 769 }

frames-IsFrameMap : IsFrameMap frames
frames-IsFrameMap = record {
  valid = record {
    dead = omega arith;
    room = omega arith;
    small = omega arith;
    hint_small = omega arith;
    hint = λ i p q r. absurd (omega arith);
  };
  frames = omega arith;
  reserved = omega arith;
}

allocate-IsFrame_example :
    (ptr : ℕ) × (b' : Bitmap) × (phys_allocate_frame frames ≡ some (ptr, b'))
    × IsFrame frames ptr b'
    × IsFrameMap b'
allocate-IsFrame_example = allocate-IsFrame frames-IsFrameMap

abbrev one_taken : Bitmap
one_taken = elim (phys_allocate_frame frames) [ none ↦ frames | some (ptr, b) ↦ b ]

one_done : phys_allocate_frame frames ≡ some (0x301000, one_taken)
unfolding phys_allocate_frame allocate_in_bitmap find_in_bitmap mark_in_bitmap
one_done = refl

free-allocate_frame_example :
    (c : Bitmap) × (phys_free_frame one_taken 0x301000 ≡ some c)
    × IsFrameMap c
    × ((k : ℕ) → 769 ≤ k → in_use c k ≡ in_use frames k)
free-allocate_frame_example = free-allocate_frame 0x301000 frames-IsFrameMap (omega arith) one_done
