-- ===== src/PhysMem.antt =====
-- arch/x86/mem/phys_mem_mgr_x86.c: physical frames of 4096 bytes, kept in a bitmap. The ends of the
-- kernel's image, which the linker provides, are parameters. Addresses are 32 bits wide.
pub mod Laws
mod Tests
use vv4os.Base.{
  ℕ, ◌+◌, ◌-◌, ◌*◌, ◌/◌, ◌%◌, ◌^◌, bit_and, false, Option, none, some, ◌==◌, if◌then◌else◌, u32,
}
use vv4os.Bitmap.{Bitmap, Words, invalid_word_ix, init_bitmap, allocate_in_bitmap, free_in_bitmap}

abbrev pub frame_size : ℕ
frame_size = 4096

-- `KERNEL_STATIC_MEM_END - (KERNEL_STATIC_MEM_START & 0xFFC00000)`
unfoldable pub kernel_len : (mem_start mem_end : ℕ) → ℕ
kernel_len mem_start mem_end = u32 (mem_end + 2 ^ 32 - bit_and mem_start 0xFFC00000)

unfoldable pub kernel_frames : ℕ → ℕ
kernel_frames n = if n % frame_size == 0 then n / frame_size else n / frame_size + 1

-- `data` of the bitmap is whatever the array held before.
unfoldable pub phys_mem_mgr_init : Words → (mem_start mem_end ram_size : ℕ) → Option Bitmap
phys_mem_mgr_init array mem_start mem_end ram_size =
    init_bitmap
      (record {
        words = array;
        len = ram_size / frame_size;
        dead_zone = kernel_frames (kernel_len mem_start mem_end) + 1;
        first_free = 0;
      })
      false

-- The address of a frame, or `NULL`, and the bitmap after the call.
pub frame_address : ℕ × Bitmap → ℕ × Bitmap
frame_address (k, b) = if k == invalid_word_ix then (0, b) else (u32 (k * frame_size), b)

unfoldable pub phys_allocate_frame : Bitmap → Option (ℕ × Bitmap)
unfolding frame_address
phys_allocate_frame b = elim (allocate_in_bitmap b 1) [
  | none ↦ none
  | some r ↦ some (frame_address r)
]

unfoldable pub phys_free_frame : Bitmap → ℕ → Option Bitmap
phys_free_frame b ptr = free_in_bitmap b (ptr / frame_size) 1
