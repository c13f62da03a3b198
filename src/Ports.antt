-- ===== src/Ports.antt =====
-- io/ports.c: ranges of I/O ports, kept in a bitmap whose dead zone is the first 0x400 ports.
pub mod Laws
mod Tests
use vv4os.Base.{ℕ, ◌^◌, false, Option, none, some, ◌==◌, if◌then◌else◌, u16}
use vv4os.Bitmap.{Bitmap, Words, invalid_word_ix, init_bitmap, allocate_in_bitmap, mark_in_bitmap}

abbrev pub port_illegal_value : ℕ
port_illegal_value = 0

abbrev pub bitmap_dz : ℕ
bitmap_dz = 0x0400

-- `UINT16_MAX + 1`
abbrev pub bitmap_len : ℕ
bitmap_len = 2 ^ 16

-- `array` is whatever the array from `malloc` holds.
unfoldable pub io_port_mgr_init : Words → Option Bitmap
io_port_mgr_init array =
    init_bitmap (record { words = array; len = bitmap_len; dead_zone = bitmap_dz; first_free = 0 })
      false

-- The number that is returned is cut to 16 bits.
pub port_number : ℕ × Bitmap → ℕ × Bitmap
port_number (r, b) = if r == invalid_word_ix then (port_illegal_value, b) else (u16 r, b)

unfoldable pub alloc_ports : Bitmap → ℕ → Option (ℕ × Bitmap)
unfolding port_number
alloc_ports b n = elim (allocate_in_bitmap b n) [ none ↦ none | some r ↦ some (port_number r) ]

unfoldable pub free_ports : Bitmap → ℕ → ℕ → Option Bitmap
free_ports b start n = mark_in_bitmap b start n false
