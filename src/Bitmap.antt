-- ===== src/Bitmap.antt =====
-- util/bitmap.c, util/bitmap.h and util/bitwise.h: the allocation bitmap that the physical memory
-- manager, the I/O port manager and the disk subsystem share. `size_t` has 32 bits. `none` is a
-- failed `assert`, which prints a message and hangs the kernel. The array behind `start` is a
-- function from word indices to words.
pub mod Marks
pub mod Search
pub mod Laws
pub mod Alloc
pub mod Footprint
mod Tests
use vv4os.Base.{
  ℕ, zero, suc, ◌+◌, ◌-◌, ◌*◌, ◌/◌, ◌%◌, ◌^◌, bit_and, bit_or, Bool, true, false, not, ◌&&◌, Option,
  none, some, ltb, leb, ◌==◌, if◌then◌else◌, u32,
}

-- `SIZE_MAX`
abbrev pub invalid_word_ix : ℕ
invalid_word_ix = 2 ^ 32 - 1

-- `sizeof(size_t) * CHAR_BIT`
abbrev pub bits_per_word : ℕ
bits_per_word = 32

-- The size in bytes of the array for `l` entries of which `d` are in the dead zone.
abbrev pub bitmap_size : ℕ → ℕ → ℕ
bitmap_size l d = (l - d) / 8

abbrev pub Words : Type 0
Words = ℕ → ℕ

pub record Bitmap : Type 0 where
  pub words : Words
  pub len : ℕ
  pub dead_zone : ℕ
  pub first_free : ℕ

unfoldable pub get_bit : ℕ → ℕ → Bool
get_bit word b = not (bit_and (word / 2 ^ b) 1 == 0)

unfoldable pub set_bit : ℕ → ℕ → Bool → ℕ
set_bit word b value =
    if value then bit_or word (2 ^ b) else bit_and word (2 ^ bits_per_word - 1 - 2 ^ b)

abbrev pub update : Words → ℕ → ℕ → Words
update words k w j = if k == j then w else words j

-- The test of the search: `words[(i - dead_zone) / 32] & (1 << ((i - dead_zone) % 32))`.
unfoldable pub taken : Bitmap → ℕ → Bool
taken b i =
    let k = i - b.dead_zone in
    not (bit_and (b.words (k / bits_per_word)) (2 ^ (k % bits_per_word)) == 0)

-- The loop of the search at index `i` with `rounds` indices left; `found` free ones stand before.
pub find_loop : Bitmap → ℕ → (rounds i found : ℕ) → ℕ
find_loop b n zero i found = invalid_word_ix
find_loop b n (suc rounds) i found = elim (taken b i) [
  | true ↦ find_loop b n rounds (i + 1) 0
  | false ↦ elim (leb n (found + 1)) [
    | true ↦ u32 (i + 2 ^ 32 - n + 1)
    | false ↦ find_loop b n rounds (i + 1) (found + 1)
  ]
]

unfoldable pub find_in_bitmap : Bitmap → ℕ → Option ℕ
unfolding find_loop taken
find_in_bitmap b n =
    if leb b.dead_zone b.first_free
    then some (find_loop b n (b.len - b.first_free) b.first_free 0)
    else none

-- The loop of the marking at index `i` with `rounds` indices left.
pub mark_loop : ℕ → Bool → (rounds i : ℕ) → Words → Words
mark_loop dz value zero i words = words
mark_loop dz value (suc rounds) i words =
    let k = i - dz in
    let word = set_bit (words (k / bits_per_word)) (k % bits_per_word) value in
    mark_loop dz value rounds (i + 1) (update words (k / bits_per_word) word)

-- What marking does to the hint.
pub next_first_free : ℕ → (first n : ℕ) → Bool → ℕ
next_first_free ff first n true =
    if leb first ff && ltb ff (u32 (first + n)) then u32 (first + n) else ff
next_first_free ff first n false = if ltb first ff then first else ff

unfoldable pub mark_in_bitmap : Bitmap → ℕ → ℕ → Bool → Option Bitmap
unfolding mark_loop next_first_free set_bit
mark_in_bitmap b first n allocated =
    if leb b.dead_zone first
    then some (record b {
      words = mark_loop b.dead_zone allocated (u32 (first + n) - first) first b.words;
      first_free = next_first_free b.first_free first n allocated;
    })
    else none

unfoldable pub init_bitmap : Bitmap → Bool → Option Bitmap
init_bitmap b allocated =
    let ff = if allocated then invalid_word_ix else b.dead_zone in
    mark_in_bitmap (record b { first_free = ff }) b.dead_zone (u32 (b.len + 2 ^ 32 - b.dead_zone))
      allocated

-- The index found, or `SIZE_MAX`, and the bitmap after the call.
pub mark_found : Bitmap → ℕ → ℕ → Option (ℕ × Bitmap)
mark_found b n first =
    if first == invalid_word_ix
    then some (invalid_word_ix, b)
    else elim (mark_in_bitmap b first n true) [ none ↦ none | some b' ↦ some (first, b') ]

unfoldable pub allocate_in_bitmap : Bitmap → ℕ → Option (ℕ × Bitmap)
unfolding mark_found
allocate_in_bitmap b n = elim (find_in_bitmap b n) [
  | none ↦ none
  | some first ↦ mark_found b n first
]

unfoldable pub free_in_bitmap : Bitmap → ℕ → ℕ → Option Bitmap
free_in_bitmap b first n = mark_in_bitmap b first n false
