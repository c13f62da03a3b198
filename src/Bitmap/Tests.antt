-- ===== src/Bitmap/Tests.antt =====
-- The theorems on the bitmap at concrete inputs, and runs of its operations.
use vv4os.Base.{ℕ, ◌+◌, ◌≤◌, ◌≡◌, refl, ◌⊎◌, true, Option, none, some, arith}
use vv4os.Bitmap.{Bitmap, find_in_bitmap, mark_in_bitmap, allocate_in_bitmap, free_in_bitmap}
use vv4os.Bitmap.Laws.{IsValid, IsMarking, mark-IsMarking}
use vv4os.Bitmap.Alloc.{
  IsAllocation, SameMarks, allocate-IsAllocation, free-allocate, allocate-allocate_disjoint,
}
use vv4os.Bitmap.Footprint.{mark_in_bounds}

-- 64 entries from index 2 on, all free.
abbrev empty : Bitmap
empty = record { words = λ k. 0; len = 66; dead_zone = 2; first_free = 2 }

empty-IsValid : IsValid empty
empty-IsValid = record {
  dead = omega arith;
  room = omega arith;
  small = omega arith;
  hint_small = omega arith;
  hint = λ i p q r. absurd (omega arith);
}

-- The bitmap of a result.
abbrev bitmap_of : Option (ℕ × Bitmap) → Bitmap
bitmap_of none = empty
bitmap_of (some (r, b)) = b

abbrev after_five : Bitmap
after_five = bitmap_of (allocate_in_bitmap empty 5)

abbrev after_eight : Bitmap
after_eight = bitmap_of (allocate_in_bitmap after_five 3)

five_done : allocate_in_bitmap empty 5 ≡ some (2, after_five)
unfolding allocate_in_bitmap find_in_bitmap mark_in_bitmap
five_done = refl

three_more_done : allocate_in_bitmap after_five 3 ≡ some (7, after_eight)
unfolding allocate_in_bitmap find_in_bitmap mark_in_bitmap
three_more_done = refl

first_word : Option (ℕ × Bitmap) → ℕ × ℕ × ℕ
first_word none = (0, 0, 0)
first_word (some (r, b)) = (r, b.words 0, b.first_free)

allocates_five : first_word (allocate_in_bitmap empty 5) ≡ (2, 31, 7)
unfolding allocate_in_bitmap find_in_bitmap mark_in_bitmap first_word
allocates_five = refl

mark-IsMarking_example :
    (b' : Bitmap) × (mark_in_bitmap empty 33 4 true ≡ some b')
    × IsMarking empty 33 4 true b'
    × IsValid b'
mark-IsMarking_example = mark-IsMarking 33 4 true empty-IsValid (omega arith) (omega arith)

allocate-IsAllocation_example :
    (r : ℕ) × (b' : Bitmap) × (allocate_in_bitmap empty 5 ≡ some (r, b'))
    × IsAllocation empty 5 r b'
    × IsValid b'
allocate-IsAllocation_example = allocate-IsAllocation 5 empty-IsValid (omega arith)

free-allocate_example :
    (c : Bitmap) × (free_in_bitmap after_five 2 5 ≡ some c) × IsValid c × SameMarks empty c
free-allocate_example = free-allocate 5 2 empty-IsValid (omega arith) (omega arith) five_done

allocate-allocate_disjoint_example : (2 + 5 ≤ 7) ⊎ (7 + 3 ≤ 2)
allocate-allocate_disjoint_example =
    allocate-allocate_disjoint 5 3 2 7 empty-IsValid (omega arith) (omega arith) (omega arith)
      (omega arith) five_done three_more_done

abbrev marked_four : Bitmap
marked_four = elim (mark_in_bitmap empty 33 4 true) [ none ↦ empty | some b ↦ b ]

four_done : mark_in_bitmap empty 33 4 true ≡ some marked_four
unfolding mark_in_bitmap
four_done = refl

mark_in_bounds_example : marked_four.words 2 ≡ 0
mark_in_bounds_example =
    mark_in_bounds empty 33 4 true 2 (omega arith) (omega arith) (omega arith) (omega arith)
      four_done (omega arith)
