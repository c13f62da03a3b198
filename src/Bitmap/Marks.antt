-- ===== src/Bitmap/Marks.antt =====
-- The bitmap as a set of marked indices, and what marking does to it.
use vv4os.Base.{
  ℕ, zero, suc, ◌+◌, ◌-◌, ◌/◌, ◌%◌, ◌≤◌, ◌<◌, ◌≡◌, Bool, true, false, not, ◌&&◌, arith, ltb, leb,
  ◌==◌, if◌then◌else◌,
}
use vv4os.Base.Bits.{bit_at, bit_at-set, bit_at-clear, bit_and_test, bit_and_one_shift}
use vv4os.Bitmap.{Bitmap, Words, get_bit, set_bit, update, taken, mark_loop}

-- The mark of index `i`, over words that start at index `dz`.
unfoldable pub marked : Words → ℕ → ℕ → Bool
unfolding get_bit
marked words dz i = get_bit (words ((i - dz) / 32)) ((i - dz) % 32)

get_bit-bit_at : (w b : ℕ) → get_bit w b ≡ not (bit_at w b == 0)
unfolding get_bit
get_bit-bit_at w b = rw (bit_and_one_shift w b)

-- The search and `GetBit` read the same bit.
pub taken-marked : (b : Bitmap) (i : ℕ) → taken b i ≡ marked b.words b.dead_zone i
unfolding taken marked
taken-marked b i = rw (bit_and_test, get_bit-bit_at)

get_bit-set_bit :
    (w b c : ℕ) (v : Bool)
    → b < 32
    → c < 32
    → get_bit (set_bit w b v) c ≡ (if b == c then v else get_bit w c)
unfolding set_bit
get_bit-set_bit w b c true hb hc =
    ground (arith, get_bit-bit_at (set_bit w b true) c, get_bit-bit_at w c, bit_at-set w b c)
get_bit-set_bit w b c false hb hc =
    ground (arith, get_bit-bit_at (set_bit w b false) c, get_bit-bit_at w c, bit_at-clear 32 w b c)

-- Marking one index marks it and no other.
pub marked-update :
    (words : Words) (dz i j : ℕ) (v : Bool)
    → dz ≤ i
    → dz ≤ j
    → marked (update words ((i - dz) / 32) (set_bit (words ((i - dz) / 32)) ((i - dz) % 32) v)) dz j
      ≡ (if i == j then v else marked words dz j)
unfolding marked
marked-update words dz i j v hi hj = ground (
  arith,
  get_bit-set_bit (words ((i - dz) / 32)) ((i - dz) % 32) ((j - dz) % 32) v (omega arith)
      (omega arith),
)

-- Marking `n` indices from `i` on marks these and no other.
pub marked-mark_loop :
    (dz : ℕ) (v : Bool) (n i j : ℕ) (words : Words)
    → dz ≤ i
    → dz ≤ j
    → marked (mark_loop dz v n i words) dz j
      ≡ (if leb i j && ltb j (i + n) then v else marked words dz j)
unfolding mark_loop
marked-mark_loop dz v zero i j words hi hj = ground arith
marked-mark_loop dz v (suc n) i j words hi hj = ground (
  arith,
  marked-mark_loop dz v n (i + 1) j
      (update words ((i - dz) / 32) (set_bit (words ((i - dz) / 32)) ((i - dz) % 32) v)),
  marked-update words dz i j v,
)
