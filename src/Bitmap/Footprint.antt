-- ===== src/Bitmap/Footprint.antt =====
-- What initialisation leaves, and which words of the array marking writes.
use vv4os.Base.{
  subst, sym, some_inj, ℕ, zero, suc, ◌+◌, ◌-◌, ◌*◌, ◌%◌, ◌^◌, ◌≤◌, ◌<◌, ◌≡◌, refl, Bool, true,
  false, some, arith, if◌then◌else◌, ◌∙◌,
}
use vv4os.Bitmap.{
  Bitmap, Words, bitmap_size, invalid_word_ix, mark_loop, mark_in_bitmap, init_bitmap,
  next_first_free,
}
use vv4os.Bitmap.Marks.{marked, marked-mark_loop}
use vv4os.Bitmap.Laws.{IsValid, marked_bitmap, mark_in_bitmap-eq}

-- A bitmap whose entries all have the mark `v`, and that is well formed.
pub record IsInitial (b : Bitmap) (v : Bool) (b' : Bitmap) : Type 0 where
  pub valid : IsValid b'
  pub same_len : b'.len ≡ b.len
  pub same_dead : b'.dead_zone ≡ b.dead_zone
  pub all : (j : ℕ) → b.dead_zone ≤ j → j < b.len → marked b'.words b.dead_zone j ≡ v

abbrev start_hint : Bitmap → Bool → ℕ
start_hint b v = if v then invalid_word_ix else b.dead_zone

init_bitmap-eq :
    (b : Bitmap) (v : Bool)
    → b.dead_zone ≤ b.len
    → b.len < 2 ^ 32
    → init_bitmap b v
      ≡ some (
          marked_bitmap
            (record b { first_free = start_hint b v })
            b.dead_zone
            (b.len - b.dead_zone)
            v)
unfolding init_bitmap
init_bitmap-eq b v room small =
    let n : (b.len + 2 ^ 32 - b.dead_zone) % 2 ^ 32 ≡ b.len - b.dead_zone = omega arith in
    rw n (
      mark_in_bitmap-eq (record b { first_free = start_hint b v }) b.dead_zone (b.len - b.dead_zone)
        v (omega arith) (omega arith))

initial-all :
    (b : Bitmap) (v : Bool) (j : ℕ)
    → b.dead_zone ≤ j
    → j < b.len
    → marked (mark_loop b.dead_zone v (b.len - b.dead_zone) b.dead_zone b.words) b.dead_zone j ≡ v
initial-all b v j p q = ground (
  arith,
  marked-mark_loop b.dead_zone v (b.len - b.dead_zone) b.dead_zone j b.words (omega arith) p,
)

initial-IsValid :
    (b : Bitmap) (v : Bool)
    → b.dead_zone ≤ b.len
    → b.len < 2 ^ 32
    → IsValid (
        marked_bitmap
          (record b { first_free = start_hint b v })
          b.dead_zone
          (b.len - b.dead_zone)
          v)
unfolding next_first_free
initial-IsValid b true room small = record {
  dead = ground arith;
  room = room;
  small = small;
  hint_small = ground arith;
  hint = λ i p q r. initial-all b true i p r;
}
initial-IsValid b false room small = record {
  dead = ground arith;
  room = room;
  small = small;
  hint_small = ground arith;
  hint = λ i p q r. absurd (ground arith);
}

-- Initialisation makes the bitmap well formed, whatever its words and hint were, with every index
-- between the dead zone and the end marked as asked.
pub init-IsInitial :
    (b : Bitmap) (v : Bool)
    → b.dead_zone ≤ b.len
    → b.len < 2 ^ 32
    → (b' : Bitmap) × (init_bitmap b v ≡ some b') × IsInitial b v b'
init-IsInitial b v room small = (
  marked_bitmap (record b { first_free = start_hint b v }) b.dead_zone (b.len - b.dead_zone) v,
  init_bitmap-eq b v room small,
  record {
    valid = initial-IsValid b v room small;
    same_len = refl;
    same_dead = refl;
    all = initial-all b v;
  },
)

-- Marking `n` indices from `i` on leaves the words alone that hold none of them.
mark_loop_above :
    (dz : ℕ) (v : Bool) (n i k : ℕ) (words : Words)
    → dz ≤ i
    → i + n ≤ 32 * k + dz
    → mark_loop dz v n i words k ≡ words k
unfolding mark_loop
mark_loop_above dz v zero i k words p q = refl
mark_loop_above dz v (suc n) i k words p q =
    mark_loop_above dz v n (i + 1) k _ (omega arith) (omega arith) ∙ ground arith

-- Where the number of entries is a multiple of the word size, as for every bitmap of the kernel,
-- marking a range inside the bitmap writes no word that reaches past the `BITMAP_SIZE` bytes of the
-- array.
pub mark_in_bounds :
    (b : Bitmap) {b' : Bitmap} (first n : ℕ) (v : Bool) (k : ℕ)
    → b.len < 2 ^ 32
    → (b.len - b.dead_zone) % 32 ≡ 0
    → b.dead_zone ≤ first
    → first + n ≤ b.len
    → mark_in_bitmap b first n v ≡ some b'
    → bitmap_size b.len b.dead_zone < 4 * k + 4
    → b'.words k ≡ b.words k
mark_in_bounds b first n v k small whole above fits done past =
    let out : mark_in_bitmap b first n v ≡ some (marked_bitmap b first n v) =
      mark_in_bitmap-eq b first n v above (omega arith) in
    subst (λ t. t.words k ≡ b.words k) (some_inj (sym out ∙ done))
      (mark_loop_above b.dead_zone v n first k b.words above (omega arith))
