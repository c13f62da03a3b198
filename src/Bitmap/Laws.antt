-- ===== src/Bitmap/Laws.antt =====
-- The operations of the bitmap keep it well formed and do what they promise.
use vv4os.Base.{
  ℕ, ◌+◌, ◌-◌, ◌%◌, ◌^◌, ◌≤◌, ◌<◌, ◌≡◌, refl, inl, inr, Bool, true, false, some, ◌&&◌, arith, leb,
  ltb, if◌then◌else◌, Bool-cases,
}
use vv4os.Bitmap.{Bitmap, mark_loop, next_first_free, find_loop, find_in_bitmap, mark_in_bitmap}
use vv4os.Bitmap.Marks.{marked, marked-mark_loop}
use vv4os.Bitmap.Search.{IsFreeRun, IsLowestRun, find_loop-IsLowestRun}

-- No index below the hint is free.
pub record IsValid (b : Bitmap) : Type 0 where
  pub dead : b.dead_zone ≤ b.first_free
  pub room : b.dead_zone ≤ b.len
  pub small : b.len < 2 ^ 32
  pub hint_small : b.first_free < 2 ^ 32
  pub hint :
      (i : ℕ) → b.dead_zone ≤ i → i < b.first_free → i < b.len → marked b.words b.dead_zone i ≡ true

abbrev pub in_range : ℕ → ℕ → ℕ → Bool
in_range first n j = leb first j && ltb j (first + n)

-- `b'` is `b` with the `n` indices from `first` on marked by `v`, and no others changed.
pub record IsMarking (b : Bitmap) (first n : ℕ) (v : Bool) (b' : Bitmap) : Type 0 where
  pub same_len : b'.len ≡ b.len
  pub same_dead : b'.dead_zone ≡ b.dead_zone
  pub marks :
      (j : ℕ)
      → b.dead_zone ≤ j
      → marked b'.words b.dead_zone j
        ≡ (if in_range first n j then v else marked b.words b.dead_zone j)

-- Every free run inside the bitmap starts at the hint or above it.
first_free-le-run :
    {b : Bitmap} (n first : ℕ)
    → IsValid b
    → 0 < n
    → b.dead_zone ≤ first
    → first + n ≤ b.len
    → IsFreeRun b first n
    → b.first_free ≤ first
first_free-le-run n first v pos above fits free = ground (arith, v.hint first, free first)

find-IsLowestRun_inside :
    {b : Bitmap} (n : ℕ)
    → IsValid b
    → 0 < n
    → b.first_free ≤ b.len
    → IsLowestRun b n b.dead_zone b.len (find_loop b n (b.len - b.first_free) b.first_free 0)
find-IsLowestRun_inside {b} n v pos inside = record {
  sound = elim run.sound [
    | inl nothing ↦ inl nothing
    | inr (above, fits, free) ↦ inr (omega arith, fits, free)
  ];
  best = λ first p q r. run.best first (first_free-le-run n first v pos p q r) q r;
}
  where
    run : IsLowestRun b n b.first_free b.len (find_loop b n (b.len - b.first_free) b.first_free 0)
    run =
        find_loop-IsLowestRun b n b.first_free b.len pos v.small (b.len - b.first_free) b.first_free
          0 b.first_free (omega arith) (omega arith) (omega arith) pos
          (λ j p q. absurd (omega arith)) (λ first p q r. p)

find-IsLowestRun_beyond :
    {b : Bitmap} (n : ℕ)
    → IsValid b
    → 0 < n
    → b.len < b.first_free
    → IsLowestRun b n b.dead_zone b.len (find_loop b n (b.len - b.first_free) b.first_free 0)
find-IsLowestRun_beyond {b} n v pos beyond =
    let none_left : b.len - b.first_free ≡ 0 = omega arith in
    rw none_left record {
      sound = inl (unfold find_loop in refl);
      best = λ first p q r. absurd (omega (arith, first_free-le-run n first v pos p q r));
    }

-- The search of a well-formed bitmap passes its assertion and finds the lowest free run of `n`
-- indices between the dead zone and the end, or `SIZE_MAX` if there is none.
pub find-IsLowestRun :
    {b : Bitmap} (n : ℕ)
    → IsValid b
    → 0 < n
    → (r : ℕ) × (find_in_bitmap b n ≡ some r) × IsLowestRun b n b.dead_zone b.len r
find-IsLowestRun {b} n v pos = (
  find_loop b n (b.len - b.first_free) b.first_free 0,
  unfold find_in_bitmap in ground arith,
  elim (Bool-cases (leb b.first_free b.len)) [
    | inl inside ↦ find-IsLowestRun_inside n v pos (ground arith)
    | inr beyond ↦ find-IsLowestRun_beyond n v pos (ground arith)
  ],
)

-- The bitmap that marking leaves.
abbrev pub marked_bitmap : Bitmap → ℕ → ℕ → Bool → Bitmap
marked_bitmap b first n v = record b {
  words = mark_loop b.dead_zone v n first b.words;
  first_free = next_first_free b.first_free first n v;
}

pub marked_bitmap-IsMarking :
    (b : Bitmap) (first n : ℕ) (v : Bool)
    → b.dead_zone ≤ first
    → IsMarking b first n v (marked_bitmap b first n v)
marked_bitmap-IsMarking b first n v above = record {
  same_len = refl;
  same_dead = refl;
  marks = λ j p. marked-mark_loop b.dead_zone v n first j b.words above p;
}

marked_bitmap-IsValid :
    {b : Bitmap} (first n : ℕ) (v : Bool)
    → IsValid b
    → b.dead_zone ≤ first
    → first + n ≤ b.len
    → IsValid (marked_bitmap b first n v)
unfolding next_first_free
marked_bitmap-IsValid {b} first n true v above fits = record {
  dead = ground arith;
  room = v.room;
  small = v.small;
  hint_small = ground arith;
  hint = λ i p q r.
      ground (arith, v.hint i, marked-mark_loop b.dead_zone true n first i b.words above p);
}
marked_bitmap-IsValid {b} first n false v above fits = record {
  dead = ground arith;
  room = v.room;
  small = v.small;
  hint_small = ground arith;
  hint = λ i p q r.
      ground (arith, v.hint i, marked-mark_loop b.dead_zone false n first i b.words above p);
}

pub mark_in_bitmap-eq :
    (b : Bitmap) (first n : ℕ) (v : Bool)
    → b.dead_zone ≤ first
    → first + n < 2 ^ 32
    → mark_in_bitmap b first n v ≡ some (marked_bitmap b first n v)
unfolding mark_in_bitmap
mark_in_bitmap-eq b first n v above fits =
    let rounds : (first + n) % 2 ^ 32 - first ≡ n = omega arith in rw rounds (ground (arith, above))

-- Marking a range inside a well-formed bitmap passes the assertion, marks exactly that range, and
-- keeps the bitmap well formed.
pub mark-IsMarking :
    {b : Bitmap} (first n : ℕ) (v : Bool)
    → IsValid b
    → b.dead_zone ≤ first
    → first + n ≤ b.len
    → (b' : Bitmap) × (mark_in_bitmap b first n v ≡ some b') × IsMarking b first n v b' × IsValid b'
mark-IsMarking {b} first n v valid above fits = (
  marked_bitmap b first n v,
  mark_in_bitmap-eq b first n v above (omega arith),
  marked_bitmap-IsMarking b first n v above,
  marked_bitmap-IsValid first n v valid above fits,
)
