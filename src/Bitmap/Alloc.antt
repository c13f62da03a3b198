-- ===== src/Bitmap/Alloc.antt =====
-- Allocation, release and initialisation.
use vv4os.Base.{
  subst, sym, some_inj, ℕ, ◌+◌, ◌≤◌, ◌<◌, ◌≡◌, refl, ◌≢◌, ◌⊎◌, inl, inr, true, false, some, arith,
  if◌then◌else◌, ◌∙◌,
}
use vv4os.Bitmap.{
  Bitmap, invalid_word_ix, find_in_bitmap, mark_in_bitmap, allocate_in_bitmap, free_in_bitmap,
}
use vv4os.Bitmap.Marks.{marked}
use vv4os.Bitmap.Search.{IsFreeRun, IsLowestRun}
use vv4os.Bitmap.Laws.{IsValid, IsMarking, in_range, find-IsLowestRun, mark-IsMarking}

-- What `AllocateInBitmap` gives: either `SIZE_MAX` with the bitmap as it was, and no free run of
-- that length, or the start of the lowest free run, which is marked and nothing else.
pub data IsAllocation (b : Bitmap) (n : ℕ) (r : ℕ) (b' : Bitmap) : Type 0 where
  refused :
      r ≡ invalid_word_ix
      → b' ≡ b
      → ((first : ℕ) → b.dead_zone ≤ first → first + n ≤ b.len → ¬ IsFreeRun b first n)
      → IsAllocation b n r b'
  granted :
      b.dead_zone ≤ r
      → r + n ≤ b.len
      → IsFreeRun b r n
      → IsMarking b r n true b'
      → ((first : ℕ) → b.dead_zone ≤ first → first + n ≤ b.len → IsFreeRun b first n → r ≤ first)
      → IsAllocation b n r b'

allocate_refused :
    (b : Bitmap) (n r : ℕ)
    → find_in_bitmap b n ≡ some r
    → r ≡ invalid_word_ix
    → allocate_in_bitmap b n ≡ some (r, b)
unfolding allocate_in_bitmap
allocate_refused b n r e nothing = ground arith

allocate_granted :
    (b : Bitmap) {b' : Bitmap} (n r : ℕ)
    → find_in_bitmap b n ≡ some r
    → r < invalid_word_ix
    → mark_in_bitmap b r n true ≡ some b'
    → allocate_in_bitmap b n ≡ some (r, b')
unfolding allocate_in_bitmap
allocate_granted b n r e small m = ground arith

-- Allocation from a well-formed bitmap passes its assertions, keeps the bitmap well formed, and
-- either takes the lowest free run that is long enough or, if there is none, changes nothing.
pub allocate-IsAllocation :
    {b : Bitmap} (n : ℕ)
    → IsValid b
    → 0 < n
    → (r : ℕ) × (b' : Bitmap) × (allocate_in_bitmap b n ≡ some (r, b'))
      × IsAllocation b n r b'
      × IsValid b'
allocate-IsAllocation {b} n v pos = from_run (find-IsLowestRun n v pos)
  where
    from_run :
        (r : ℕ) × (find_in_bitmap b n ≡ some r) × IsLowestRun b n b.dead_zone b.len r
        → (r : ℕ) × (b' : Bitmap) × (allocate_in_bitmap b n ≡ some (r, b'))
          × IsAllocation b n r b'
          × IsValid b'
    from_run (r, e, run) = elim run.sound [
      | inl nothing ↦ (
        r,
        b,
        allocate_refused b n r e nothing,
        refused nothing refl
            (λ first p q free. absurd (omega (arith, run.best first p q free, nothing, v.small))),
        v,
      )
      | inr (above, fits, free) ↦
          let (b', done, marks, valid) = mark-IsMarking r n true v above fits in
          (
            r,
            b',
            allocate_granted b n r e (omega arith) done,
            granted above fits free marks run.best,
            valid,
          )
    ]

-- Releasing a range inside a well-formed bitmap passes the assertion, frees exactly that range and
-- keeps the bitmap well formed.
pub free-IsMarking :
    {b : Bitmap} (first n : ℕ)
    → IsValid b
    → b.dead_zone ≤ first
    → first + n ≤ b.len
    → (b' : Bitmap) × (free_in_bitmap b first n ≡ some b')
      × IsMarking b first n false b'
      × IsValid b'
unfolding free_in_bitmap
free-IsMarking first n = mark-IsMarking first n false

-- The same for a call whose result is known.
pub allocate-eq_some :
    {b b' : Bitmap} (n r : ℕ)
    → IsValid b
    → 0 < n
    → allocate_in_bitmap b n ≡ some (r, b')
    → IsAllocation b n r b' × IsValid b'
allocate-eq_some {b} n r v pos e =
    let (_, _, done, alloc, valid) = allocate-IsAllocation n v pos in
    subst (λ t. IsAllocation b n t.0 t.1 × IsValid t.1) (some_inj (sym done ∙ e)) (alloc, valid)

-- The range that a granted allocation marked.
pub IsAllocation-granted :
    {b b' : Bitmap} {n r : ℕ}
    → IsAllocation b n r b'
    → r ≢ invalid_word_ix
    → (b.dead_zone ≤ r) × (r + n ≤ b.len) × IsFreeRun b r n × IsMarking b r n true b'
IsAllocation-granted (refused e _ _) ok = absurd (ok e)
IsAllocation-granted (granted above fits free marks _) ok = (above, fits, free, marks)

-- `c` has the extent and the marks of `b`.
pub record SameMarks (b c : Bitmap) : Type 0 where
  pub same_len : c.len ≡ b.len
  pub same_dead : c.dead_zone ≡ b.dead_zone
  pub marks :
      (j : ℕ) → b.dead_zone ≤ j → marked c.words b.dead_zone j ≡ marked b.words b.dead_zone j

-- Releasing what was just allocated succeeds and gives every mark back.
pub free-allocate :
    {b b' : Bitmap} (n r : ℕ)
    → IsValid b
    → 0 < n
    → r ≢ invalid_word_ix
    → allocate_in_bitmap b n ≡ some (r, b')
    → (c : Bitmap) × (free_in_bitmap b' r n ≡ some c) × IsValid c × SameMarks b c
free-allocate {b} {b'} n r v pos ok e =
    let (alloc, valid) = allocate-eq_some n r v pos e in
    let (above, fits, free, marks) = IsAllocation-granted alloc ok in
    let (c, done, back, valid') =
      free-IsMarking r n valid (rw marks.same_dead above) (rw marks.same_len fits) in
    (
      c,
      done,
      valid',
      record {
        same_len = back.same_len ∙ marks.same_len;
        same_dead = back.same_dead ∙ marks.same_dead;
        marks = λ j p. restored c j above p free marks back;
      },
    )
  where
    restored :
        (c : Bitmap) (j : ℕ)
        → b.dead_zone ≤ r
        → b.dead_zone ≤ j
        → IsFreeRun b r n
        → IsMarking b r n true b'
        → IsMarking b' r n false c
        → marked c.words b.dead_zone j ≡ marked b.words b.dead_zone j
    restored c j above p free marks back =
        let freed : marked c.words b.dead_zone j
            ≡ (if in_range r n j then false else marked b'.words b.dead_zone j) =
          subst (λ d. marked c.words d j ≡ (if in_range r n j then false else marked b'.words d j))
            marks.same_dead (back.marks j (rw marks.same_dead p)) in
        ground (arith, freed, marks.marks j p, free j)

-- Two allocations in a row that are both granted do not overlap.
pub allocate-allocate_disjoint :
    {b b' b'' : Bitmap} (n m r s : ℕ)
    → IsValid b
    → 0 < n
    → 0 < m
    → r ≢ invalid_word_ix
    → s ≢ invalid_word_ix
    → allocate_in_bitmap b n ≡ some (r, b')
    → allocate_in_bitmap b' m ≡ some (s, b'')
    → (r + n ≤ s) ⊎ (s + m ≤ r)
allocate-allocate_disjoint {b} {b'} n m r s v pos pos' ok ok' e e' =
    let (alloc, valid) = allocate-eq_some n r v pos e in
    let (above, fits, free, marks) = IsAllocation-granted alloc ok in
    let (alloc', _) = allocate-eq_some m s valid pos' e' in
    let (above', fits', free', _) = IsAllocation-granted alloc' ok' in
    apart above marks above' free'
  where
    apart :
        b.dead_zone ≤ r
        → IsMarking b r n true b'
        → b'.dead_zone ≤ s
        → IsFreeRun b' s m
        → (r + n ≤ s) ⊎ (s + m ≤ r)
    apart above marks above' free' =
        let freed : (j : ℕ) → s ≤ j → j < s + m → marked b'.words b.dead_zone j ≡ false =
          λ j p q. subst (λ d. marked b'.words d j ≡ false) marks.same_dead (free' j p q) in
        ground (arith, freed r, freed s, marks.marks r, marks.marks s)
