-- ===== src/Bitmap/Search.antt =====
-- What the search finds: the lowest run of free indices that is long enough.
use vv4os.Base.{
  ℕ, zero, suc, ◌+◌, ◌-◌, ◌%◌, ◌^◌, ◌≤◌, ◌<◌, ◌≡◌, refl, ◌⊎◌, inl, inr, true, false, arith, leb,
  Bool-cases,
}
use vv4os.Bitmap.{Bitmap, invalid_word_ix, taken, find_loop}
use vv4os.Bitmap.Marks.{marked, taken-marked}

-- The `n` indices from `first` on are free.
abbrev pub IsFreeRun : Bitmap → ℕ → ℕ → Type 0
IsFreeRun b first n = (j : ℕ) → first ≤ j → j < first + n → marked b.words b.dead_zone j ≡ false

-- `r` starts the lowest free run of `n` indices in `[lo, hi)`, or is `SIZE_MAX` if there is none.
pub record IsLowestRun (b : Bitmap) (n lo hi r : ℕ) : Type 0 where
  pub sound : (r ≡ invalid_word_ix) ⊎ ((lo ≤ r) × (r + n ≤ hi) × IsFreeRun b r n)
  pub best : (first : ℕ) → lo ≤ first → first + n ≤ hi → IsFreeRun b first n → r ≤ first

module _ (b : Bitmap) (n lo hi : ℕ) (pos : 0 < n) (small : hi < 2 ^ 32) where
  -- No free run starts in `[lo, s)`.
  abbrev StartsFrom : ℕ → Type 0
  StartsFrom s = (first : ℕ) → lo ≤ first → first + n ≤ hi → IsFreeRun b first n → s ≤ first

  StartsFrom-skip :
      (s found i : ℕ)
      → s + found ≡ i
      → found < n
      → taken b i ≡ true
      → StartsFrom s
      → StartsFrom (i + 1)
  StartsFrom-skip s found i e short hit from first above fits free =
      ground (arith, taken-marked b i, from first above fits free, free i)

  IsFreeRun-extend :
      (s found i : ℕ)
      → s + found ≡ i
      → taken b i ≡ false
      → IsFreeRun b s found
      → IsFreeRun b s (found + 1)
  IsFreeRun-extend s found i e miss free j p q = ground (arith, taken-marked b i, free j)

  pub find_loop-IsLowestRun :
      (rounds i found s : ℕ)
      → s + found ≡ i
      → i + rounds ≡ hi
      → lo ≤ s
      → found < n
      → IsFreeRun b s found
      → StartsFrom s
      → IsLowestRun b n lo hi (find_loop b n rounds i found)
  unfolding find_loop
  find_loop-IsLowestRun zero i found s e end above short free from = record {
    sound = inl refl;
    best = λ first p q r. absurd (omega (arith, from first p q r));
  }
  find_loop-IsLowestRun (suc rounds) i found s e end above short free from =
      elim (Bool-cases (taken b i)) [
        | inl hit ↦
            rw (hit, find_loop)
              (find_loop-IsLowestRun rounds (i + 1) 0 (i + 1) (omega arith) (omega arith)
                (omega arith) pos (λ j p q. absurd (omega arith))
                (StartsFrom-skip s found i e short hit from))
        | inr miss ↦
            rw (miss, find_loop)
              (elim (Bool-cases (leb n (found + 1))) [
                | inl long ↦
                    let full : n ≡ found + 1 = ground arith in
                    let start : (i + 2 ^ 32 - n + 1) % 2 ^ 32 ≡ s = omega arith in
                    rw (long, find_loop)
                      (rw start record {
                        sound = inr (
                          above,
                          omega (arith, full),
                          λ j p q. ground (arith, taken-marked b i, free j, full),
                        );
                        best = from;
                      })
                | inr more ↦
                    rw (more, find_loop)
                      (find_loop-IsLowestRun rounds (i + 1) (found + 1) s (omega arith)
                        (omega arith) above (ground arith) (IsFreeRun-extend s found i e miss free)
                        from)
              ])
      ]
