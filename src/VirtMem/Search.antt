-- ===== src/VirtMem/Search.antt =====
-- What `FindContiguousFreeFrames` finds, and that its loop ends: the address of a page wraps to zero
-- after the last page.
use vv4os.Base.{
  ℕ, zero, suc, ◌+◌, ◌-◌, ◌*◌, ◌^◌, ◌≤◌, ◌<◌, ◌≡◌, refl, ◌≢◌, ◌∙◌, inl, inr, Bool, true, false,
  arith, Bool-cases, u32, ◌==◌, ==_iff,
}
use vv4os.VirtMem.State.{Space, Vm, Outcome, done}
use vv4os.VirtMem.Ops.{find_contiguous_loop, all_pages}

-- The `n` pages from `first` on are not mapped.
abbrev pub IsFreeRun : (ℕ → Bool) → ℕ → ℕ → Type 0
IsFreeRun used first n = (j : ℕ) → first ≤ j → j < first + n → used j ≡ false

-- No free run of `n` pages in `[lo, 2 ^ 20)` starts below `s`.
abbrev pub StartsFrom : (ℕ → Bool) → (n lo s : ℕ) → Type 0
StartsFrom used n lo s =
    (first : ℕ) → lo ≤ first → first + n ≤ all_pages → IsFreeRun used first n → s ≤ first

-- `r` is the address of the lowest run of `n` free pages in `[lo, 2 ^ 20)`, or `NULL` if there is
-- none.
pub data IsSearch (used : ℕ → Bool) (n lo r : ℕ) : Type 0 where
  found_run :
      (q : ℕ)
      → r ≡ q * 0x1000
      → lo ≤ q
      → q + n ≤ all_pages
      → IsFreeRun used q n
      → StartsFrom used n lo q
      → IsSearch used n lo r
  no_run :
      r ≡ 0
      → ((first : ℕ) → lo ≤ first → first + n ≤ all_pages → ¬ IsFreeRun used first n)
      → IsSearch used n lo r

-- A search that ends without changing the memory, with what it finds.
abbrev pub Searches : (ℕ → Bool) → (n lo : ℕ) → Space → Outcome ℕ → Type 0
Searches used n lo s o = (r : ℕ) × (o ≡ done r s) × IsSearch used n lo r

module _ (test : ℕ → Vm Bool) (n fuel frame found : ℕ) (s : Space) where
  loop_end : frame ≡ 0 → find_contiguous_loop test (suc fuel) n frame found s ≡ done 0 s
  unfolding find_contiguous_loop
  loop_end e = rw e refl

  loop_hit :
      frame ≢ 0
      → test frame s ≡ done true s
      → find_contiguous_loop test (suc fuel) n frame found s
        ≡ find_contiguous_loop test fuel n (u32 (frame + 0x1000)) 0 s
  unfolding find_contiguous_loop
  loop_hit live hit = let e : (frame == 0) ≡ false = ground arith in rw (e, hit) refl

  loop_last :
      frame ≢ 0
      → test frame s ≡ done false s
      → u32 (found + 1) ≡ n
      → find_contiguous_loop test (suc fuel) n frame found s
        ≡ done (u32 (frame + 2 ^ 32 - u32 (n * 0x1000) + 0x1000)) s
  unfolding find_contiguous_loop
  loop_last live miss last =
      let e : (frame == 0) ≡ false = ground arith in
      let l : (u32 (found + 1) == n) ≡ true = ground arith in rw (e, miss, l) refl

  loop_miss :
      frame ≢ 0
      → test frame s ≡ done false s
      → u32 (found + 1) ≢ n
      → find_contiguous_loop test (suc fuel) n frame found s
        ≡ find_contiguous_loop test fuel n (u32 (frame + 0x1000)) (u32 (found + 1)) s
  unfolding find_contiguous_loop
  loop_miss live miss more =
      let e : (frame == 0) ≡ false = ground arith in
      let l : (u32 (found + 1) == n) ≡ false = ground arith in rw (e, miss, l) refl

-- A round that goes on leaves the search as it is from there.
Searches-round :
    {o o' : Outcome ℕ} (used : ℕ → Bool) (n lo : ℕ) (s : Space)
    → o ≡ o'
    → Searches used n lo s o'
    → Searches used n lo s o
Searches-round used n lo s e (r, runs, is) = (r, e ∙ runs, is)

module _ (test : ℕ → Vm Bool) (used : ℕ → Bool) (s : Space) (n lo : ℕ) (pos : 0 < n) (low : 0 < lo)
    (reads : (p : ℕ) → lo ≤ p → p < all_pages → test (p * 0x1000) s ≡ done (used p) s) where
  pub find_contiguous_loop-IsSearch :
      (fuel p found start : ℕ)
      → start + found ≡ p
      → p ≤ all_pages
      → all_pages < p + fuel
      → lo ≤ start
      → found < n
      → IsFreeRun used start found
      → StartsFrom used n lo start
      → Searches used n lo s (find_contiguous_loop test fuel n (u32 (p * 0x1000)) found s)
  find_contiguous_loop-IsSearch zero p found start e top enough above short free from =
      absurd (omega arith)
  find_contiguous_loop-IsSearch (suc fuel) p found start e top enough above short free from =
      elim (Bool-cases (p == all_pages)) [
        | inl full ↦
            let wrap : u32 (p * 0x1000) ≡ 0 = ground arith in
            (
              0,
              loop_end test n fuel (u32 (p * 0x1000)) found s wrap,
              no_run refl λ first a b free'. absurd (ground (arith, from first a b free')),
            )
        | inr inside ↦
            let lt : p < all_pages = ground arith in
            let exact : u32 (p * 0x1000) ≡ p * 0x1000 = omega arith in
            let live : u32 (p * 0x1000) ≢ 0 = λ z. omega arith in
            let next : u32 (u32 (p * 0x1000) + 0x1000) ≡ u32 ((p + 1) * 0x1000) = omega arith in
            let read : test (u32 (p * 0x1000)) s ≡ done (used p) s =
              rw exact (reads p (omega arith) lt) in
            elim (Bool-cases (used p)) [
              | inl hit ↦
                  Searches-round used n lo s
                    (rw next at
                      (loop_hit test n fuel (u32 (p * 0x1000)) found s live (rw hit at read)))
                    (find_contiguous_loop-IsSearch fuel (p + 1) 0 (p + 1) (omega arith)
                      (omega arith) (omega arith) (omega arith) pos (λ j a b. absurd (omega arith))
                      λ first a b free'. ground (arith, from first a b free', free' p))
              | inr miss ↦
                  let extend : IsFreeRun used start (found + 1) =
                    λ j a b. ground (arith, free j, miss) in
                  let count : u32 (found + 1) ≡ found + 1 = omega arith in
                  elim (Bool-cases (found + 1 == n)) [
                    | inl last ↦
                        let l : found + 1 ≡ n = (==_iff (found + 1) n).0 last in
                        (
                          u32 (u32 (p * 0x1000) + 2 ^ 32 - u32 (n * 0x1000) + 0x1000),
                          loop_last test n fuel (u32 (p * 0x1000)) found s live (rw miss at read)
                              (omega arith),
                          found_run start (omega arith) above (omega arith) (rw l at extend) from,
                        )
                    | inr more ↦
                        let m : found + 1 ≢ n = ground arith in
                        Searches-round used n lo s
                          (rw (next, count) at
                            (loop_miss test n fuel (u32 (p * 0x1000)) found s live (rw miss at read)
                              (rw count m)))
                          (find_contiguous_loop-IsSearch fuel (p + 1) (found + 1) start
                            (omega arith) (omega arith) (omega arith) above (omega arith) extend
                            from)
                  ]
            ]
      ]

  -- The search from page `lo` on ends, changes nothing, and finds the lowest run.
  pub search-IsSearch :
      lo < all_pages
      → Searches used n lo s (find_contiguous_loop test all_pages n (lo * 0x1000) 0 s)
  search-IsSearch inside =
      let exact : u32 (lo * 0x1000) ≡ lo * 0x1000 = omega arith in
      rw exact at (
        find_contiguous_loop-IsSearch all_pages lo 0 lo (omega arith) (omega arith) (omega arith)
          (omega arith) pos (λ j a b. absurd (omega arith)) (λ first a b c. a))
