-- ===== src/Strings/Compare.antt =====
-- `strcmp` and `strcasecmp` compare the strings in the order of their characters as `int`s.
use vv4os.Base.{
  ℕ, zero, suc, ◌+◌, ◌<◌, ◌≡◌, refl, true, false, ◌&&◌, some, List, [], ◌∷◌, arith, ◌==◌, not,
  if◌then◌else◌, length, ◌∙◌, ap, inl, inr, Bool-cases,
}
use vv4os.Strings.{Memory, sign_extend, ordering, compare_loop, strcasecmp, tolower}
use vv4os.Strings.Bytes.{IsString, plain, holds, holds_shift}

-- The first difference decides; a NUL ends each string.
abbrev pub compared : (ℕ → ℕ) → List ℕ → List ℕ → ℕ
compared f [] [] = 0
compared f [] (d ∷ ds) = ordering (f 0) (f (sign_extend d))
compared f (c ∷ cs) [] = ordering (f (sign_extend c)) (f 0)
compared f (c ∷ cs) (d ∷ ds) =
    if f (sign_extend c) == f (sign_extend d)
    then compared f cs ds
    else ordering (f (sign_extend c)) (f (sign_extend d))

ordering_refl : (a : ℕ) → ordering a a ≡ 0
ordering_refl a = ground arith

compare_step :
    (f : ℕ → ℕ) (fuel : ℕ) (m : Memory) (p q i a b : ℕ)
    → m (p + i) ≡ a
    → m (q + i) ≡ b
    → compare_loop f (suc fuel) m p q i ≡ (
        if not (a == 0) && not (b == 0) && (f (sign_extend a) == f (sign_extend b))
        then compare_loop f fuel m p q (i + 1)
        else some (ordering (f (sign_extend a)) (f (sign_extend b))))
unfolding compare_loop
compare_step f fuel m p q i a b e e' = rw (e, e') refl

compare_loop-compared :
    (f : ℕ → ℕ) (fuel : ℕ) (m : Memory) (p q i : ℕ) (cs ds : List ℕ)
    → plain cs ≡ true
    → plain ds ≡ true
    → holds m (p + i) cs ≡ true
    → holds m (q + i) ds ≡ true
    → length cs < fuel
    → compare_loop f fuel m p q i ≡ some (compared f cs ds)
compare_loop-compared f zero m p q i cs ds pc pd hc hd enough = absurd (omega arith)
compare_loop-compared f (suc fuel) m p q i [] [] pc pd hc hd enough =
    compare_step f fuel m p q i 0 0 (ground arith) (ground arith)
    ∙ ap (λ a. some a) (ordering_refl (f 0))
compare_loop-compared f (suc fuel) m p q i [] (d ∷ ds) pc pd hc hd enough =
    compare_step f fuel m p q i 0 d (ground arith) (ground arith)
compare_loop-compared f (suc fuel) m p q i (c ∷ cs) [] pc pd hc hd enough =
    let live : (c == 0) ≡ false = ground arith in
    compare_step f fuel m p q i c 0 (ground arith) (ground arith) ∙ rw live refl
compare_loop-compared f (suc fuel) m p q i (c ∷ cs) (d ∷ ds) pc pd hc hd enough =
    let live : (c == 0) ≡ false = ground arith in
    let live' : (d == 0) ≡ false = ground arith in
    let hc' : holds m (p + (i + 1)) cs ≡ true =
      holds_shift m (p + i + 1) (p + (i + 1)) cs (omega arith) (ground arith) in
    let hd' : holds m (q + (i + 1)) ds ≡ true =
      holds_shift m (q + i + 1) (q + (i + 1)) ds (omega arith) (ground arith) in
    let rest =
      compare_loop-compared f fuel m p q (i + 1) cs ds (ground arith) (ground arith) hc' hd'
        (omega arith) in
    compare_step f fuel m p q i c d (ground arith) (ground arith)
    ∙ rw (live, live')
        (elim (Bool-cases (f (sign_extend c) == f (sign_extend d))) [
          | inl same ↦ rw (same, rest) refl
          | inr other ↦ rw other refl
        ])

-- `strcasecmp` does the same with the characters put to lower case.
pub strcasecmp-compared :
    (fuel : ℕ) (m : Memory) (p q : ℕ) {cs ds : List ℕ}
    → IsString m p cs
    → IsString m q ds
    → length cs < fuel
    → strcasecmp fuel m p q ≡ some (compared tolower cs ds)
unfolding strcasecmp
strcasecmp-compared fuel m p q {cs} {ds} s t enough =
    compare_loop-compared tolower fuel m p q 0 cs ds s.characters t.characters
      (holds_shift m p (p + 0) cs (omega arith) s.stored)
      (holds_shift m q (q + 0) ds (omega arith) t.stored) enough
