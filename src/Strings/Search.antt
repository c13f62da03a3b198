-- ===== src/Strings/Search.antt =====
-- `strchr`.
use vv4os.Base.{
  ℕ, zero, suc, ◌+◌, ◌<◌, ◌≡◌, refl, true, some, List, [], ◌∷◌, arith, ltb, ◌==◌, if◌then◌else◌,
  length, ◌∙◌, ap, inl, inr, Bool-cases,
}
use vv4os.Strings.{Memory, sign_extend, strlen, strchr, strchr_loop}
use vv4os.Strings.Bytes.{IsString, plain, holds, holds_shift, strlen-length}

-- Where the first character that equals `c` stands, counted from `p`, or `NULL`.
abbrev pub position : (p c : ℕ) → List ℕ → ℕ
position p c [] = 0
position p c (d ∷ ds) = if sign_extend d == c then p else position (p + 1) c ds

strchr_step :
    (fuel len : ℕ) (m : Memory) (p c i n : ℕ)
    → strlen len m p ≡ some n
    → strchr_loop (suc fuel) len m p c i ≡ (
        if ltb i n
        then (if sign_extend (m (p + i)) == c
            then some (p + i)
            else strchr_loop fuel len m p c (i + 1))
        else some 0)
unfolding strchr_loop
strchr_step fuel len m p c i n e = rw e refl

strchr_loop-position :
    (fuel len : ℕ) (m : Memory) (p c i : ℕ) (ds : List ℕ)
    → strlen len m p ≡ some (i + length ds)
    → holds m (p + i) ds ≡ true
    → length ds < fuel
    → strchr_loop fuel len m p c i ≡ some (position (p + i) c ds)
strchr_loop-position zero len m p c i ds n h enough = absurd (omega arith)
strchr_loop-position (suc fuel) len m p c i [] n h enough =
    strchr_step fuel len m p c i (i + 0) n ∙ ground arith
strchr_loop-position (suc fuel) len m p c i (d ∷ ds) n h enough =
    let assoc : p + i + 1 ≡ p + (i + 1) = omega arith in
    let next : holds m (p + (i + 1)) ds ≡ true =
      holds_shift m (p + i + 1) (p + (i + 1)) ds assoc (ground arith) in
    let rest =
      strchr_loop-position fuel len m p c (i + 1) ds (n ∙ ap (λ a. some a) (omega arith)) next
        (omega arith) in
    let inside : ltb i (i + suc (length ds)) ≡ true = ground arith in
    let here : m (p + i) ≡ d = ground arith in
    strchr_step fuel len m p c i (i + suc (length ds)) n
    ∙ rw (inside, here, assoc, rest)
        (elim (Bool-cases (sign_extend d == c)) [ inl hit ↦ rw hit refl | inr miss ↦ rw miss refl ])

-- With more fuel than characters, `strchr` ends and returns the address of the first character that
-- equals the one looked for, both as `int`s, or `NULL` if there is none. For NUL it returns `NULL`.
pub strchr-position :
    (fuel : ℕ) (m : Memory) (p c : ℕ) {cs : List ℕ}
    → IsString m p cs
    → length cs < fuel
    → (strchr fuel m p c ≡ some (position p c cs)) × (strchr fuel m p 0 ≡ some 0)
unfolding strchr
strchr-position fuel m p c {cs} s enough =
    (at c, at 0 ∙ ap (λ a. some a) (no_nul p cs s.characters))
  where
    start : p + 0 ≡ p
    start = omega arith

    at : (a : ℕ) → strchr_loop fuel fuel m p a 0 ≡ some (position p a cs)
    at a =
        strchr_loop-position fuel fuel m p a 0 cs
          (strlen-length fuel m p s enough ∙ ap (λ n. some n) (omega arith))
          (holds_shift m p (p + 0) cs (omega arith) s.stored) enough
        ∙ ap (λ q. some (position q a cs)) start

    no_nul : (q : ℕ) (ds : List ℕ) → plain ds ≡ true → position q 0 ds ≡ 0
    no_nul q [] h = refl
    no_nul q (d ∷ ds) h = ground (arith, no_nul (q + 1) ds)
