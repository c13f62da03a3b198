-- ===== src/Strings/Bytes.antt =====
-- What a C string in memory stands for.
use vv4os.Base.{
  ℕ, zero, suc, ◌+◌, ◌≤◌, ◌<◌, ◌≡◌, Bool, true, false, ◌&&◌, some, List, [], ◌∷◌, arith, ltb, ◌==◌,
  not, length, get_or, ◌∙◌, ap, sym, subst, ◌⊎◌, inl, inr,
}
use vv4os.Strings.{Memory, store_byte, strlen, strlen_loop}

-- Characters other than NUL.
abbrev pub plain : List ℕ → Bool
plain [] = true
plain (c ∷ cs) = not (c == 0) && ltb c 256 && plain cs

-- The characters `cs` stand from `p`, with a NUL behind them.
abbrev pub holds : Memory → ℕ → List ℕ → Bool
holds m p [] = m p == 0
holds m p (c ∷ cs) = (m p == c) && holds m (p + 1) cs

pub record IsString (m : Memory) (p : ℕ) (cs : List ℕ) : Type 0 where
  pub characters : plain cs ≡ true
  pub stored : holds m p cs ≡ true

pub holds_shift :
    (m : Memory) (p q : ℕ) (cs : List ℕ) → p ≡ q → holds m p cs ≡ true → holds m q cs ≡ true
holds_shift m p q cs e h = subst (λ a. holds m a cs ≡ true) e h

-- The character at an index, and the NUL at the end.
pub holds-get :
    (m : Memory) (p : ℕ) (cs : List ℕ) (i : ℕ)
    → holds m p cs ≡ true
    → i ≤ length cs
    → m (p + i) ≡ get_or cs i 0
holds-get m p [] i h small = (let e : p + i ≡ p = omega arith in rw e (ground arith))
holds-get m p (c ∷ cs) zero h small = (let e : p + 0 ≡ p = omega arith in rw e (ground arith))
holds-get m p (c ∷ cs) (suc i) h small =
    let e : p + suc i ≡ p + 1 + i = omega arith in
    rw e (holds-get m (p + 1) cs i (ground arith) (omega arith))

strlen_loop-length :
    (fuel : ℕ) (m : Memory) (p i : ℕ) (cs : List ℕ)
    → plain cs ≡ true
    → holds m (p + i) cs ≡ true
    → length cs < fuel
    → strlen_loop fuel m p i ≡ some (i + length cs)
unfolding strlen_loop
strlen_loop-length zero m p i cs pl h enough = absurd (omega arith)
strlen_loop-length (suc fuel) m p i [] pl h enough = ground arith
strlen_loop-length (suc fuel) m p i (c ∷ cs) pl h enough =
    let next : holds m (p + (i + 1)) cs ≡ true =
      holds_shift m (p + i + 1) (p + (i + 1)) cs (omega arith) (ground arith) in
    let rest = strlen_loop-length fuel m p (i + 1) cs (ground arith) next (omega arith) in
    let more : (m (p + i) == 0) ≡ false = ground arith in
    rw more (rest ∙ ap (λ n. some n) (omega arith))

-- With more fuel than characters, `strlen` ends with the number of characters.
pub strlen-length :
    (fuel : ℕ) (m : Memory) (p : ℕ) {cs : List ℕ}
    → IsString m p cs
    → length cs < fuel
    → strlen fuel m p ≡ some (length cs)
unfolding strlen
strlen-length fuel m p {cs} s enough =
    strlen_loop-length fuel m p 0 cs s.characters
      (holds_shift m p (p + 0) cs (omega arith) s.stored) enough
    ∙ ap (λ n. some n) (omega arith)

-- Writing outside a string leaves it.
pub holds-store_byte :
    (m : Memory) (p q c : ℕ) (cs : List ℕ)
    → q < p ⊎ p + length cs < q
    → holds m p cs ≡ true
    → holds (store_byte m q c) p cs ≡ true
holds-store_byte m p q c [] away h = elim away [
  | inl below ↦ ground arith
  | inr above ↦ ground arith
]
holds-store_byte m p q c (d ∷ cs) away h = elim away [
  | inl below ↦
      let rest = holds-store_byte m (p + 1) q c cs (inl (omega arith)) (ground arith) in
      ground (arith, rest)
  | inr above ↦
      let rest = holds-store_byte m (p + 1) q c cs (inr (omega arith)) (ground arith) in
      ground (arith, rest)
]

-- A string from its characters at each index.
pub holds_of-get :
    (m : Memory) (p : ℕ) (cs : List ℕ)
    → ((j : ℕ) → j ≤ length cs → m (p + j) ≡ get_or cs j 0)
    → holds m p cs ≡ true
holds_of-get m p [] h =
    (let e : p + 0 ≡ p = omega arith in ground (arith, e, ap m e, h 0 (omega arith)))
holds_of-get m p (c ∷ cs) h =
    let e : p + 0 ≡ p = omega arith in
    let first : m p ≡ c = ap m (sym e) ∙ h 0 (omega arith) in
    let rest = holds_of-get m (p + 1) cs λ j small.
      ap m (let z : p + 1 + j ≡ p + suc j = omega arith in z) ∙ h (suc j) (omega arith) in
    ground (arith, first, rest)
