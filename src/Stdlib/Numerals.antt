-- ===== src/Stdlib/Numerals.antt =====
-- Numerals as lists of digits, and their values.
use vv4os.Base.{
  ℕ, zero, suc, ◌+◌, ◌-◌, ◌*◌, ◌/◌, ◌%◌, ◌^◌, ◌≤◌, ◌<◌, ◌≡◌, ◌≢◌, refl, Bool, true, not, ◌&&◌, some,
  List, [], ◌∷◌, ◌++◌, arith, ltb, leb, ◌==◌, if◌then◌else◌, length, length-append, get_or, ◌∙◌, ap,
  sym, inl, inr, Bool-cases,
}
use native.Mathlib.Nat.{div-add-mod, mod-lt, div-lt_iff_lt-mul, mul-le-mul_left, mul_comm, pow-suc}
use vv4os.Strings.Bytes.{plain}
use vv4os.Stdlib.{digits_loop, alphabet, alphabet_lc}

-- The value of a digit or letter; 36 stands for any other character.
abbrev pub digit_of : ℕ → ℕ
digit_of c =
    if leb 48 c && ltb c 58
    then c - 48
    else if leb 65 c && ltb c 91
    then c - 55
    else if leb 97 c && ltb c 123
    then c - 87
    else 36

-- The value of a numeral from its first digit on, behind a number `acc`.
abbrev pub value_from : (base acc : ℕ) → List ℕ → ℕ
value_from base acc [] = acc
value_from base acc (c ∷ cs) = value_from base (acc * base + digit_of c) cs

-- The characters are digits of the base.
abbrev pub digits_of : ℕ → List ℕ → Bool
digits_of base [] = true
digits_of base (c ∷ cs) = ltb (digit_of c) base && digits_of base cs

-- The first `n` digits that the loop writes, in the order of their addresses.
abbrev pub numeral : (ℕ → ℕ) → (base n value : ℕ) → List ℕ
numeral letters base zero v = []
numeral letters base (suc n) v = numeral letters base n (v / base) ++ letters (v % base) ∷ []

-- Dividing `n` times leaves nothing, and no fewer divisions do.
abbrev pub HasLength : (base n value : ℕ) → Type 0
HasLength base zero v = v ≡ 0
HasLength base (suc n) v = (v ≢ 0) × HasLength base n (v / base)

pub halves : (base x k : ℕ) → 2 ≤ base → x < 2 ^ suc k → x / base < 2 ^ k
halves base x k two small =
    let wide : 2 ^ k * 2 ≤ 2 ^ k * base = mul-le-mul_left (2 ^ k) two in
    let below : x < 2 ^ k * base = omega (arith, pow-suc 2 k, wide) in
    (div-lt_iff_lt-mul (let positive : 0 < base = omega arith in positive)).1 below

pub digits_loop-HasLength :
    (k fuel x base ret : ℕ)
    → 2 ≤ base
    → x < 2 ^ k
    → k < fuel
    → (n : ℕ) × (digits_loop fuel x base ret ≡ some (ret + n)) × HasLength base n x
unfolding digits_loop
digits_loop-HasLength k zero x base ret two small enough = absurd (omega arith)
digits_loop-HasLength zero (suc fuel) x base ret two small enough =
    let none_left : x ≡ 0 = omega arith in (0, ground arith, none_left)
digits_loop-HasLength (suc k) (suc fuel) x base ret two small enough = elim (Bool-cases (x == 0)) [
  | inl done ↦ (0, ground arith, ground arith)
  | inr more ↦
      let (n, run, is) =
        digits_loop-HasLength k fuel (x / base) base (ret + 1) two (halves base x k two small)
          (omega arith) in
      (suc n, rw more (run ∙ ap (λ a. some a) (omega arith)), (ground arith, is))
]

module _ {A : Type 0} where
  pub get_or-append :
      (xs : List A) (x d : A) (j : ℕ)
      → get_or (xs ++ x ∷ []) j d ≡ (if j == length xs then x else get_or xs j d)
  get_or-append [] x d zero = refl
  get_or-append [] x d (suc j) = ground arith
  get_or-append (y ∷ ys) x d zero = ground arith
  get_or-append (y ∷ ys) x d (suc j) = get_or-append ys x d j ∙ ground arith

pub length-numeral : (letters : ℕ → ℕ) (base n v : ℕ) → length (numeral letters base n v) ≡ n
length-numeral letters base zero v = refl
length-numeral letters base (suc n) v = omega (
  arith,
  length-append (numeral letters base n (v / base)) (letters (v % base) ∷ []),
  length-numeral letters base n (v / base),
)

pub value_from-append :
    (base acc c : ℕ) (cs : List ℕ)
    → value_from base acc (cs ++ c ∷ []) ≡ value_from base acc cs * base + digit_of c
value_from-append base acc c [] = refl
value_from-append base acc c (d ∷ cs) = value_from-append base (acc * base + digit_of d) c cs

-- The alphabets give each digit below 36 its character.
pub record IsAlphabet (letters : ℕ → ℕ) : Type 0 where
  pub digit : (d : ℕ) → d < 36 → digit_of (letters d) ≡ d
  pub character : (d : ℕ) → d < 36 → (0 < letters d) × (letters d < 128)

pub alphabet-IsAlphabet : IsAlphabet alphabet
alphabet-IsAlphabet = record {
  digit = λ d h. ground arith;
  character = λ d h. (ground arith, ground arith);
}

pub alphabet_lc-IsAlphabet : IsAlphabet alphabet_lc
alphabet_lc-IsAlphabet = record {
  digit = λ d h. ground arith;
  character = λ d h. (ground arith, ground arith);
}

pub value-numeral :
    {letters : ℕ → ℕ} (base n v : ℕ)
    → IsAlphabet letters
    → 2 ≤ base
    → base ≤ 36
    → HasLength base n v
    → value_from base 0 (numeral letters base n v) ≡ v
value-numeral base zero v a two most h = sym h
value-numeral {letters} base (suc n) v a two most (live, h) =
    let low : v % base < base = mod-lt v (omega arith) in
    let rest = value-numeral base n (v / base) a two most h in
    value_from-append base 0 (letters (v % base)) (numeral letters base n (v / base))
    ∙ rw (rest, a.digit (v % base) (omega arith))
        (omega (arith, div-add-mod v base, mul_comm base (v / base)))

pub digits_of-append :
    (base c : ℕ) (cs : List ℕ)
    → digits_of base (cs ++ c ∷ []) ≡ (digits_of base cs && ltb (digit_of c) base)
digits_of-append base c [] = ground arith
digits_of-append base c (d ∷ cs) = ground (arith, digits_of-append base c cs)

pub plain-append :
    (c : ℕ) (cs : List ℕ) → plain (cs ++ c ∷ []) ≡ (plain cs && (not (c == 0) && ltb c 256))
plain-append c [] = ground arith
plain-append c (d ∷ cs) = ground (arith, plain-append c cs)

pub numeral-digits :
    {letters : ℕ → ℕ} (base n v : ℕ)
    → IsAlphabet letters
    → 2 ≤ base
    → base ≤ 36
    → (digits_of base (numeral letters base n v) ≡ true) × (plain (numeral letters base n v) ≡ true)
numeral-digits base zero v a two most = (refl, refl)
numeral-digits {letters} base (suc n) v a two most =
    let low : v % base < base = mod-lt v (omega arith) in
    let (rest, rest') = numeral-digits base n (v / base) a two most in
    let c = letters (v % base) in
    let cs = numeral letters base n (v / base) in
    (
      digits_of-append base c cs ∙ ground (arith, rest, a.digit (v % base) (omega arith)),
      plain-append c cs ∙ ground (arith, rest', a.character (v % base) (omega arith)),
    )
