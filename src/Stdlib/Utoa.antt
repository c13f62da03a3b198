-- ===== src/Stdlib/Utoa.antt =====
-- `utoa` and `utoa_lc`.
use vv4os.Base.{
  ℕ, zero, suc, ◌+◌, ◌-◌, ◌/◌, ◌%◌, ◌^◌, ◌≤◌, ◌<◌, ◌≡◌, refl, true, false, ◌&&◌, ◌||◌, some, List,
  [], ◌∷◌, arith, ltb, leb, ◌==◌, if◌then◌else◌, length, get_or, ◌∙◌, ap, ◌⊎◌, inl, inr, Bool-cases,
}
use native.Mathlib.Nat.{div-add-mod}
use vv4os.Strings.{Memory, store_byte, less}
use vv4os.Strings.Bytes.{IsString, holds_of-get}
use vv4os.Stdlib.{digits, write_digits, to_numeral, utoa, utoa_lc, alphabet, alphabet_lc}
use vv4os.Stdlib.Numerals.{
  value_from, digits_of, numeral, HasLength, halves, digits_loop-HasLength, length-numeral,
  IsAlphabet, alphabet-IsAlphabet, alphabet_lc-IsAlphabet, value-numeral, numeral-digits,
  get_or-append,
}

-- The memory after the loop.
abbrev pub with_digits : (str : ℕ) → List ℕ → Memory → Memory
with_digits str cs m q = if leb str q && ltb q (str + length cs) then get_or cs (q - str) 0 else m q

write_digits-numeral :
    (letters : ℕ → ℕ) (n v str base : ℕ) (m : Memory) (q : ℕ)
    → write_digits letters n v str base m q ≡ with_digits str (numeral letters base n v) m q
unfolding write_digits
write_digits-numeral letters zero v str base m q = ground arith
write_digits-numeral letters (suc n) v str base m q =
    let cs = numeral letters base n (v / base) in
    let c = letters (v % base) in
    let len = length-numeral letters base n (v / base) in
    let all = length-numeral letters base (suc n) v in
    write_digits-numeral letters n (v / base) str base (store_byte m (str + n) c) q
    ∙ elim (Bool-cases (q == str + n)) [
      | inl here ↦ ground (arith, len, all, get_or-append cs c 0 (q - str))
      | inr away ↦ ground (arith, len, all, get_or-append cs c 0 (q - str))
    ]

to_numeral_step :
    (letters : ℕ → ℕ) (v str base n : ℕ) (m : Memory)
    → 2 ≤ base
    → base ≤ 36
    → digits v base ≡ some n
    → to_numeral letters v str base m
      ≡ some (str, store_byte (write_digits letters n v str base m) (str + n) 0)
unfolding to_numeral
to_numeral_step letters v str base n m two most run =
    let fits : (less base 2 || less 36 base) ≡ false = in_range base two most in rw (fits, run) refl
  where
    in_range : (b : ℕ) → 2 ≤ b → b ≤ 36 → (less b 2 || less 36 b) ≡ false
    in_range b two most = ground arith

-- 0 has one digit, and any other number the digits of its length.
digits_count :
    (v base : ℕ)
    → 2 ≤ base
    → v < 2 ^ 32
    → (n : ℕ) × (digits v base ≡ some n) × (((v ≡ 0) × (n ≡ 1)) ⊎ HasLength base n v)
unfolding digits
digits_count v base two small = elim (Bool-cases (v == 0)) [
  | inl none_there ↦ (1, ground arith, inl (ground arith, refl))
  | inr live ↦
      let (n, run, is) = digits_loop-HasLength 32 33 v base 0 two small (omega arith) in
      (n, rw live (run ∙ ap (λ a. some a) (omega arith)), inr is)
]

HasLength-le : (k n base v : ℕ) → 2 ≤ base → v < 2 ^ k → HasLength base n v → n ≤ k
HasLength-le k zero base v two small h = omega arith
HasLength-le zero (suc n) base v two small (live, h) = absurd (omega arith)
HasLength-le (suc k) (suc n) base v two small (live, h) =
    let rest = HasLength-le k n base (v / base) two (halves base v k two small) h in omega arith

count-le :
    (n base v : ℕ) → 2 ≤ base → v < 2 ^ 32 → ((v ≡ 0) × (n ≡ 1)) ⊎ HasLength base n v → n ≤ 32
count-le n base v two small (inl (is_0, is_1)) = omega arith
count-le n base v two small (inr h) = HasLength-le 32 n base v two small h

value_of_count :
    {letters : ℕ → ℕ} (v base n : ℕ)
    → IsAlphabet letters
    → 2 ≤ base
    → base ≤ 36
    → ((v ≡ 0) × (n ≡ 1)) ⊎ HasLength base n v
    → value_from base 0 (numeral letters base n v) ≡ v
value_of_count v base n a two most (inr h) = value-numeral base n v a two most h
value_of_count {letters} v base n a two most (inl (is_0, is_1)) =
    let none_left : 0 / base ≡ 0 = omega (arith, div-add-mod 0 base) in
    rw (is_0, is_1) (ground (arith, a.digit 0 (omega arith)))

-- A numeral of `v` in a base, in memory, of at most 32 digits.
pub record IsNumeral (m : Memory) (str base v : ℕ) (cs : List ℕ) : Type 0 where
  pub string : IsString m str cs
  pub valid : digits_of base cs ≡ true
  pub value : value_from base 0 cs ≡ v
  pub short : length cs ≤ 32

to_numeral-IsNumeral :
    (letters : ℕ → ℕ) (v str base : ℕ) (m : Memory)
    → IsAlphabet letters
    → 2 ≤ base
    → base ≤ 36
    → v < 2 ^ 32
    → (m' : Memory) × (cs : List ℕ) × (to_numeral letters v str base m ≡ some (str, m'))
      × IsNumeral m' str base v cs
      × ((q : ℕ) → q < str ⊎ str + length cs < q → m' q ≡ m q)
to_numeral-IsNumeral letters v str base m a two most small =
    let (n, run, count) = digits_count v base two small in
    let cs = numeral letters base n v in
    let len = length-numeral letters base n v in
    let m₁ = write_digits letters n v str base m in
    let (valid, pl) = numeral-digits base n v a two most in
    (
      store_byte m₁ (str + n) 0,
      cs,
      to_numeral_step letters v str base n m two most run,
      record {
        string = record {
          characters = pl;
          stored = holds_of-get (store_byte m₁ (str + n) 0) str cs λ j h. ground (
            arith,
            len,
            write_digits-numeral letters n v str base m (str + j),
            index j,
            beyond-get cs,
          );
        };
        valid = valid;
        value = value_of_count v base n a two most count;
        short = rw len (count-le n base v two small count);
      },
      λ q away. elim away [
        | inl below ↦ ground (arith, len, write_digits-numeral letters n v str base m q)
        | inr above ↦ ground (arith, len, write_digits-numeral letters n v str base m q)
      ],
    )
  where
    index : (j : ℕ) → str + j - str ≡ j
    index j = omega arith

    beyond-get : (ds : List ℕ) → get_or ds (length ds) 0 ≡ 0
    beyond-get [] = refl
    beyond-get (d ∷ ds) = beyond-get ds

-- For a base from 2 to 36 and every 32-bit value, `utoa` ends and returns `str`, where a string of
-- at most 32 digits of the base then stands whose value is that value; no other byte is changed. So
-- does `utoa_lc`.
pub utoa-IsNumeral :
    (v str base : ℕ) (m : Memory)
    → 2 ≤ base
    → base ≤ 36
    → v < 2 ^ 32
    → ((m' : Memory) × (cs : List ℕ) × (utoa v str base m ≡ some (str, m'))
        × IsNumeral m' str base v cs
        × ((q : ℕ) → q < str ⊎ str + length cs < q → m' q ≡ m q))
      × ((m' : Memory) × (cs : List ℕ) × (utoa_lc v str base m ≡ some (str, m'))
          × IsNumeral m' str base v cs
          × ((q : ℕ) → q < str ⊎ str + length cs < q → m' q ≡ m q))
unfolding utoa utoa_lc
utoa-IsNumeral v str base m two most small = (
  to_numeral-IsNumeral alphabet v str base m alphabet-IsAlphabet two most small,
  to_numeral-IsNumeral alphabet_lc v str base m alphabet_lc-IsAlphabet two most small,
)
