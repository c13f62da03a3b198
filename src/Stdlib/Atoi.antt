-- ===== src/Stdlib/Atoi.antt =====
-- `atoi` reads a decimal numeral back.
use vv4os.Base.{
  ℕ, zero, suc, ◌+◌, ◌-◌, ◌*◌, ◌^◌, ◌<◌, ◌≡◌, refl, Bool, true, false, ◌&&◌, some, List, [], ◌∷◌,
  arith, ltb, leb, ◌==◌, length, u32, ◌∙◌, ap, sym,
}
use native.Mathlib.Nat.{mod-eq_of_lt}
use vv4os.Strings.{Memory, sign_extend, strchr}
use vv4os.Strings.Bytes.{IsString, holds, holds_shift}
use vv4os.Strings.Search.{position, strchr-position}
use vv4os.Stdlib.{isspace, spaces, decimal, skip_spaces, atoi_loop, atoi, utoa}
use vv4os.Stdlib.Numerals.{digit_of, value_from, digits_of}
use vv4os.Stdlib.Utoa.{IsNumeral, utoa-IsNumeral}

abbrev ten : List ℕ
ten = 48 ∷ 49 ∷ 50 ∷ 51 ∷ 52 ∷ 53 ∷ 54 ∷ 55 ∷ 56 ∷ 57 ∷ []

abbrev six : List ℕ
six = 32 ∷ 9 ∷ 10 ∷ 11 ∷ 12 ∷ 13 ∷ []

decimal-position : (c : ℕ) → strchr 11 decimal 1 c ≡ some (position 1 c ten)
decimal-position c =
    (strchr-position 11 decimal 1 c {cs = ten} (record { characters = refl; stored = refl })
      (omega arith)).0

space_position : (c : ℕ) → strchr 7 spaces 1 c ≡ some (position 1 c six)
space_position c =
    (strchr-position 7 spaces 1 c {cs = six} (record { characters = refl; stored = refl })
      (omega arith)).0

-- A decimal digit as a character.
abbrev decimal_digit : ℕ → Bool
decimal_digit c = leb 48 c && ltb c 58

digit_position : (c : ℕ) → decimal_digit c ≡ true → position 1 (sign_extend c) ten ≡ c - 47
digit_position c h = ground arith

digit_no_space : (c : ℕ) → decimal_digit c ≡ true → isspace (sign_extend c) ≡ some false
unfolding isspace
digit_no_space c h =
    let away : position 1 (sign_extend c) six ≡ 0 = ground arith in
    rw (space_position (sign_extend c), away) refl

-- What the loop computes from the digits, in 32 bits.
abbrev wrapped : ℕ → List ℕ → ℕ
wrapped ret [] = ret
wrapped ret (c ∷ cs) = wrapped (u32 (u32 (ret * 10) + (c - 48))) cs

digit_is_decimal : (c : ℕ) → ltb (digit_of c) 10 ≡ true → decimal_digit c ≡ true
digit_is_decimal c h = ground arith

loop_stop :
    (fuel : ℕ) (m : Memory) (str i ret : ℕ)
    → m (str + i) ≡ 0
    → atoi_loop (suc fuel) m str i ret ≡ some ret
unfolding atoi_loop
loop_stop fuel m str i ret e = rw (e, decimal-position 0) refl

loop_digit :
    (fuel : ℕ) (m : Memory) (str i ret c : ℕ)
    → m (str + i) ≡ c
    → decimal_digit c ≡ true
    → atoi_loop (suc fuel) m str i ret
      ≡ atoi_loop fuel m str (i + 1) (u32 (u32 (ret * 10) + (c - 48)))
unfolding atoi_loop
loop_digit fuel m str i ret c e h =
    let live : (c - 47 == 0) ≡ false = ground arith in
    let digit : c - 47 - 1 ≡ c - 48 = omega arith in
    rw (e, decimal-position (sign_extend c), digit_position c h, live, digit) refl

atoi_loop-wrapped :
    (fuel : ℕ) (m : Memory) (str i ret : ℕ) (cs : List ℕ)
    → digits_of 10 cs ≡ true
    → holds m (str + i) cs ≡ true
    → length cs < fuel
    → atoi_loop fuel m str i ret ≡ some (wrapped ret cs)
atoi_loop-wrapped zero m str i ret cs d h enough = absurd (omega arith)
atoi_loop-wrapped (suc fuel) m str i ret [] d h enough = loop_stop fuel m str i ret (ground arith)
atoi_loop-wrapped (suc fuel) m str i ret (c ∷ cs) d h enough =
    let is_digit = digit_is_decimal c (ground arith) in
    let next : holds m (str + (i + 1)) cs ≡ true =
      holds_shift m (str + i + 1) (str + (i + 1)) cs (omega arith) (ground arith) in
    loop_digit fuel m str i ret c (ground arith) is_digit
    ∙ atoi_loop-wrapped fuel m str (i + 1) (u32 (u32 (ret * 10) + (c - 48))) cs (ground arith) next
        (omega arith)

wrapped-value_from :
    (a : ℕ) (cs : List ℕ) → digits_of 10 cs ≡ true → wrapped (u32 a) cs ≡ u32 (value_from 10 a cs)
wrapped-value_from a [] d = refl
wrapped-value_from a (c ∷ cs) d =
    let is_digit = digit_is_decimal c (ground arith) in
    let value : digit_of c ≡ c - 48 = ground arith in
    let step : u32 (u32 (u32 a * 10) + (c - 48)) ≡ u32 (a * 10 + digit_of c) =
      omega (arith, value) in
    ap (λ r. wrapped r cs) step ∙ wrapped-value_from (a * 10 + digit_of c) cs (ground arith)

skip_none :
    (fuel : ℕ) (m : Memory) (str c : ℕ)
    → m (str + 0) ≡ c
    → decimal_digit c ≡ true
    → skip_spaces (suc fuel) m str 0 ≡ some 0
unfolding skip_spaces
skip_none fuel m str c e h = rw (e, digit_no_space c h) refl

atoi_step :
    (fuel : ℕ) (m : Memory) (str c r : ℕ)
    → m (str + 0) ≡ c
    → decimal_digit c ≡ true
    → atoi_loop (suc fuel) m str 0 0 ≡ some r
    → atoi (suc fuel) m str ≡ some r
unfolding atoi
atoi_step fuel m str c r e h run =
    let skip = skip_none fuel m str c e h in
    let no_minus : (sign_extend c == 45) ≡ false = ground arith in
    let no_plus : (sign_extend c == 43) ≡ false = ground arith in
    rw (skip, e, no_minus, no_plus, run) refl

-- With more fuel than digits, `atoi` of a decimal numeral that is not empty ends with its value in
-- 32 bits.
atoi-value :
    (fuel : ℕ) (m : Memory) (str : ℕ) (c : ℕ) (cs : List ℕ)
    → IsString m str (c ∷ cs)
    → digits_of 10 (c ∷ cs) ≡ true
    → length (c ∷ cs) < fuel
    → atoi fuel m str ≡ some (u32 (value_from 10 0 (c ∷ cs)))
atoi-value zero m str c cs s d enough = absurd (omega arith)
atoi-value (suc fuel) m str c cs s d enough =
    let is_digit = digit_is_decimal c (ground arith) in
    let e : str ≡ str + 0 = omega arith in
    let place = holds_shift m str (str + 0) (c ∷ cs) e s.stored in
    atoi_step fuel m str c (wrapped 0 (c ∷ cs)) (ground arith) is_digit
      (atoi_loop-wrapped (suc fuel) m str 0 0 (c ∷ cs) d place enough)
    ∙ ap (λ r. some r) (wrapped-value_from 0 (c ∷ cs) d)

nul_no_space : isspace 0 ≡ some false
unfolding isspace
nul_no_space = rw (space_position 0) refl

skip_nul :
    (fuel : ℕ) (m : Memory) (str : ℕ) → m (str + 0) ≡ 0 → skip_spaces (suc fuel) m str 0 ≡ some 0
unfolding skip_spaces
skip_nul fuel m str e = rw (e, nul_no_space) refl

atoi_empty : (fuel : ℕ) (m : Memory) (str : ℕ) → m (str + 0) ≡ 0 → atoi (suc fuel) m str ≡ some 0
unfolding atoi
atoi_empty fuel m str e =
    let stop = loop_stop fuel m str 0 0 e in rw (skip_nul fuel m str e, e, stop) refl

atoi-IsNumeral :
    (fuel : ℕ) (m : Memory) (str v : ℕ) (cs : List ℕ)
    → IsNumeral m str 10 v cs
    → 32 < fuel
    → v < 2 ^ 32
    → atoi fuel m str ≡ some v
atoi-IsNumeral zero m str v cs n enough small = absurd (omega arith)
atoi-IsNumeral (suc fuel) m str v [] n enough small =
    let e : str ≡ str + 0 = omega arith in
    let nul : m (str + 0) ≡ 0 = ap m (sym e) ∙ ground (arith, n.string.stored) in
    atoi_empty fuel m str nul ∙ ap (λ r. some r) n.value
atoi-IsNumeral (suc fuel) m str v (c ∷ cs) n enough small =
    atoi-value (suc fuel) m str c cs n.string n.valid (omega (arith, n.short))
    ∙ ap (λ r. some r) (ap (λ r. u32 r) n.value ∙ mod-eq_of_lt small)

-- For every 32-bit value, `utoa` in base 10 ends and leaves at `str` a string from which `atoi`, with
-- fuel for more than 32 characters, ends with that value.
pub atoi-utoa :
    (fuel v str : ℕ) (m : Memory)
    → 32 < fuel
    → v < 2 ^ 32
    → (m' : Memory) × (utoa v str 10 m ≡ some (str, m')) × (atoi fuel m' str ≡ some v)
atoi-utoa fuel v str m enough small =
    let (m', cs, run, is, _) = (utoa-IsNumeral v str 10 m (omega arith) (omega arith) small).0 in
    (m', run, atoi-IsNumeral fuel m' str v cs is enough small)
