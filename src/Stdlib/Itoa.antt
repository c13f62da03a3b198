-- ===== src/Stdlib/Itoa.antt =====
-- `itoa`.
use vv4os.Base.{
  ℕ, ◌+◌, ◌-◌, ◌^◌, ◌≤◌, ◌<◌, ◌≡◌, refl, true, false, some, List, arith, u32, ◌∙◌, inl,
}
use vv4os.Strings.{Memory, store_byte, less}
use vv4os.Stdlib.{utoa, itoa}
use vv4os.Stdlib.Utoa.{IsNumeral, utoa-IsNumeral}

itoa_negative :
    (v str base : ℕ) (m : Memory)
    → 2 ^ 31 ≤ v
    → v < 2 ^ 32
    → itoa v str base m ≡ utoa (2 ^ 32 - v) (str + 1) base (store_byte m str 45)
unfolding itoa
itoa_negative v str base m low small =
    let neg : less v 0 ≡ true = ground arith in
    let wrap : u32 (2 ^ 32 - v) ≡ 2 ^ 32 - v = omega arith in rw (neg, wrap) refl

itoa_positive : (v str base : ℕ) (m : Memory) → v < 2 ^ 31 → itoa v str base m ≡ utoa v str base m
unfolding itoa
itoa_positive v str base m small = let pos : less v 0 ≡ false = ground arith in rw pos refl

-- For a base from 2 to 36 and a value that is not negative, `itoa` writes and returns what `utoa`
-- does. For a negative value it writes `-` at `str` and behind it the numeral of the absolute value,
-- and the pointer that it returns is to that numeral, behind the sign.
pub itoa-IsNumeral :
    (v str base : ℕ) (m : Memory)
    → 2 ≤ base
    → base ≤ 36
    → (v < 2 ^ 31
        → (m' : Memory) × (cs : List ℕ) × (itoa v str base m ≡ some (str, m'))
          × IsNumeral m' str base v cs)
      × (2 ^ 31 ≤ v
          → v < 2 ^ 32
          → (m' : Memory) × (cs : List ℕ) × (itoa v str base m ≡ some (str + 1, m'))
            × (m' str ≡ 45)
            × IsNumeral m' (str + 1) base (2 ^ 32 - v) cs)
itoa-IsNumeral v str base m two most = (
  λ small.
      let (m', cs, run, is, _) = (utoa-IsNumeral v str base m two most (omega arith)).0 in
      (m', cs, itoa_positive v str base m small ∙ run, is),
  λ low small.
      let m₁ = store_byte m str 45 in
      let (m', cs, run, is, rest) =
        (utoa-IsNumeral (2 ^ 32 - v) (str + 1) base m₁ two most (omega arith)).0 in
      (
        m',
        cs,
        itoa_negative v str base m low small ∙ run,
        rest str (inl (omega arith)) ∙ ground arith,
        is,
      ),
)
