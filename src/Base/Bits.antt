-- ===== src/Base/Bits.antt =====
-- The bits of a machine word, and what `|`, `&` and a shifted one do to them, at every width.
mod Step
use Step.{bit_or_step, bit_and_step}
use Prim.Native.Nat.{
  ℕ, zero, suc, ◌+◌, ◌-◌, ◌*◌, ◌/◌, ◌%◌, ◌^◌, ◌≤◌, ◌<◌, min, max, bit_and, bit_or,
}
use mathlib.Core.Path.{◌≡◌, refl, ap, ◌∙◌}
use mathlib.Core.Logic.{◌⊎◌, inl, inr}
use mathlib.Core.Bool.{Bool, true, false}
use native.Mathlib.Omega.{arith}
use native.Mathlib.Nat.{pow-suc, one-le-pow, div-div-eq-div-mul, mul_comm}
use vv4os.Base.Tests.{◌==◌, ltb, if◌then◌else◌}

-- Bit `c` of the word `w`, as a number.
unfoldable pub bit_at : ℕ → ℕ → ℕ
bit_at w zero = w % 2
bit_at w (suc c) = bit_at (w / 2) c

pub bit_at-lt : (w c : ℕ) → bit_at w c < 2
unfolding bit_at
bit_at-lt w zero = omega arith
bit_at-lt w (suc c) = bit_at-lt (w / 2) c

pub zero-bit_at : (c : ℕ) → bit_at 0 c ≡ 0
unfolding bit_at
zero-bit_at zero = refl
zero-bit_at (suc c) = zero-bit_at c

pub bit_at-bit_and : (a b c : ℕ) → bit_at (bit_and a b) c ≡ min (bit_at a c) (bit_at b c)
unfolding bit_at
bit_at-bit_and a b zero = omega (arith, bit_and_step a b)
bit_at-bit_and a b (suc c) =
    let half : bit_and a b / 2 ≡ bit_and (a / 2) (b / 2) = omega (arith, bit_and_step a b) in
    rw half (bit_at-bit_and (a / 2) (b / 2) c)

pub bit_at-bit_or : (a b c : ℕ) → bit_at (bit_or a b) c ≡ max (bit_at a c) (bit_at b c)
unfolding bit_at
bit_at-bit_or a b zero = omega (arith, bit_or_step a b)
bit_at-bit_or a b (suc c) =
    let half : bit_or a b / 2 ≡ bit_or (a / 2) (b / 2) = omega (arith, bit_or_step a b) in
    rw half (bit_at-bit_or (a / 2) (b / 2) c)

pow_lt : (b n : ℕ) → b < n → 2 ^ b < 2 ^ n
pow_lt b zero h = absurd (omega arith)
pow_lt zero (suc n) h = omega (arith, pow-suc 2 n, one-le-pow n 2)
pow_lt (suc b) (suc n) h = omega (arith, pow-suc 2 b, pow-suc 2 n, pow_lt b n (omega arith))

-- A shifted one has exactly one bit.
pub bit_at-pow : (b c : ℕ) → bit_at (2 ^ b) c ≡ (if b == c then 1 else 0)
unfolding bit_at
bit_at-pow zero zero = refl
bit_at-pow zero (suc c) = ground (arith, zero-bit_at c)
bit_at-pow (suc b) zero = ground (arith, pow-suc 2 b)
bit_at-pow (suc b) (suc c) =
    let half : 2 ^ suc b / 2 ≡ 2 ^ b = omega (arith, pow-suc 2 b) in
    rw half (ground (arith, bit_at-pow b c))

-- The complement within `n` bits.
pub bit_at-complement : (n a c : ℕ) → a < 2 ^ n → c < n → bit_at (2 ^ n - 1 - a) c ≡ 1 - bit_at a c
unfolding bit_at
bit_at-complement zero a c h lt = absurd (omega arith)
bit_at-complement (suc n) a zero h lt = omega (arith, pow-suc 2 n)
bit_at-complement (suc n) a (suc c) h lt =
    let half : (2 ^ suc n - 1 - a) / 2 ≡ 2 ^ n - 1 - a / 2 = omega (arith, pow-suc 2 n) in
    rw half (bit_at-complement n (a / 2) c (omega (arith, pow-suc 2 n)) (omega arith))

bit_and-zero_below : (n a : ℕ) → a ≤ n → bit_and a 0 ≡ 0
bit_and-zero_below n zero h = refl
bit_and-zero_below zero (suc a) h = absurd (omega arith)
bit_and-zero_below (suc n) (suc a) h =
    omega (arith, bit_and_step (suc a) 0, bit_and-zero_below n (suc a / 2) (omega arith))

pub bit_and-zero : (a : ℕ) → bit_and a 0 ≡ 0
bit_and-zero a = bit_and-zero_below a a (omega arith)

-- A test by `&` with a shifted one reads one bit.
pub bit_and_test : (w b : ℕ) → (bit_and w (2 ^ b) == 0) ≡ (bit_at w b == 0)
unfolding bit_at
bit_and_test w zero = ground (arith, bit_and_step w 1, bit_and-zero (w / 2))
bit_and_test w (suc b) =
    let half : 2 ^ suc b / 2 ≡ 2 ^ b = omega (arith, pow-suc 2 b) in
    let even : 2 ^ suc b % 2 ≡ 0 = omega (arith, pow-suc 2 b) in
    let step : bit_and w (2 ^ suc b) ≡ bit_and (w / 2) (2 ^ b) * 2 =
      (bit_and_step w (2 ^ suc b)) ∙ rw (half, even) (omega arith) in
    rw (← bit_and_test (w / 2) b, step) (ground arith)

-- `w | (1 << b)` sets bit `b` and no other.
pub bit_at-set : (w b c : ℕ) → bit_at (bit_or w (2 ^ b)) c ≡ (if b == c then 1 else bit_at w c)
bit_at-set w b c = ground (arith, bit_at-bit_or w (2 ^ b) c, bit_at-pow b c, bit_at-lt w c)

-- `w & ~(1 << b)` in `n` bits clears bit `b` and no other.
pub bit_at-clear :
    (n w b c : ℕ)
    → b < n
    → c < n
    → bit_at (bit_and w (2 ^ n - 1 - 2 ^ b)) c ≡ (if b == c then 0 else bit_at w c)
bit_at-clear n w b c hb hc = ground (
  arith,
  bit_at-bit_and w (2 ^ n - 1 - 2 ^ b) c,
  bit_at-complement n (2 ^ b) c (pow_lt b n hb) hc,
  bit_at-pow b c,
  bit_at-lt w c,
)

-- So does a shift down by `b` and a test of the lowest bit.
pub bit_and_one_shift : (w b : ℕ) → bit_and (w / 2 ^ b) 1 ≡ bit_at w b
unfolding bit_at
bit_and_one_shift w zero = omega (arith, bit_and_step (w / 2 ^ 0) 1, bit_and-zero (w / 2 ^ 0 / 2))
bit_and_one_shift w (suc b) = rw (← bit_and_one_shift (w / 2) b, shift) refl
  where
    shift : w / 2 ^ suc b ≡ w / 2 / 2 ^ b
    shift = rw (pow-suc 2 b, div-div-eq-div-mul, mul_comm 2 (2 ^ b)) refl
