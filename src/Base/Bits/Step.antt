-- ===== src/Base/Bits/Step.antt =====
-- One equation for the lowest digit of the native `|` and `&`. They stand for a walk over the binary
-- digits that is given its first argument as fuel; any fuel that is not less gives the same.
use Prim.Native.Nat.{
  ℕ, zero, suc, ◌+◌, ◌*◌, ◌/◌, ◌%◌, ◌≤◌, min, max, bit_and, bit_or, digits, bitwise,
  bit_and-bitwise, bit_or-bitwise,
}
use mathlib.Core.Path.{◌≡◌, refl, ◌∙◌, sym, ap}
use native.Mathlib.Omega.{arith}

module _ (outside : ℕ → ℕ) (op : ℕ → ℕ → ℕ) where
  -- By induction on a bound `k` of the first argument.
  fuel_is_enough :
      (k fuel x y : ℕ) → x ≤ k → x ≤ fuel → digits outside op fuel x y ≡ bitwise outside op x y
  fuel_is_enough k zero zero y _ _ = refl
  fuel_is_enough k zero (suc x) y _ low = absurd (omega arith)
  fuel_is_enough k (suc fuel) zero y _ _ = refl
  fuel_is_enough zero (suc fuel) (suc x) y low _ = absurd (omega arith)
  fuel_is_enough (suc k) (suc fuel) (suc x) y low enough =
      let left = fuel_is_enough k fuel (suc x / 2) (y / 2) (omega arith) (omega arith) in
      let right = fuel_is_enough k x (suc x / 2) (y / 2) (omega arith) (omega arith) in
      ap (λ t. t * 2 + op (suc x % 2) (y % 2)) (left ∙ sym right)

  pub peel :
      (x y : ℕ)
      → bitwise outside op (suc x) y
        ≡ bitwise outside op (suc x / 2) (y / 2) * 2 + op (suc x % 2) (y % 2)
  peel x y =
      ap (λ t. t * 2 + op (suc x % 2) (y % 2))
        (fuel_is_enough (suc x) x (suc x / 2) (y / 2) (omega arith) (omega arith))

pub bit_and_step : (x y : ℕ) → bit_and x y ≡ bit_and (x / 2) (y / 2) * 2 + min (x % 2) (y % 2)
bit_and_step zero y = omega (arith, bit_and-bitwise 0 y, bit_and-bitwise 0 (y / 2))
bit_and_step (suc x) y =
    rw (bit_and-bitwise (suc x) y, bit_and-bitwise (suc x / 2) (y / 2)) (peel _ min x y)

pub bit_or_step : (x y : ℕ) → bit_or x y ≡ bit_or (x / 2) (y / 2) * 2 + max (x % 2) (y % 2)
bit_or_step zero y = omega (arith, bit_or-bitwise 0 y, bit_or-bitwise 0 (y / 2))
bit_or_step (suc x) y =
    rw (bit_or-bitwise (suc x) y, bit_or-bitwise (suc x / 2) (y / 2)) (peel _ max x y)
